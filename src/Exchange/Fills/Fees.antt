-- ===== src/Exchange/Fills/Fees.antt =====
-- The commissions of fills: their worth in quote, and those in the base asset.
use mathlib.Core.List.{foldl}
use cryptobot_v.Prelude.{
  ◌≡◌, ◌↔◌, refl, sym, true, false, inl, inr, none, some, List, [], ◌∷◌, arith, if◌then◌else◌,
  Bool-cases, Option-cases,
}
use cryptobot_v.Prelude.Text.{Text, text_eq}
use cryptobot_v.Prelude.Dict
use cryptobot_v.Prelude.Result.{ok, Result-cases, ok-inj}
use cryptobot_v.Number.{Num, ◌⊕◌, ◌⊗◌, ◌≈◌, nought}
use cryptobot_v.Exchange.Fills.{
  Fill, Rates, rate_for, commission_in_quote, total_fees, base_commissions,
}

module _ {D : Type 0} ⦃d : Num D⦄ where
  -- What the commission of a fill is worth in quote: nothing if it is 0, itself in the quote asset, its
  -- value at the average price in the base asset, and by the rate of its asset otherwise.
  pub data Fee (base quote : Text) (price : D) (rates : Rates D) (fill : Fill D) (x : D)
      : Type 0 where
    free : fill.commission ≈ nought ≡ true → x ≡ nought → Fee base quote price rates fill x
    in_quote :
        fill.commission ≈ nought ≡ false
        → text_eq fill.commission_asset quote ≡ true
        → x ≡ fill.commission
        → Fee base quote price rates fill x
    in_base :
        fill.commission ≈ nought ≡ false
        → text_eq fill.commission_asset quote ≡ false
        → text_eq fill.commission_asset base ≡ true
        → x ≡ fill.commission ⊗ price
        → Fee base quote price rates fill x
    by_rate :
        fill.commission ≈ nought ≡ false
        → text_eq fill.commission_asset quote ≡ false
        → text_eq fill.commission_asset base ≡ false
        → (table : List (Text × D)) (rate : D) → rates ≡ some table
        → Dict.get fill.commission_asset table ≡ some rate
        → x ≡ fill.commission ⊗ rate
        → Fee base quote price rates fill x

  -- One fee for each fill, in order.
  pub data Fees (base quote : Text) (price : D) (rates : Rates D)
      : List (Fill D) → List D → Type 0 where
    no_fees : Fees base quote price rates [] []
    one_more :
        {fill : Fill D} {fills : List (Fill D)} {x : D} {xs : List D}
        → Fee base quote price rates fill x
        → Fees base quote price rates fills xs
        → Fees base quote price rates (fill ∷ fills) (x ∷ xs)

  -- The commissions that were taken in the base asset.
  abbrev pub paid_in_base : Text → List (Fill D) → List D
  paid_in_base base [] = []
  paid_in_base base (fill ∷ fills) =
      if text_eq fill.commission_asset base
      then fill.commission ∷ paid_in_base base fills
      else paid_in_base base fills

  -- a sum that is added up from the left
  abbrev pub added : D → List D → D
  added = foldl (λ a b. a ⊕ b)

  pub base_commissions-added :
      (base : Text) (total : D) (fills : List (Fill D))
      → base_commissions base total fills ≡ added total (paid_in_base base fills)
  unfolding base_commissions
  base_commissions-added base total [] = refl
  base_commissions-added base total (fill ∷ fills) =
      elim (Bool-cases (text_eq fill.commission_asset base)) [
        | inl e ↦ rw e (base_commissions-added base (total ⊕ fill.commission) fills)
        | inr e ↦ rw e (base_commissions-added base total fills)
      ]

  rate_in_table :
      (asset : Text) (rates : Rates D) (rate : D)
      → rate_for asset rates ≡ some rate
      → (table : List (Text × D)) × (rates ≡ some table) × (Dict.get asset table ≡ some rate)
  rate_in_table asset none rate e = cc
  rate_in_table asset (some table) rate e = (table, refl, e)

  commission_in_quote_iff :
      (base quote : Text) (price : D) (rates : Rates D) (fill : Fill D) (x : D)
      → (commission_in_quote fill base quote price rates ≡ ok x) ↔ Fee base quote price rates fill x
  unfolding commission_in_quote
  commission_in_quote_iff base quote price rates fill x = (fee, run)
    where
      fee :
          commission_in_quote fill base quote price rates ≡ ok x → Fee base quote price rates fill x
      fee e = elim (Bool-cases (fill.commission ≈ nought)) [
        | inl zero ↦ free zero (ground arith)
        | inr some_fee ↦ elim (Bool-cases (text_eq fill.commission_asset quote)) [
          | inl q ↦ in_quote some_fee q (ground arith)
          | inr nq ↦ elim (Bool-cases (text_eq fill.commission_asset base)) [
            | inl b ↦ in_base some_fee nq b (ground arith)
            | inr nb ↦ elim (Option-cases (rate_for fill.commission_asset rates)) [
              | inl missing ↦ absurd (ground arith)
              | inr (rate, found) ↦
                  (let (table, given, at) = rate_in_table fill.commission_asset rates rate found in
                    by_rate some_fee nq nb table rate given at (ground arith))
            ]
          ]
        ]
      ]

      run :
          Fee base quote price rates fill x → commission_in_quote fill base quote price rates ≡ ok x
      run (free z v) = rw (z, v)
      run (in_quote z q v) = rw (z, q, v)
      run (in_base z q b v) = rw (z, q, b, v)
      run (by_rate z q b table rate given at v) = rw (z, q, b, given, at, v)

  pub total_fees-Fees :
      (base quote : Text) (price : D) (rates : Rates D) (start : D) (fills : List (Fill D))
      (out : D)
      → total_fees base quote price rates start fills ≡ ok out
      → (xs : List D) × Fees base quote price rates fills xs × (out ≡ added start xs)
  unfolding total_fees
  total_fees-Fees base quote price rates start [] out e = ([], no_fees, sym (ok-inj e))
  total_fees-Fees base quote price rates start (fill ∷ fills) out e =
      elim (Result-cases (commission_in_quote fill base quote price rates)) [
        | inr (x, bad) ↦ absurd (ground arith)
        | inl (fee, good) ↦
            let (xs, each, sums) =
              total_fees-Fees base quote price rates (start ⊕ fee) fills out (ground arith) in
            let one = (commission_in_quote_iff base quote price rates fill fee).0 good in
            (fee ∷ xs, one_more one each, sums)
      ]

  pub Fees-total_fees :
      (base quote : Text) (price : D) (rates : Rates D) (start : D) (fills : List (Fill D))
      (xs : List D)
      → Fees base quote price rates fills xs
      → total_fees base quote price rates start fills ≡ ok (added start xs)
  unfolding total_fees
  Fees-total_fees base quote price rates start _ _ no_fees = refl
  Fees-total_fees base quote price rates start (fill ∷ fills) (x ∷ xs) (one_more one each) =
      rw ((commission_in_quote_iff base quote price rates fill x).1 one)
        (Fees-total_fees base quote price rates (start ⊕ x) fills xs each)
