-- ===== src/Exchange/Fills/Entry.antt =====
-- The entry that fills are turned into.
use cryptobot_v.Prelude.{
  ◌≡◌, ◌↔◌, refl, sym, subst, ap, ◌∙◌, false, inl, inr, List, [], ◌∷◌, arith, map, is_empty,
  Bool-cases,
}
use cryptobot_v.Prelude.Text.{Text}
use cryptobot_v.Prelude.Result.{ok, Result-cases}
use cryptobot_v.Number.{Num, ◌⊖◌, ◌⊗◌, ◌⊘◌, ◌≺◌, ◌≼◌, nought}
use cryptobot_v.Strategy.Position.{RealizedEntry, make_entry}
use cryptobot_v.Exchange.Fills.{
  Fill, Rates, notional, quantity, total_fees, base_commissions, aggregate_entry,
}
use cryptobot_v.Exchange.Fills.Fees.{
  Fees, paid_in_base, added, base_commissions-added, total_fees-Fees, Fees-total_fees,
}

module _ {D : Type 0} ⦃d : Num D⦄ where
  -- The checks of an entry.
  pub record IsEntry (e : RealizedEntry D) : Type 0 where
    pub filled : e.filled_base_qty ≺ nought ≡ false
    pub price : e.avg_entry_price ≺ nought ≡ false
    pub cost : e.true_entry_cost ≺ nought ≡ false
    pub fees : e.entry_fees_quote ≺ nought ≡ false
    pub sellable : e.sellable_base_qty ≺ nought ≡ false
    pub covered : e.filled_base_qty ≺ e.sellable_base_qty ≡ false

  make_entry-IsEntry : (e e' : RealizedEntry D) → make_entry e ≡ ok e' → (e' ≡ e) × IsEntry e
  unfolding make_entry
  make_entry-IsEntry e e' run = (
    ground arith,
    record {
      filled = ground arith;
      price = ground arith;
      cost = ground arith;
      fees = ground arith;
      sellable = ground arith;
      covered = ground arith;
    },
  )

  IsEntry-make_entry : (e : RealizedEntry D) → IsEntry e → make_entry e ≡ ok e
  unfolding make_entry
  IsEntry-make_entry e c = rw (c.filled, c.price, c.cost, c.fees, c.sellable, c.covered)

  same_entry :
      (e e' : RealizedEntry D)
      → e.filled_base_qty ≡ e'.filled_base_qty
      → e.avg_entry_price ≡ e'.avg_entry_price
      → e.true_entry_cost ≡ e'.true_entry_cost
      → e.entry_fees_quote ≡ e'.entry_fees_quote
      → e.sellable_base_qty ≡ e'.sellable_base_qty
      → e ≡ e'
  same_entry e e' filled price cost fees sellable = cc

  -- the sum of the quantities, and of the prices times the quantities
  abbrev pub all_qty : List (Fill D) → D
  all_qty fills = d.sum (map (λ (f : Fill D). f.qty) fills)

  abbrev pub all_cost : List (Fill D) → D
  all_cost fills = d.sum (map (λ (f : Fill D). f.price ⊗ f.qty) fills)

  -- How an entry sums up its fills: the total quantity, which is above 0, and the total cost, their
  -- quotient as the price, the fees of the fills in quote, and the quantity less the commissions in the
  -- base asset.
  pub record Sums (fills : List (Fill D)) (base quote : Text) (rates : Rates D)
      (e : RealizedEntry D) : Type 0 where
    pub any_fill : is_empty fills ≡ false
    pub bought : all_qty fills ≼ nought ≡ false
    pub filled_eq : e.filled_base_qty ≡ all_qty fills
    pub cost_eq : e.true_entry_cost ≡ all_cost fills
    pub price_eq : e.avg_entry_price ≡ all_cost fills ⊘ all_qty fills
    pub fees : List D
    pub fees_each : Fees base quote e.avg_entry_price rates fills fees
    pub fees_eq : e.entry_fees_quote ≡ added nought fees
    pub sellable_eq : e.sellable_base_qty ≡ all_qty fills ⊖ added nought (paid_in_base base fills)

  aggregate_entry-Sums :
      (fills : List (Fill D)) (base quote : Text) (rates : Rates D) (e : RealizedEntry D)
      → aggregate_entry fills base quote rates ≡ ok e
      → IsEntry e × Sums fills base quote rates e
  unfolding aggregate_entry
  aggregate_entry-Sums [] base quote rates e run = cc
  aggregate_entry-Sums (fill ∷ rest) base quote rates e run =
      let fills = fill ∷ rest in
      let price = notional fills ⊘ quantity fills in
      elim (Bool-cases (quantity fills ≼ nought)) [
        | inl empty ↦ ground arith
        | inr positive ↦ elim (Result-cases (total_fees base quote price rates nought fills)) [
          | inr (x, bad) ↦ ground arith
          | inl (total, good) ↦
              let built : RealizedEntry D = record {
                filled_base_qty = quantity fills;
                avg_entry_price = price;
                true_entry_cost = notional fills;
                entry_fees_quote = total;
                sellable_base_qty = quantity fills ⊖ base_commissions base nought fills;
              } in
              let same : aggregate_entry fills base quote rates ≡ make_entry built =
                rw (positive, good) in
              let (eq, checked) = make_entry-IsEntry built e (sym same ∙ run) in
              let (xs, each, total_eq) =
                total_fees-Fees base quote price rates nought fills total good in
              let sums : Sums fills base quote rates built = record {
                any_fill = refl;
                bought = positive;
                filled_eq = refl;
                cost_eq = refl;
                price_eq = refl;
                fees = xs;
                fees_each = each;
                fees_eq = total_eq;
                sellable_eq =
                    ap (λ c. quantity fills ⊖ c) (base_commissions-added base nought fills);
              } in
              subst (λ x. IsEntry x × Sums fills base quote rates x) (sym eq) (checked, sums)
        ]
      ]

  Sums-aggregate_entry :
      (fills : List (Fill D)) (base quote : Text) (rates : Rates D) (e : RealizedEntry D)
      → IsEntry e
      → Sums fills base quote rates e
      → aggregate_entry fills base quote rates ≡ ok e
  unfolding aggregate_entry
  Sums-aggregate_entry [] base quote rates e checked s = absurd (cc s.any_fill)
  Sums-aggregate_entry (fill ∷ rest) base quote rates e checked s =
      let fills = fill ∷ rest in
      let price = notional fills ⊘ quantity fills in
      let total : total_fees base quote price rates nought fills ≡ ok e.entry_fees_quote =
        subst (λ a. total_fees base quote a rates nought fills ≡ ok e.entry_fees_quote) s.price_eq
          (Fees-total_fees base quote e.avg_entry_price rates nought fills s.fees s.fees_each
            ∙ ap ok (sym s.fees_eq)) in
      let sellable : quantity fills ⊖ base_commissions base nought fills ≡ e.sellable_base_qty =
        ap (λ c. quantity fills ⊖ c) (base_commissions-added base nought fills)
        ∙ sym s.sellable_eq in
      let built : RealizedEntry D = record {
        filled_base_qty = quantity fills;
        avg_entry_price = price;
        true_entry_cost = notional fills;
        entry_fees_quote = e.entry_fees_quote;
        sellable_base_qty = quantity fills ⊖ base_commissions base nought fills;
      } in
      let made : aggregate_entry fills base quote rates ≡ make_entry built = rw (s.bought, total) in
      let same : built ≡ e =
        same_entry built e (sym s.filled_eq) (sym s.price_eq) (sym s.cost_eq) refl sellable in
      made ∙ ap make_entry same ∙ IsEntry-make_entry e checked

  -- Fills are turned into an entry exactly when that entry passes its checks and sums up the fills: the
  -- total quantity, which is above 0, the total cost, their quotient as the price, the worth of every
  -- commission in quote as the fees, and the quantity less the commissions in the base asset.
  pub aggregate_entry_iff :
      (fills : List (Fill D)) (base quote : Text) (rates : Rates D) (e : RealizedEntry D)
      → (aggregate_entry fills base quote rates ≡ ok e)
        ↔ (IsEntry e × Sums fills base quote rates e)
  aggregate_entry_iff fills base quote rates e = (
    aggregate_entry-Sums fills base quote rates e,
    λ (checked, s). Sums-aggregate_entry fills base quote rates e checked s,
  )
