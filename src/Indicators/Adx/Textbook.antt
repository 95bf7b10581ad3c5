-- ===== src/Indicators/Adx/Textbook.antt =====
-- The formulas of ADX in plain arithmetic, for the lists of highs, lows and closes as bars.
use mathlib.Core.List.{foldl}
use cryptobot_v.Prelude.{
  ℕ, ◌+◌, ◌≡◌, refl, ap, ◌&&◌, List, [], ◌∷◌, map, arith, if◌then◌else◌, length, take, drop, slice,
  from_second,
}
use cryptobot_v.Number.{Num, ◌⊕◌, ◌⊖◌, ◌⊗◌, ◌⊘◌, ◌≺◌, ◌≈◌, nought, abs, max_of}
use cryptobot_v.Indicators.Adx.{Di, Bar, bars}

module _ {F : Type 0} where
  -- The bars hold the three lists, index by index.
  pub record IsBars (highs lows closes : List F) (bs : List (Bar F)) : Type 0 where
    pub highs_eq : map (λ (b : Bar F). b.high) bs ≡ highs
    pub lows_eq : map (λ (b : Bar F). b.low) bs ≡ lows
    pub closes_eq : map (λ (b : Bar F). b.close) bs ≡ closes

  pub bars-IsBars :
      (hs ls cs : List F)
      → length hs ≡ length ls
      → length ls ≡ length cs
      → IsBars hs ls cs (bars hs ls cs)
  unfolding bars
  bars-IsBars [] [] [] p q = record { highs_eq = refl; lows_eq = refl; closes_eq = refl }
  bars-IsBars (h ∷ hs) (l ∷ ls) (c ∷ cs) p q =
      let tail = bars-IsBars hs ls cs (omega arith) (omega arith) in
      record {
        highs_eq = ap (λ xs. h ∷ xs) tail.highs_eq;
        lows_eq = ap (λ xs. l ∷ xs) tail.lows_eq;
        closes_eq = ap (λ xs. c ∷ xs) tail.closes_eq;
      }
  bars-IsBars [] (l ∷ ls) cs p q = absurd (omega arith)
  bars-IsBars [] [] (c ∷ cs) p q = absurd (omega arith)
  bars-IsBars (h ∷ hs) [] cs p q = absurd (omega arith)
  bars-IsBars (h ∷ hs) (l ∷ ls) [] p q = absurd (omega arith)

module _ {F : Type 0} ⦃num : Num F⦄ where
  -- The true range of a bar after another, and the directional movements: the rise of the high if it
  -- is above 0 and above the fall of the low, and the fall of the low if it is above 0 and above the
  -- rise of the high.
  abbrev pub range_of : Bar F → Bar F → F
  range_of a b = max_of (max_of (b.high ⊖ b.low) (abs (b.high ⊖ a.close))) (abs (b.low ⊖ a.close))

  abbrev pub up_of : Bar F → Bar F → F
  up_of a b =
      if ((a.low ⊖ b.low) ≺ (b.high ⊖ a.high)) && (nought ≺ (b.high ⊖ a.high))
      then b.high ⊖ a.high
      else nought

  abbrev pub down_of : Bar F → Bar F → F
  down_of a b =
      if ((b.high ⊖ a.high) ≺ (a.low ⊖ b.low)) && (nought ≺ (a.low ⊖ b.low))
      then a.low ⊖ b.low
      else nought

  -- Wilder's running sum at index `period + k` of a movement between bars: the sum of the first
  -- `period` movements, and then k times the last sum less its `period`-th part, and the next movement.
  abbrev pub wilder_sum : (Bar F → Bar F → F) → List (Bar F) → ℕ → ℕ → F
  wilder_sum move bs period k =
      let xs = from_second move nought bs in
      foldl (λ s x. s ⊖ s ⊘ num.of_ℕ period ⊕ x) (num.sum (slice 1 (period + 1) xs))
        (take k (drop (period + 1) xs))

  -- +DI, -DI and DX of a range t that is not 0, and movements p and m. DX is 0 without movement.
  abbrev pub di_of : F → F → F → Di F
  di_of t p m =
      let plus = num.of_ℕ 100 ⊗ p ⊘ t in
      let minus = num.of_ℕ 100 ⊗ m ⊘ t in
      record {
        plus = plus;
        minus = minus;
        dx =
            if (plus ⊕ minus) ≈ nought
            then nought
            else num.of_ℕ 100 ⊗ abs (plus ⊖ minus) ⊘ (plus ⊕ minus);
      }
