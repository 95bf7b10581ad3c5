-- ===== src/Indicators/RsiVwma.antt =====
-- src/cryptobot/indicators/rsi_vwma.py
pub mod Window
use cryptobot_v.Prelude.{
  ℕ, ◌+◌, ◌-◌, not, Option, none, some, List, [], ◌∷◌, ltb, ◌==◌, if◌then◌else◌, length, slice,
  tabulate_from,
}
use cryptobot_v.Prelude.Result.{Result, ok, raised, value_error}
use cryptobot_v.Number.{Num, ◌⊗◌, ◌⊘◌, ◌≈◌, nought}

-- `any(value is None for value in xs)` and the values otherwise
unfoldable pub all_defined : {F : Type 0} → List (Option F) → Option (List F)
all_defined [] = some []
all_defined (none ∷ xs) = none
all_defined (some x ∷ xs) = elim (all_defined xs) [ none ↦ none | some ys ↦ some (x ∷ ys) ]

module _ {F : Type 0} ⦃num : Num F⦄ where
  -- `r * v for r, v in zip(rs, vs)`
  unfoldable pub products : List F → List F → List F
  products (r ∷ rs) (v ∷ vs) = r ⊗ v ∷ products rs vs
  products _ _ = []

  -- The average over a window of defined values.
  unfoldable pub weighted_average : List F → List F → Option F
  unfolding products
  weighted_average window_rsi window_vol =
      let total_volume = num.sum window_vol in
      if total_volume ≈ nought
      then none
      else some (num.sum (products window_rsi window_vol) ⊘ total_volume)

  -- The body of the loop, at index t.
  unfoldable pub vwma_at : List (Option F) → List F → ℕ → ℕ → Option F
  unfolding all_defined weighted_average
  vwma_at rsi volumes period t =
      let start = t + 1 - period in
      if ltb (t + 1) period then none else elim (all_defined (slice start (t + 1) rsi)) [
        | none ↦ none
        | some window_rsi ↦ weighted_average window_rsi (slice start (t + 1) volumes)
      ]

  unfoldable pub compute_rsi_vwma : List (Option F) → List F → ℕ → Result (List (Option F))
  unfolding vwma_at
  compute_rsi_vwma rsi volumes period =
      if ltb period 1
      then raised value_error
      else if not (length rsi == length volumes)
      then raised value_error
      else ok (tabulate_from (vwma_at rsi volumes period) 0 (length rsi))
