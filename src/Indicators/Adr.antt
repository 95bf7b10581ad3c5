-- ===== src/Indicators/Adr.antt =====
-- src/cryptobot/indicators/adr.py
pub mod Window
use cryptobot_v.Prelude.{
  ℕ, ◌-◌, not, Option, none, some, List, [], ◌∷◌, ltb, ◌==◌, if◌then◌else◌, length, slice,
  tabulate_from,
}
use cryptobot_v.Prelude.Result.{Result, ok, raised, value_error}
use cryptobot_v.Number.{Num, ◌⊖◌, ◌⊘◌}

module _ {F : Type 0} ⦃num : Num F⦄ where
  -- `highs[i] - lows[i]` at each i
  unfoldable pub ranges : List F → List F → List F
  ranges (h ∷ hs) (l ∷ ls) = (h ⊖ l) ∷ ranges hs ls
  ranges _ _ = []

  -- The entry at index t: `None` below `period`, else the mean of the window `[t - period, t)`.
  unfoldable pub adr_at : List F → ℕ → ℕ → Option F
  adr_at rs period t =
      if ltb t period then none else some (num.sum (slice (t - period) t rs) ⊘ num.of_ℕ period)

  unfoldable pub compute_adr : List F → List F → ℕ → Result (List (Option F))
  unfolding ranges adr_at
  compute_adr highs lows period =
      if ltb period 1
      then raised value_error
      else if not (length highs == length lows)
      then raised value_error
      else ok (tabulate_from (adr_at (ranges highs lows) period) 0 (length highs))
