-- ===== src/Indicators/Rsi.antt =====
-- src/cryptobot/indicators/rsi.py
pub mod Reference
use cryptobot_v.Prelude.{
  ℕ, ◌+◌, ◌-◌, Option, none, some, List, [], ◌∷◌, ◌++◌, ltb, if◌then◌else◌, length, drop, replicate,
  slice, from_second,
}
use cryptobot_v.Prelude.Result.{Result, ok, raised, value_error}
use cryptobot_v.Number.{Num, ◌⊕◌, ◌⊖◌, ◌⊗◌, ◌⊘◌, ◌≺◌, ◌≈◌, nought}

module _ {F : Type 0} ⦃num : Num F⦄ where
  open num use {of_ℕ, neg, sum}

  unfoldable pub rsi_from_averages : F → F → F
  rsi_from_averages avg_gain avg_loss =
      if (avg_gain ⊕ avg_loss) ≈ nought
      then of_ℕ 50
      else if avg_loss ≈ nought
      then of_ℕ 100
      else if avg_gain ≈ nought
      then of_ℕ 0
      else of_ℕ 100 ⊗ avg_gain ⊘ (avg_gain ⊕ avg_loss)

  -- `gains[i]` and `losses[i]` from the opens before and at i
  unfoldable pub gain : F → F → F
  gain prev curr = let change = curr ⊖ prev in if nought ≺ change then change else nought

  unfoldable pub loss : F → F → F
  loss prev curr =
      let change = curr ⊖ prev in
      if nought ≺ change then nought else if change ≺ nought then neg change else nought

  abbrev pub gains : List F → List F
  gains = from_second gain nought

  abbrev pub losses : List F → List F
  losses = from_second loss nought

  -- Wilder smoothing of one average by the next value
  unfoldable pub wilder : ℕ → F → F → F
  wilder period avg x = (avg ⊗ of_ℕ (period - 1) ⊕ x) ⊘ of_ℕ period

  -- The loop over the gains and losses from index `period + 1` on.
  unfoldable pub smooth_rsi : ℕ → F → F → List F → List F → List (Option F)
  unfolding wilder rsi_from_averages
  smooth_rsi period avg_gain avg_loss (g ∷ gs) (l ∷ ls) =
      let avg_gain' = wilder period avg_gain g in
      let avg_loss' = wilder period avg_loss l in
      some (rsi_from_averages avg_gain' avg_loss') ∷ smooth_rsi period avg_gain' avg_loss' gs ls
  smooth_rsi period avg_gain avg_loss _ _ = []

  unfoldable pub first_average : ℕ → List F → F
  first_average period xs = sum (slice 1 (period + 1) xs) ⊘ of_ℕ period

  unfoldable pub compute_rsi : List F → ℕ → Result (List (Option F))
  unfolding smooth_rsi first_average gain loss
  compute_rsi opens period =
      let n = length opens in
      let avg_gain = first_average period (gains opens) in
      let avg_loss = first_average period (losses opens) in
      if ltb period 1
      then raised value_error
      else if ltb n (period + 1)
      then ok (replicate n none)
      else ok (
          replicate period none
          ++ (some (rsi_from_averages avg_gain avg_loss)
              ∷ smooth_rsi period avg_gain avg_loss (drop (period + 1) (gains opens))
                  (drop (period + 1) (losses opens))))
