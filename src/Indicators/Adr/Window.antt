-- ===== src/Indicators/Adr/Window.antt =====
-- When ADR is defined, and that the current candle is left out of its own average.
use cryptobot_v.Prelude.{
  ℕ, zero, suc, ◌-◌, ◌≤◌, ◌<◌, ◌≡◌, refl, ap, ◌∙◌, Option, none, some, List, [], ◌∷◌, arith,
  ltb-false, lt→ltb, length, get_elem?, take, drop, take-drop, length-tabulate_from,
  get_elem?-tabulate_from, tabulate_from, ==_iff,
}
use cryptobot_v.Prelude.Result.{ok}
use cryptobot_v.Number.{Num, ◌⊘◌}
use cryptobot_v.Indicators.Adr.{ranges, adr_at, compute_adr}

module _ {F : Type 0} ⦃num : Num F⦄ where
  ranges-take : (t : ℕ) (hs ls : List F) → take t (ranges hs ls) ≡ ranges (take t hs) (take t ls)
  unfolding ranges
  ranges-take zero hs ls = refl
  ranges-take (suc t) [] ls = refl
  ranges-take (suc t) (h ∷ hs) [] = refl
  ranges-take (suc t) (h ∷ hs) (l ∷ ls) = ap (◌∷◌ (num.sub h l)) (ranges-take t hs ls)

  -- The mean of the ranges of the `period` candles before index t.
  abbrev pub mean_before : List F → List F → ℕ → ℕ → F
  mean_before highs lows period t =
      num.sum (drop (t - period) (ranges (take t highs) (take t lows))) ⊘ num.of_ℕ period

  pub record IsAdr (highs lows : List F) (period : ℕ) (out : List (Option F)) : Type 0 where
    pub aligned : length out ≡ length highs
    pub undefined : (t : ℕ) → t < length highs → t < period → get_elem? out t ≡ some none
    pub defined :
        (t : ℕ)
        → t < length highs
        → period ≤ t
        → get_elem? out t ≡ some (some (mean_before highs lows period t))

  adr_at-mean_before :
      (hs ls : List F) (period t : ℕ)
      → period ≤ t
      → adr_at (ranges hs ls) period t ≡ some (mean_before hs ls period t)
  unfolding adr_at
  adr_at-mean_before hs ls period t h =
      rw (ltb-false t period h, ← ranges-take t hs ls, ← take-drop (t - period) t (ranges hs ls))
        refl

  -- For a period of at least 1 and as many lows as highs there is a result. Its entry at index t is
  -- undefined below `period`, and from there on the mean high-low range of the `period` candles
  -- before t, without the candle at t.
  pub compute_adr-IsAdr :
      (highs lows : List F) (period : ℕ)
      → 1 ≤ period
      → length highs ≡ length lows
      → (out : List (Option F)) × (compute_adr highs lows period ≡ ok out)
        × IsAdr highs lows period out
  unfolding compute_adr adr_at
  compute_adr-IsAdr highs lows period h same = (
    tabulate_from (adr_at (ranges highs lows) period) 0 (length highs),
    rw (ltb-false period 1 h, (==_iff _ _).1 same),
    record {
      aligned = length-tabulate_from (adr_at (ranges highs lows) period) 0 (length highs);
      undefined = λ t lt early. entry t lt none (rw (lt→ltb _ _ early));
      defined = λ t lt late. entry t lt _ (adr_at-mean_before highs lows period t late);
    },
  )
    where
      entry :
          (t : ℕ)
          → t < length highs
          → (r : Option F) → adr_at (ranges highs lows) period t ≡ r
          → get_elem? (tabulate_from (adr_at (ranges highs lows) period) 0 (length highs)) t
            ≡ some r
      entry t lt r e =
          get_elem?-tabulate_from (adr_at (ranges highs lows) period) 0 (length highs) t lt
          ∙ ap some (ap (adr_at (ranges highs lows) period) (omega arith) ∙ e)
