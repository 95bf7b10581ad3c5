-- ===== src/Market/Validation.antt =====
-- src/cryptobot/market/validation.py. A problem's message is a constructor with the values it prints.
pub mod Eligible
use Prim.Native.Nat.{◌/◌, ◌%◌}
use cryptobot_v.Prelude.{
  ℕ, suc, ◌+◌, ◌-◌, Bool, Option, none, some, List, [], ◌∷◌, ◌++◌, ltb, ◌==◌, if◌then◌else◌,
  is_empty,
}
use cryptobot_v.Prelude.Text.{Text, text_eq}
use cryptobot_v.Prelude.Result.{Result, ok, raised, value_error}
use cryptobot_v.Market.Candle.{Candle, interval_ms}

pub data Problem : Type 0 where
  empty_series : Problem
  not_closed : ℕ → ℕ → Problem
  wrong_symbol : ℕ → Text → Text → Problem
  duplicate : ℕ → ℕ → Problem
  out_of_order : ℕ → ℕ → ℕ → Problem
  data_gap : ℕ → ℕ → ℕ → Option ℕ → Problem

module _ {F : Type 0} where
  -- The first loop, from `index` on.
  unfoldable pub candle_problems : Text → ℕ → List (Candle F) → List Problem
  candle_problems symbol index [] = []
  candle_problems symbol index (c ∷ cs) =
      (if c.is_closed then [] else not_closed index c.open_time ∷ [])
      ++ ((if text_eq c.symbol symbol then [] else wrong_symbol index c.symbol symbol ∷ [])
          ++ candle_problems symbol (index + 1) cs)

  -- The body of the second loop. Behind the first two tests the difference is positive.
  unfoldable pub step_problem : ℕ → Candle F → Candle F → List Problem
  step_problem index prev curr =
      let delta = curr.open_time - prev.open_time in
      if curr.open_time == prev.open_time
      then duplicate index curr.open_time ∷ []
      else if ltb curr.open_time prev.open_time
      then out_of_order index prev.open_time curr.open_time ∷ []
      else if delta == interval_ms
      then []
      else data_gap index prev.open_time curr.open_time
          (if delta % interval_ms == 0 then some (delta / interval_ms - 1) else none)
        ∷ []

  -- The second loop, from `index` on; `prev` stands before the list.
  unfoldable pub step_problems : ℕ → Candle F → List (Candle F) → List Problem
  unfolding step_problem
  step_problems index prev [] = []
  step_problems index prev (c ∷ cs) = step_problem index prev c ++ step_problems (index + 1) c cs

  unfoldable pub validate_series : List (Candle F) → List Problem
  unfolding candle_problems step_problems
  validate_series [] = empty_series ∷ []
  validate_series (c ∷ cs) = candle_problems c.symbol 0 (c ∷ cs) ++ step_problems 1 c cs

  unfoldable pub is_valid_series : List (Candle F) → Bool
  unfolding validate_series
  is_valid_series candles = is_empty (validate_series candles)

  -- `raise CandleSeriesError`, a subclass of `ValueError`
  unfoldable pub ensure_valid_series : List (Candle F) → Result (Unit {0})
  unfolding validate_series
  ensure_valid_series candles =
      if is_empty (validate_series candles) then ok tt else raised value_error
