-- ===== src/Examples/Market.antt =====
-- Market data and indicators.
use cryptobot_v.Prelude.{
  ℕ, zero, suc, ◌+◌, ◌-◌, ◌*◌, ◌≤◌, ◌<◌, ◌≡◌, refl, ◌↔◌, Option, none, some, false, List, [], ◌∷◌,
  arith, slice,
}
use cryptobot_v.Prelude.Result.{ok}
use cryptobot_v.Prelude.Text.{text_eq}
use cryptobot_v.Number.{◌≈◌, nought}
use cryptobot_v.Number.Fixed.{ℤ, fixed, ◌+ℤ◌, ◌-ℤ◌, ◌*ℤ◌, ◌/ℤ◌, sum_ℤ}
use cryptobot_v.Market.Candle.{interval_ms}
use cryptobot_v.Market.Validation.{validate_series, candle_problems, step_problem, step_problems}
use cryptobot_v.Market.Validation.Eligible.{IsEligible, validate_series_iff, valid_open_time}
use cryptobot_v.Indicators.Rsi.{compute_rsi}
use cryptobot_v.Indicators.Rsi.Reference.{IsRsi, compute_rsi-IsRsi}
use cryptobot_v.Indicators.Adr.{compute_adr}
use cryptobot_v.Indicators.Adr.Window.{IsAdr, compute_adr-IsAdr}
use cryptobot_v.Indicators.Adx.{compute_adx, AdxResult, bars}
use cryptobot_v.Indicators.Adx.Textbook.{IsBars}
use cryptobot_v.Indicators.Adx.Reference.{flat_at, IsAdx, compute_adx-IsAdx}
use cryptobot_v.Strategy.Indicators.{IndicatorSeries, compute_indicators}
use cryptobot_v.Strategy.Indicators.Total.{
  highs, lows, closes, volumes, HasPeriods, IsBundle, compute_indicators-IsBundle,
}
use cryptobot_v.Strategy.Indicators.Ready.{IsLively, Defined, min_candles-Defined}
use cryptobot_v.Strategy.Parameters.{min_candles_for_signal}
use cryptobot_v.Examples.{num, minute, minutes, later_minutes, params, prices}

pub minutes-valid : validate_series minutes ≡ []
unfolding validate_series candle_problems step_problem step_problems text_eq
minutes-valid = refl

pub params-HasPeriods : HasPeriods params
params-HasPeriods = record {
  rsi_pos = omega arith;
  rsi_ma_pos = omega arith;
  adx_pos = omega arith;
  adr_pos = omega arith;
}

validate_series_iff_example : (validate_series minutes ≡ []) ↔ IsEligible minutes
validate_series_iff_example = validate_series_iff minutes

valid_open_time_example : (minute 3 70).open_time ≡ (minute 0 100).open_time + 3 * interval_ms
valid_open_time_example =
    valid_open_time (minute 0 100) later_minutes 3 (minute 3 70) minutes-valid refl

compute_rsi-IsRsi_example :
    (out : List (Option ℤ)) × (compute_rsi prices 2 ≡ ok out) × IsRsi prices 2 out
compute_rsi-IsRsi_example = compute_rsi-IsRsi prices 2 (omega arith)

abbrev some_rsi : List (Option ℤ)
some_rsi = none ∷ none ∷ some (num 0) ∷ some (num 0) ∷ some (num 33) ∷ []

compute_adr-IsAdr_example :
    (out : List (Option ℤ)) × (compute_adr prices prices 2 ≡ ok out) × IsAdr prices prices 2 out
compute_adr-IsAdr_example = compute_adr-IsAdr prices prices 2 (omega arith) refl

compute_adx-IsAdx_example :
    (r : AdxResult ℤ) × (compute_adx prices prices prices 2 ≡ ok r)
    × IsAdx (bars prices prices prices) 2 r
    × IsBars prices prices prices (bars prices prices prices)
compute_adx-IsAdx_example = compute_adx-IsAdx prices prices prices 2 (omega arith) refl refl

compute_indicators-IsBundle_example :
    (s : IndicatorSeries ℤ) × (compute_indicators minutes params ≡ ok s) × IsBundle minutes params s
compute_indicators-IsBundle_example = compute_indicators-IsBundle minutes params params-HasPeriods

minutes-IsLively : IsLively minutes params
unfolding bars ◌+ℤ◌ ◌-ℤ◌ ◌*ℤ◌ ◌/ℤ◌ sum_ℤ
minutes-IsLively = record { moving = moving; traded = traded }
  where
    moving :
        (j : ℕ)
        → 1 + j < 5
        → flat_at (bars (highs minutes) (lows minutes) (closes minutes)) 1 j ≡ false
    moving zero h = refl
    moving (suc zero) h = refl
    moving (suc (suc zero)) h = refl
    moving (suc (suc (suc zero))) h = refl
    moving (suc (suc (suc (suc j)))) h = absurd (omega arith)

    traded :
        (t : ℕ)
        → t < 5
        → 2 ≤ t + 1
        → fixed.sum (slice (t + 1 - 2) (t + 1) (volumes minutes)) ≈ nought ≡ false
    traded zero h k = absurd (omega arith)
    traded (suc zero) h k = refl
    traded (suc (suc zero)) h k = refl
    traded (suc (suc (suc zero))) h k = refl
    traded (suc (suc (suc (suc zero)))) h k = refl
    traded (suc (suc (suc (suc (suc t))))) h k = absurd (omega arith)

min_candles-Defined_example :
    (s : IndicatorSeries ℤ) × (compute_indicators minutes params ≡ ok s)
    × Defined s.rsi 4
    × Defined s.rsi_vwma 4
    × Defined s.adx 4
    × Defined s.adr 4
    × Defined s.rsi 3
    × Defined s.rsi_vwma 3
    × Defined s.adr 3
unfolding min_candles_for_signal
min_candles-Defined_example =
    min_candles-Defined minutes params params-HasPeriods minutes-IsLively (omega arith)
