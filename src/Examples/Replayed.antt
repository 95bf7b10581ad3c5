-- ===== src/Examples/Replayed.antt =====
-- A replayed market, and the parameters of the examples.
use cryptobot_v.Prelude.{◌≡◌, refl, ◌↔◌, none, List, ◌∷◌, []}
use cryptobot_v.Prelude.Result.{ok}
use cryptobot_v.Number.Fixed.{ℤ, fixed}
use cryptobot_v.Market.Candle.{Candle}
use cryptobot_v.Strategy.Parameters.{make_parameters}
use cryptobot_v.Strategy.Parameters.Valid.{IsValid, make_parameters_iff}
use cryptobot_v.Backtest.Replay.{ReplayMarketData, set_index, get_closed_candles, get_order_book}
use cryptobot_v.Backtest.Replay.Past.{replay_past_only}
use cryptobot_v.Examples.{num, btc_usdt, minute, minutes, params}

-- The same first three minutes, and then a rise in place of the fall.
abbrev rising : List (Candle ℤ)
rising = minute 0 100 ∷ minute 1 90 ∷ minute 2 80 ∷ minute 3 95 ∷ []

abbrev replay : List (Candle ℤ) → ReplayMarketData ℤ ℤ
replay series = record { symbol = btc_usdt; series = series; spread = num 0; index = none }

replay_past_only_example :
    (get_closed_candles (set_index 2 (replay minutes)) btc_usdt 2
      ≡ get_closed_candles (set_index 2 (replay rising)) btc_usdt 2)
    × (get_order_book (λ (x : ℤ). x) (set_index 2 (replay minutes)) btc_usdt
        ≡ get_order_book (λ (x : ℤ). x) (set_index 2 (replay rising)) btc_usdt)
replay_past_only_example = replay_past_only (λ x. x) (replay minutes) rising 2 btc_usdt 2 refl

make_parameters_iff_example : (make_parameters params ≡ ok params) ↔ IsValid params
make_parameters_iff_example = make_parameters_iff params
