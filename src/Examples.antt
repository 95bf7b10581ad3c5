-- ===== src/Examples.antt =====
-- Concrete data, over the decimals of Number/Fixed.antt: a falling market that turns at its last candle.
pub mod Market
pub mod Trading
pub mod Service
pub mod Orders
pub mod Replayed
pub mod Decoding
pub mod Feed
pub mod Following
pub mod Files
pub mod Withdrawing
use cryptobot_v.Prelude.{ℕ, ◌+◌, ◌*◌, true, List, [], ◌∷◌}
use cryptobot_v.Prelude.Text.{Text, codes}
use cryptobot_v.Number.Fixed.{ℤ, pos, unit}
use cryptobot_v.Market.Candle.{Candle, interval_ms}
use cryptobot_v.Strategy.Parameters.{CoinStrategyParameters}

-- a whole number as a decimal
abbrev pub num : ℕ → ℤ
num n = pos (n * unit)

abbrev pub btc_usdt : Text
btc_usdt = codes "BTCUSDT"

-- The candle of the given minute; its range grows with the minute.
abbrev pub minute : ℕ → ℕ → Candle ℤ
minute i price = record {
  symbol = btc_usdt;
  open_time = i * interval_ms;
  open_price = num price;
  high = num (price + i + 1);
  low = num price;
  close = num price;
  volume = num 1;
  is_closed = true;
}

abbrev pub later_minutes : List (Candle ℤ)
later_minutes = minute 1 90 ∷ minute 2 80 ∷ minute 3 70 ∷ minute 4 75 ∷ []

abbrev pub minutes : List (Candle ℤ)
minutes = minute 0 100 ∷ later_minutes

abbrev pub params : CoinStrategyParameters ℤ ℤ
params = record {
  rsi_oversold = num 40;
  rsi_overbought = num 60;
  adx_low = num 0;
  adx_high = num 100;
  min_net_profit_pct = num 1;
  rsi_period = 2;
  rsi_ma_period = 2;
  adx_period = 1;
  adr_period = 1;
  capital_limit_usdt = num 100;
  slot_count = 1;
}

abbrev pub prices : List ℤ
prices = num 100 ∷ num 90 ∷ num 80 ∷ num 70 ∷ num 75 ∷ []
