-- ===== src/Market/Candle.antt =====
-- src/cryptobot/market/candle.py. Times are epoch milliseconds, which are not negative.
use cryptobot_v.Prelude.{ℕ, Bool}
use cryptobot_v.Prelude.Text.{Text}
use cryptobot_v.Prelude.Result.{Result, ok, value_error, raise_if, ◌>>◌}
use cryptobot_v.Number.{Num, ◌⊖◌, ◌≺◌, nought}

abbrev pub interval_ms : ℕ
interval_ms = 60_000

pub record Candle (F : Type 0) : Type 0 where
  pub symbol : Text
  pub open_time : ℕ
  pub open_price : F
  pub high : F
  pub low : F
  pub close : F
  pub volume : F
  pub is_closed : Bool

module _ {F : Type 0} ⦃num : Num F⦄ where
  -- `Candle(…)`: the dataclass constructor with its `__post_init__`
  unfoldable pub make_candle : Candle F → Result (Candle F)
  make_candle c = do
    raise_if (c.high ≺ c.low) value_error
    raise_if (c.volume ≺ nought) value_error
    ok c

  -- the property `Candle.range`
  unfoldable pub range : Candle F → F
  range c = c.high ⊖ c.low
