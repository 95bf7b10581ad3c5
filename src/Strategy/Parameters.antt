-- ===== src/Strategy/Parameters.antt =====
-- src/cryptobot/strategy/parameters.py. Periods and slot counts are naturals: the constructor refuses a
-- negative one by the same tests as 0.
pub mod Valid
use Prim.Native.Nat.{max}
use cryptobot_v.Prelude.{ℕ, ◌+◌, ◌-◌, ◌*◌, not, ◌&&◌, ltb}
use cryptobot_v.Prelude.Result.{Result, ok, value_error, raise_if, ◌>>◌}
use cryptobot_v.Number.{Num, ◌≺◌, ◌≼◌}

-- `F` is the type of floats and `D` that of decimals.
pub record CoinStrategyParameters (F D : Type 0) : Type 0 where
  pub rsi_oversold : F
  pub rsi_overbought : F
  pub adx_low : F
  pub adx_high : F
  pub min_net_profit_pct : D
  pub rsi_period : ℕ
  pub rsi_ma_period : ℕ
  pub adx_period : ℕ
  pub adr_period : ℕ
  pub capital_limit_usdt : D
  pub slot_count : ℕ

module _ {F D : Type 0} where
  -- the property `min_candles_for_signal`
  unfoldable pub min_candles_for_signal : CoinStrategyParameters F D → ℕ
  min_candles_for_signal p =
      let rsi_ready = p.rsi_period + 1 in
      let vwma_ready = rsi_ready + p.rsi_ma_period - 1 in
      let adx_ready = 2 * p.adx_period in
      let adr_ready = p.adr_period + 1 in max (max vwma_ready adx_ready) adr_ready + 1

module _ {F D : Type 0} ⦃f : Num F⦄ ⦃d : Num D⦄ where
  -- `CoinStrategyParameters(…)`: the dataclass constructor with its `__post_init__`
  unfoldable pub make_parameters : CoinStrategyParameters F D → Result (CoinStrategyParameters F D)
  make_parameters p = do
    raise_if (ltb p.rsi_period 1) value_error
    raise_if (ltb p.rsi_ma_period 1) value_error
    raise_if (ltb p.adx_period 1) value_error
    raise_if (ltb p.adr_period 1) value_error
    raise_if (ltb p.slot_count 1) value_error
    raise_if (not ((f.of_ℕ 0 ≼ p.rsi_oversold) && (p.rsi_oversold ≼ f.of_ℕ 100))) value_error
    raise_if (not ((f.of_ℕ 0 ≼ p.rsi_overbought) && (p.rsi_overbought ≼ f.of_ℕ 100))) value_error
    raise_if (p.adx_high ≺ p.adx_low) value_error
    raise_if (p.adx_low ≺ f.of_ℕ 0) value_error
    raise_if (p.min_net_profit_pct ≺ d.of_ℕ 0) value_error
    raise_if (p.capital_limit_usdt ≼ d.of_ℕ 0) value_error
    ok p
