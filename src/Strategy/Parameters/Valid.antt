-- ===== src/Strategy/Parameters/Valid.antt =====
-- Which parameters are accepted.
use cryptobot_v.Prelude.{◌≤◌, ◌≡◌, ◌↔◌, true, false, arith, ltb-false}
use cryptobot_v.Prelude.Result.{ok}
use cryptobot_v.Number.{Num, ◌≺◌, ◌≼◌}
use cryptobot_v.Strategy.Parameters.{CoinStrategyParameters, make_parameters}
use cryptobot_v.Strategy.Indicators.Total.{HasPeriods}

module _ {F D : Type 0} ⦃f : Num F⦄ ⦃d : Num D⦄ where
  -- Positive periods and slot count, thresholds on RSI from 0 to 100, a band of ADX that is not inverted
  -- and starts at 0 or above, a profit percentage that is not negative and a limit above 0.
  pub record IsValid (p : CoinStrategyParameters F D) : Type 0 where
    pub periods : HasPeriods p
    pub slots : 1 ≤ p.slot_count
    pub oversold_low : f.of_ℕ 0 ≼ p.rsi_oversold ≡ true
    pub oversold_high : p.rsi_oversold ≼ f.of_ℕ 100 ≡ true
    pub overbought_low : f.of_ℕ 0 ≼ p.rsi_overbought ≡ true
    pub overbought_high : p.rsi_overbought ≼ f.of_ℕ 100 ≡ true
    pub band : p.adx_high ≺ p.adx_low ≡ false
    pub band_start : p.adx_low ≺ f.of_ℕ 0 ≡ false
    pub profit : p.min_net_profit_pct ≺ d.of_ℕ 0 ≡ false
    pub limit : p.capital_limit_usdt ≼ d.of_ℕ 0 ≡ false

  pub make_parameters-IsValid :
      (p q : CoinStrategyParameters F D) → make_parameters p ≡ ok q → (q ≡ p) × IsValid p
  unfolding make_parameters
  make_parameters-IsValid p q e = (
    ground arith,
    record {
      periods = record {
        rsi_pos = ground arith;
        rsi_ma_pos = ground arith;
        adx_pos = ground arith;
        adr_pos = ground arith;
      };
      slots = ground arith;
      oversold_low = ground arith;
      oversold_high = ground arith;
      overbought_low = ground arith;
      overbought_high = ground arith;
      band = ground arith;
      band_start = ground arith;
      profit = ground arith;
      limit = ground arith;
    },
  )

  IsValid-make_parameters : (p : CoinStrategyParameters F D) → IsValid p → make_parameters p ≡ ok p
  unfolding make_parameters
  IsValid-make_parameters p v =
      let h = v.periods in
      rw (
        ltb-false p.rsi_period 1 h.rsi_pos,
        ltb-false p.rsi_ma_period 1 h.rsi_ma_pos,
        ltb-false p.adx_period 1 h.adx_pos,
        ltb-false p.adr_period 1 h.adr_pos,
        ltb-false p.slot_count 1 v.slots,
        v.oversold_low,
        v.oversold_high,
        v.overbought_low,
        v.overbought_high,
        v.band,
        v.band_start,
        v.profit,
        v.limit,
      )

  -- Parameters are accepted as they are exactly when they are valid.
  pub make_parameters_iff :
      (p : CoinStrategyParameters F D) → (make_parameters p ≡ ok p) ↔ IsValid p
  make_parameters_iff p = (λ e. (make_parameters-IsValid p p e).1, IsValid-make_parameters p)
