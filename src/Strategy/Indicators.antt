-- ===== src/Strategy/Indicators.antt =====
-- src/cryptobot/strategy/indicators.py
pub mod Total
pub mod Ready
use cryptobot_v.Prelude.{ℕ, Bool, ◌&&◌, Option, none, some, List, map, is_some, length, get_elem?}
use cryptobot_v.Prelude.Result.{Result, ok, raised, index_error, ◌>>=◌}
use cryptobot_v.Number.{Num}
use cryptobot_v.Market.Candle.{Candle}
use cryptobot_v.Indicators.Rsi.{compute_rsi}
use cryptobot_v.Indicators.RsiVwma.{compute_rsi_vwma}
use cryptobot_v.Indicators.Adr.{compute_adr}
use cryptobot_v.Indicators.Adx.{compute_adx}
use cryptobot_v.Strategy.Parameters.{CoinStrategyParameters}

pub record IndicatorSnapshot (F : Type 0) : Type 0 where
  pub index : ℕ
  pub rsi : Option F
  pub rsi_vwma : Option F
  pub adx : Option F
  pub plus_di : Option F
  pub minus_di : Option F
  pub adr : Option F

pub record IndicatorSeries (F : Type 0) : Type 0 where
  pub rsi : List (Option F)
  pub rsi_vwma : List (Option F)
  pub adx : List (Option F)
  pub plus_di : List (Option F)
  pub minus_di : List (Option F)
  pub adr : List (Option F)

module _ {F : Type 0} where
  unfoldable pub is_complete : IndicatorSnapshot F → Bool
  is_complete s = is_some s.rsi && (is_some s.rsi_vwma && (is_some s.adx && is_some s.adr))

  -- `xs[index]`
  unfoldable pub entry : List (Option F) → ℕ → Result (Option F)
  entry xs index = elim (get_elem? xs index) [ none ↦ raised index_error | some x ↦ ok x ]

  -- `IndicatorSeries.at`
  unfoldable pub at : IndicatorSeries F → ℕ → Result (IndicatorSnapshot F)
  unfolding entry
  at s index = do
    rsi ← entry s.rsi index
    rsi_vwma ← entry s.rsi_vwma index
    adx ← entry s.adx index
    plus_di ← entry s.plus_di index
    minus_di ← entry s.minus_di index
    adr ← entry s.adr index
    ok (record {
      index = index;
      rsi = rsi;
      rsi_vwma = rsi_vwma;
      adx = adx;
      plus_di = plus_di;
      minus_di = minus_di;
      adr = adr;
    })

module _ {F D : Type 0} ⦃f : Num F⦄ where
  unfoldable pub compute_indicators :
      List (Candle F) → CoinStrategyParameters F D → Result (IndicatorSeries F)
  compute_indicators candles params = do
    let opens = map (λ (c : Candle F). c.open_price) candles
    let highs = map (λ (c : Candle F). c.high) candles
    let lows = map (λ (c : Candle F). c.low) candles
    let closes = map (λ (c : Candle F). c.close) candles
    let volumes = map (λ (c : Candle F). c.volume) candles
    rsi ← compute_rsi opens params.rsi_period
    rsi_vwma ← compute_rsi_vwma rsi volumes params.rsi_ma_period
    adx_result ← compute_adx highs lows closes params.adx_period
    adr ← compute_adr highs lows params.adr_period
    ok (record {
      rsi = rsi;
      rsi_vwma = rsi_vwma;
      adx = adx_result.adx;
      plus_di = adx_result.plus_di;
      minus_di = adx_result.minus_di;
      adr = adr;
    })
