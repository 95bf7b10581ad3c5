-- ===== src/Strategy/Indicators/Ready.antt =====
-- How many candles the indicators need: `min_candles_for_signal` is enough.
use cryptobot_v.Prelude.{
  ℕ, ◌+◌, ◌-◌, ◌*◌, ◌≤◌, ◌<◌, ◌≡◌, sym, ap, ◌∙◌, false, Option, some, List, arith, length,
  get_elem?, slice, length-slice, get_elem?-slice, length-map,
}
use cryptobot_v.Prelude.Result.{ok}
use cryptobot_v.Number.{Num, ◌≈◌, nought}
use cryptobot_v.Market.Candle.{Candle}
use cryptobot_v.Indicators.RsiVwma.Window.{all_defined-some}
use cryptobot_v.Indicators.Adx.{bars}
use cryptobot_v.Indicators.Adx.Smoothing.{length-bars}
use cryptobot_v.Indicators.Adx.Reference.{flat_at}
use cryptobot_v.Strategy.Parameters.{CoinStrategyParameters, min_candles_for_signal}
use cryptobot_v.Strategy.Indicators.{IndicatorSeries, compute_indicators}
use cryptobot_v.Strategy.Indicators.Total.{
  HasPeriods, IsBundle, highs, lows, closes, volumes, compute_indicators-IsBundle,
}

-- A value at index i.
abbrev pub Defined : {F : Type 0} → List (Option F) → ℕ → Type 0
Defined {F} xs i = (x : F) × (get_elem? xs i ≡ some (some x))

module _ {F D : Type 0} ⦃f : Num F⦄ (cs : List (Candle F)) (p : CoinStrategyParameters F D) where
  -- No window that ADX is computed from is flat, and each window of RSI-VWMA has volume.
  pub record IsLively : Type 0 where
    pub moving :
        (j : ℕ)
        → p.adx_period + j < length cs
        → flat_at (bars (highs cs) (lows cs) (closes cs)) p.adx_period j ≡ false
    pub traded :
        (t : ℕ)
        → t < length cs
        → p.rsi_ma_period ≤ t + 1
        → f.sum (slice (t + 1 - p.rsi_ma_period) (t + 1) (volumes cs)) ≈ nought ≡ false

  module _ (s : IndicatorSeries F) (h : HasPeriods p) (b : IsBundle cs p s) where
    rsi-Defined : (i : ℕ) → i < length cs → p.rsi_period ≤ i → Defined s.rsi i
    rsi-Defined i lt late =
        let (x, e, _) =
          b.is_rsi.defined (i - p.rsi_period)
            (omega (arith, length-map cs (λ (c : Candle F). c.open_price))) in
        (x, ap (get_elem? s.rsi) (omega arith) ∙ e)

    adr-Defined : (i : ℕ) → i < length cs → p.adr_period ≤ i → Defined s.adr i
    adr-Defined i lt late =
        (_, b.is_adr.defined i (omega (arith, length-map cs (λ (c : Candle F). c.high))) late)

    adx-Defined : IsLively → (i : ℕ) → i < length cs → 2 * p.adx_period ≤ i + 1 → Defined s.adx i
    adx-Defined live i lt late =
        let k = i + 1 - 2 * p.adx_period in
        let size : length (bars (highs cs) (lows cs) (closes cs)) ≡ length cs =
          length-bars (highs cs) (lows cs) (closes cs)
            (length-map cs (λ (c : Candle F). c.high)
              ∙ sym (length-map cs (λ (c : Candle F). c.low)))
            (length-map cs (λ (c : Candle F). c.low)
              ∙ sym (length-map cs (λ (c : Candle F). c.close)))
          ∙ length-map cs (λ (c : Candle F). c.high) in
        let e =
          b.is_adx.adx_defined k (omega (arith, size, h.adx_pos))
            (λ j jlt. live.moving j (omega (arith, h.adx_pos))) in
        (_, ap (get_elem? s.adx) (omega (arith, h.adx_pos)) ∙ e)

    vwma-Defined :
        IsLively
        → (t : ℕ) → t < length cs
        → p.rsi_period + p.rsi_ma_period ≤ t + 1
        → Defined s.rsi_vwma t
    vwma-Defined live t lt late =
        let start = t + 1 - p.rsi_ma_period in
        let (rs, all) = all_defined-some (slice start (t + 1) s.rsi) entry in
        (
          _,
          b.is_vwma.average t rs (omega (arith, b.is_aligned.rsi_length)) (omega arith) all
              (live.traded t lt (omega arith)),
        )
      where
        entry :
            (j : ℕ)
            → j < length (slice (t + 1 - p.rsi_ma_period) (t + 1) s.rsi)
            → (x : F) × (get_elem? (slice (t + 1 - p.rsi_ma_period) (t + 1) s.rsi) j
                ≡ some (some x))
        entry j jlt =
            let start = t + 1 - p.rsi_ma_period in
            let near : j < t + 1 - start =
              omega (arith, length-slice start (t + 1) s.rsi, h.rsi_ma_pos) in
            let (x, e) = rsi-Defined (start + j) (omega arith) (omega arith) in
            (x, get_elem?-slice start (t + 1) j s.rsi near ∙ e)

  -- With `min_candles_for_signal` candles, none of whose windows is flat or without volume, every
  -- indicator that the entry rule reads is defined: all four at the last candle, and RSI, RSI-VWMA and
  -- ADR at the one before it.
  pub min_candles-Defined :
      HasPeriods p
      → IsLively
      → min_candles_for_signal p ≤ length cs
      → let t = length cs - 1 in
        (s : IndicatorSeries F) × (compute_indicators cs p ≡ ok s)
        × Defined s.rsi t
        × Defined s.rsi_vwma t
        × Defined s.adx t
        × Defined s.adr t
        × Defined s.rsi (t - 1)
        × Defined s.rsi_vwma (t - 1)
        × Defined s.adr (t - 1)
  unfolding min_candles_for_signal
  min_candles-Defined h live enough =
      let t = length cs - 1 in
      let (s, e, b) = compute_indicators-IsBundle cs p h in
      (
        s,
        e,
        rsi-Defined s h b t (omega arith) (omega arith),
        vwma-Defined s h b live t (omega arith) (omega arith),
        adx-Defined s h b live t (omega arith) (omega arith),
        adr-Defined s h b t (omega arith) (omega arith),
        rsi-Defined s h b (t - 1) (omega arith) (omega arith),
        vwma-Defined s h b live (t - 1) (omega arith) (omega arith),
        adr-Defined s h b (t - 1) (omega arith) (omega arith),
      )
