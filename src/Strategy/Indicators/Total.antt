-- ===== src/Strategy/Indicators/Total.antt =====
-- The bundle of indicators never raises for valid periods, and all its series have one entry a candle.
use cryptobot_v.Prelude.{
  ℕ, ◌≤◌, ◌<◌, ◌≡◌, refl, sym, ◌∙◌, Option, some, List, arith, map, length, get_elem?, length-map,
  get_elem?-some,
}
use cryptobot_v.Prelude.Result.{ok}
use cryptobot_v.Number.{Num}
use cryptobot_v.Market.Candle.{Candle}
use cryptobot_v.Indicators.Rsi.Reference.{IsRsi, compute_rsi-IsRsi}
use cryptobot_v.Indicators.RsiVwma.Window.{IsVwma, compute_rsi_vwma-IsVwma}
use cryptobot_v.Indicators.Adr.Window.{IsAdr, compute_adr-IsAdr}
use cryptobot_v.Indicators.Adx.{bars}
use cryptobot_v.Indicators.Adx.Smoothing.{length-bars}
use cryptobot_v.Indicators.Adx.Reference.{IsAdx, compute_adx-IsAdx}
use cryptobot_v.Strategy.Parameters.{CoinStrategyParameters}
use cryptobot_v.Strategy.Indicators.{
  IndicatorSnapshot, IndicatorSeries, entry, at, compute_indicators,
}

module _ {F D : Type 0} where
  -- The periods that the constructor of the parameters lets through.
  pub record HasPeriods (p : CoinStrategyParameters F D) : Type 0 where
    pub rsi_pos : 1 ≤ p.rsi_period
    pub rsi_ma_pos : 1 ≤ p.rsi_ma_period
    pub adx_pos : 1 ≤ p.adx_period
    pub adr_pos : 1 ≤ p.adr_period

module _ {F : Type 0} where
  abbrev pub opens : List (Candle F) → List F
  opens = map λ c. c.open_price

  abbrev pub highs : List (Candle F) → List F
  highs = map λ c. c.high

  abbrev pub lows : List (Candle F) → List F
  lows = map λ c. c.low

  abbrev pub closes : List (Candle F) → List F
  closes = map λ c. c.close

  abbrev pub volumes : List (Candle F) → List F
  volumes = map λ c. c.volume

  -- The entry of a series at an index within its length.
  entry-some :
      (xs : List (Option F)) (i : ℕ)
      → i < length xs
      → (x : Option F) × (get_elem? xs i ≡ some x) × (entry xs i ≡ ok x)
  unfolding entry
  entry-some xs i h = let (x, e) = get_elem?-some xs i h in (x, e, rw (e, entry))

  -- A snapshot shows the entries of the six series at its index.
  pub record IsAt (s : IndicatorSeries F) (i : ℕ) (v : IndicatorSnapshot F) : Type 0 where
    pub index_eq : v.index ≡ i
    pub rsi_eq : get_elem? s.rsi i ≡ some v.rsi
    pub vwma_eq : get_elem? s.rsi_vwma i ≡ some v.rsi_vwma
    pub adx_eq : get_elem? s.adx i ≡ some v.adx
    pub adr_eq : get_elem? s.adr i ≡ some v.adr

  pub record IsAligned (s : IndicatorSeries F) (n : ℕ) : Type 0 where
    pub rsi_length : length s.rsi ≡ n
    pub vwma_length : length s.rsi_vwma ≡ n
    pub adx_length : length s.adx ≡ n
    pub plus_length : length s.plus_di ≡ n
    pub minus_length : length s.minus_di ≡ n
    pub adr_length : length s.adr ≡ n

  pub at_total :
      (s : IndicatorSeries F) (n i : ℕ)
      → IsAligned s n
      → i < n
      → (v : IndicatorSnapshot F) × (at s i ≡ ok v) × IsAt s i v
  unfolding at
  at_total s n i h lt =
      let (rsi, g1, e1) = entry-some s.rsi i (omega (arith, h.rsi_length)) in
      let (vwma, g2, e2) = entry-some s.rsi_vwma i (omega (arith, h.vwma_length)) in
      let (adx, g3, e3) = entry-some s.adx i (omega (arith, h.adx_length)) in
      let (plus, _, e4) = entry-some s.plus_di i (omega (arith, h.plus_length)) in
      let (minus, _, e5) = entry-some s.minus_di i (omega (arith, h.minus_length)) in
      let (adr, g6, e6) = entry-some s.adr i (omega (arith, h.adr_length)) in
      (
        record {
          index = i;
          rsi = rsi;
          rsi_vwma = vwma;
          adx = adx;
          plus_di = plus;
          minus_di = minus;
          adr = adr;
        },
        rw (e1, e2, e3, e4, e5, e6),
        record { index_eq = refl; rsi_eq = g1; vwma_eq = g2; adx_eq = g3; adr_eq = g6 },
      )

module _ {F D : Type 0} ⦃f : Num F⦄ where
  -- The six series are those of the four indicators, over the fields of the candles.
  pub record IsBundle (cs : List (Candle F)) (p : CoinStrategyParameters F D)
      (s : IndicatorSeries F) : Type 0 where
    pub is_rsi : IsRsi (opens cs) p.rsi_period s.rsi
    pub is_vwma : IsVwma s.rsi (volumes cs) p.rsi_ma_period s.rsi_vwma
    pub is_adx :
        IsAdx
          (bars (highs cs) (lows cs) (closes cs))
          p.adx_period
          (record { adx = s.adx; plus_di = s.plus_di; minus_di = s.minus_di })
    pub is_adr : IsAdr (highs cs) (lows cs) p.adr_period s.adr
    pub is_aligned : IsAligned s (length cs)

  -- With valid periods the computation of all indicators succeeds.
  pub compute_indicators-IsBundle :
      (cs : List (Candle F)) (p : CoinStrategyParameters F D)
      → HasPeriods p
      → (s : IndicatorSeries F) × (compute_indicators cs p ≡ ok s) × IsBundle cs p s
  unfolding compute_indicators
  compute_indicators-IsBundle cs p h =
      let size_h = length-map cs (λ (c : Candle F). c.high) in
      let size_l = length-map cs (λ (c : Candle F). c.low) in
      let size_c = length-map cs (λ (c : Candle F). c.close) in
      let size_v = length-map cs (λ (c : Candle F). c.volume) in
      let size_o = length-map cs (λ (c : Candle F). c.open_price) in
      let (rsi, e1, h1) = compute_rsi-IsRsi (opens cs) p.rsi_period h.rsi_pos in
      let (vwma, e2, h2) =
        compute_rsi_vwma-IsVwma rsi (volumes cs) p.rsi_ma_period h.rsi_ma_pos
          (h1.aligned ∙ size_o ∙ sym size_v) in
      let (adx, e3, h3, _) =
        compute_adx-IsAdx (highs cs) (lows cs) (closes cs) p.adx_period h.adx_pos
          (size_h ∙ sym size_l) (size_l ∙ sym size_c) in
      let (adr, e4, h4) =
        compute_adr-IsAdr (highs cs) (lows cs) p.adr_period h.adr_pos (size_h ∙ sym size_l) in
      let size_b =
        length-bars (highs cs) (lows cs) (closes cs) (size_h ∙ sym size_l) (size_l ∙ sym size_c) in
      (
        record {
          rsi = rsi;
          rsi_vwma = vwma;
          adx = adx.adx;
          plus_di = adx.plus_di;
          minus_di = adx.minus_di;
          adr = adr;
        },
        rw (e1, e2, e3, e4),
        record {
          is_rsi = h1;
          is_vwma = h2;
          is_adx = h3;
          is_adr = h4;
          is_aligned = record {
            rsi_length = h1.aligned ∙ size_o;
            vwma_length = h2.aligned ∙ h1.aligned ∙ size_o;
            adx_length = h3.adx_aligned ∙ size_b ∙ size_h;
            plus_length = h3.plus_aligned ∙ size_b ∙ size_h;
            minus_length = h3.minus_aligned ∙ size_b ∙ size_h;
            adr_length = h4.aligned ∙ size_h;
          };
        },
      )
