-- ===== src/Strategy/Entry/Signal.antt =====
-- When the BUY signal is given.
use cryptobot_v.Prelude.{
  ℕ, ◌-◌, ◌≤◌, ◌≡◌, ap, ◌∙◌, ◌↔◌, ◌≢◌, is_some_value, inl, inr, true, none, some, List, [], arith,
  ltb, ltb→lt, ltb-false, ltb→ge, List-cases, subst, Bool-cases, is_some, length, get_elem?-some,
}
use cryptobot_v.Prelude.Result.{Error, ok, raised, Result-cases}
use cryptobot_v.Number.{Num, ◌≺◌, ◌≼◌}
use cryptobot_v.Market.Candle.{Candle}
use cryptobot_v.Market.Validation.{validate_series}
use cryptobot_v.Market.Validation.Eligible.{IsEligible, validate_series_iff}
use cryptobot_v.Strategy.Parameters.{CoinStrategyParameters}
use cryptobot_v.Strategy.Indicators.{
  IndicatorSnapshot, IndicatorSeries, compute_indicators, is_complete, at,
}
use cryptobot_v.Strategy.Indicators.Total.{HasPeriods, at_total, compute_indicators-IsBundle}
use cryptobot_v.Strategy.Entry.{
  EntryEvaluation, evaluate_entry_conditions, judge, evaluate_at, evaluate_entry_signal, no_signal,
  invalid_series, need_two_candles,
}

module _ {F D : Type 0} ⦃f : Num F⦄ where
  -- The five conditions on two snapshots, all of whose values are there.
  pub record Meets (current previous : IndicatorSnapshot F) (p : CoinStrategyParameters F D)
      : Type 0 where
    pub rsi : F
    pub vwma : F
    pub adx : F
    pub adr : F
    pub previous_rsi : F
    pub previous_vwma : F
    pub previous_adr : F
    pub rsi_eq : current.rsi ≡ some rsi
    pub vwma_eq : current.rsi_vwma ≡ some vwma
    pub adx_eq : current.adx ≡ some adx
    pub adr_eq : current.adr ≡ some adr
    pub previous_rsi_eq : previous.rsi ≡ some previous_rsi
    pub previous_vwma_eq : previous.rsi_vwma ≡ some previous_vwma
    pub previous_adr_eq : previous.adr ≡ some previous_adr
    pub oversold : rsi ≺ p.rsi_oversold ≡ true
    pub below_before : previous_rsi ≼ previous_vwma ≡ true
    pub above_now : vwma ≺ rsi ≡ true
    pub above_low : p.adx_low ≼ adx ≡ true
    pub below_high : adx ≼ p.adx_high ≡ true
    pub rising : previous_adr ≺ adr ≡ true

  module _ (current previous : IndicatorSnapshot F) (p : CoinStrategyParameters F D)
      (time : ℕ) where
    judge-ne-raised : (e : Error) → judge current previous p time ≢ raised e
    unfolding judge is_complete evaluate_entry_conditions
    judge-ne-raised e h = ground arith

    judge-is_some :
        (ev : EntryEvaluation F)
        → judge current previous p time ≡ ok ev
        → ev.signal ≡ true
        → (is_some current.rsi ≡ true)
          × (is_some current.rsi_vwma ≡ true)
          × (is_some current.adx ≡ true)
          × (is_some current.adr ≡ true)
          × (is_some previous.rsi ≡ true)
          × (is_some previous.rsi_vwma ≡ true)
          × (is_some previous.adr ≡ true)
    unfolding judge is_complete
    judge-is_some ev e h = ground arith

    judge-Meets :
        (ev : EntryEvaluation F)
        → judge current previous p time ≡ ok ev
        → ev.signal ≡ true
        → Meets current previous p
    unfolding judge is_complete evaluate_entry_conditions
    judge-Meets ev e h =
        let (a, b, c, d, a', b', d') = judge-is_some ev e h in
        let (rsi, e1) = is_some_value current.rsi a in
        let (vwma, e2) = is_some_value current.rsi_vwma b in
        let (adx, e3) = is_some_value current.adx c in
        let (adr, e4) = is_some_value current.adr d in
        let (rsi', e5) = is_some_value previous.rsi a' in
        let (vwma', e6) = is_some_value previous.rsi_vwma b' in
        let (adr', e7) = is_some_value previous.adr d' in
        record {
          rsi = rsi;
          vwma = vwma;
          adx = adx;
          adr = adr;
          previous_rsi = rsi';
          previous_vwma = vwma';
          previous_adr = adr';
          rsi_eq = e1;
          vwma_eq = e2;
          adx_eq = e3;
          adr_eq = e4;
          previous_rsi_eq = e5;
          previous_vwma_eq = e6;
          previous_adr_eq = e7;
          oversold = ground arith;
          below_before = ground arith;
          above_now = ground arith;
          above_low = ground arith;
          below_high = ground arith;
          rising = ground arith;
        }

    Meets-judge :
        (ev : EntryEvaluation F)
        → judge current previous p time ≡ ok ev
        → Meets current previous p
        → ev.signal ≡ true
    unfolding judge is_complete evaluate_entry_conditions
    Meets-judge ev e m = ground arith

  -- The entry rule on a series: it is eligible, has two candles at least, and the five conditions hold
  -- of the indicators at its last candle t and at t - 1.
  pub record EntryHolds (cs : List (Candle F)) (p : CoinStrategyParameters F D) : Type 0 where
    pub eligible : IsEligible cs
    pub enough : 2 ≤ length cs
    pub series : IndicatorSeries F
    pub current : IndicatorSnapshot F
    pub previous : IndicatorSnapshot F
    pub computed : compute_indicators cs p ≡ ok series
    pub current_at : at series (length cs - 1) ≡ ok current
    pub previous_at : at series (length cs - 1 - 1) ≡ ok previous
    pub meets : Meets current previous p

  Meets-eq :
      (cs : List (Candle F)) (p : CoinStrategyParameters F D) (s : IndicatorSeries F)
      (current previous : IndicatorSnapshot F)
      → compute_indicators cs p ≡ ok s
      → at s (length cs - 1) ≡ ok current
      → at s (length cs - 1 - 1) ≡ ok previous
      → EntryHolds cs p
      → Meets current previous p
  Meets-eq cs p s current previous e1 e2 e3 h =
      let same : h.series ≡ s = cc (h.computed) in
      let now : h.current ≡ current = cc (h.current_at, ap (λ x. at x (length cs - 1)) same) in
      let before : h.previous ≡ previous =
        cc (h.previous_at, ap (λ x. at x (length cs - 1 - 1)) same) in
      subst (λ v. Meets current v p) before (subst (λ v. Meets v h.previous p) now h.meets)

  evaluate_at-judge :
      (cs : List (Candle F)) (p : CoinStrategyParameters F D) (t time : ℕ) (s : IndicatorSeries F)
      (current previous : IndicatorSnapshot F)
      → compute_indicators cs p ≡ ok s
      → at s t ≡ ok current
      → at s (t - 1) ≡ ok previous
      → evaluate_at cs p t time ≡ judge current previous p time
  unfolding evaluate_at judge
  evaluate_at-judge cs p t time s current previous e1 e2 e3 = rw (e1, e2, e3)

  valid_signal_iff :
      (cs : List (Candle F)) (p : CoinStrategyParameters F D)
      → HasPeriods p
      → validate_series cs ≡ []
      → 2 ≤ length cs
      → (ev : EntryEvaluation F) × (evaluate_entry_signal cs p ≡ ok ev)
        × ((ev.signal ≡ true) ↔ EntryHolds cs p)
  unfolding evaluate_entry_signal
  valid_signal_iff cs p h valid enough =
      let t = length cs - 1 in
      let (c, at_t) = get_elem?-some cs t (omega arith) in
      let (s, e1, b) = compute_indicators-IsBundle cs p h in
      let (current, e2, _) = at_total s (length cs) t b.is_aligned (omega arith) in
      let (previous, e3, _) = at_total s (length cs) (t - 1) b.is_aligned (omega arith) in
      let run = evaluate_at-judge cs p t c.open_time s current previous e1 e2 e3 in
      elim (Result-cases (judge current previous p c.open_time)) [
        | inr (e, bad) ↦ absurd (judge-ne-raised current previous p c.open_time e bad)
        | inl (ev, good) ↦ (
          ev,
          rw (valid, ltb-false (length cs) 2 enough, at_t, evaluate_entry_signal) (run ∙ good),
          (
            λ yes_signal. record {
              eligible = (validate_series_iff cs).0 valid;
              enough = enough;
              series = s;
              current = current;
              previous = previous;
              computed = e1;
              current_at = e2;
              previous_at = e3;
              meets = judge-Meets current previous p c.open_time ev good yes_signal;
            },
            λ holds.
                Meets-judge current previous p c.open_time ev good
                  (Meets-eq cs p s current previous e1 e2 e3 holds),
          ),
        )
      ]

  -- For valid periods the evaluation never raises, and gives the signal exactly when the entry rule
  -- holds.
  pub evaluate_entry_signal_iff :
      (cs : List (Candle F)) (p : CoinStrategyParameters F D)
      → HasPeriods p
      → (ev : EntryEvaluation F) × (evaluate_entry_signal cs p ≡ ok ev)
        × ((ev.signal ≡ true) ↔ EntryHolds cs p)
  unfolding evaluate_entry_signal
  evaluate_entry_signal_iff cs p h = elim (List-cases (validate_series cs)) [
    | inr (problem, rest, e) ↦ (
      no_signal (invalid_series problem) none,
      rw (e, evaluate_entry_signal),
      (
        λ signal. unfold no_signal in cc,
        λ (holds : EntryHolds cs p). cc ((validate_series_iff cs).1 holds.eligible),
      ),
    )
    | inl valid ↦ elim (Bool-cases (ltb (length cs) 2)) [
      | inl short ↦ (
        no_signal need_two_candles none,
        rw (valid, short, evaluate_entry_signal),
        (
          λ signal. unfold no_signal in cc,
          λ (holds : EntryHolds cs p). absurd (omega (arith, holds.enough, ltb→lt _ _ short)),
        ),
      )
      | inr long ↦ valid_signal_iff cs p h valid (ltb→ge _ _ long)
    ]
  ]
