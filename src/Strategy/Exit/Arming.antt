-- ===== src/Strategy/Exit/Arming.antt =====
-- What `update_exit_arming` does to a position.
use cryptobot_v.Prelude.{
  ℕ, ◌-◌, ◌≡◌, refl, sym, subst, ap, ◌⊎◌, inl, inr, true, false, none, some, List, [], arith,
  length, get_elem?, ltb, Bool-cases, Option-cases, List-cases,
}
use cryptobot_v.Prelude.Result.{ok, Result-cases}
use cryptobot_v.Number.{Num, ◌≺◌}
use cryptobot_v.Market.Candle.{Candle}
use cryptobot_v.Market.Validation.{validate_series}
use cryptobot_v.Strategy.Indicators.{IndicatorSeries, compute_indicators, entry}
use cryptobot_v.Strategy.Position.{
  PositionState, opened, exit_armed, closed, StrategyPosition, arm_exit,
}
use cryptobot_v.Strategy.Exit.{arm_if_overbought, candle_at, arm_at, update_exit_arming}

module _ {F D : Type 0} ⦃f : Num F⦄ where
  -- The RSI of the last candle, by the snapshot's parameters, is above the snapshot's bound.
  pub record IsOverbought (p : StrategyPosition F D) (cs : List (Candle F)) (last : Candle F)
      : Type 0 where
    pub valid : validate_series cs ≡ []
    pub at_end : get_elem? cs (length cs - 1) ≡ some last
    pub series : IndicatorSeries F
    pub computed : compute_indicators cs p.snapshot ≡ ok series
    pub rsi : F
    pub rsi_at : entry series.rsi (length cs - 1) ≡ ok (some rsi)
    pub above : p.snapshot.rsi_overbought ≺ rsi ≡ true

  abbrev pub armed_at : StrategyPosition F D → ℕ → StrategyPosition F D
  armed_at p t = record p { state = exit_armed; exit_armed_candle_open_time = some t }

  -- Either nothing changes, or an open position is armed at an overbought last candle.
  pub data Evolves (p : StrategyPosition F D) (cs : List (Candle F)) (q : StrategyPosition F D)
      : Type 0 where
    same : q ≡ p → Evolves p cs q
    arms :
        (last : Candle F)
        → p.state ≡ opened
        → IsOverbought p cs last
        → q ≡ armed_at p last.open_time
        → Evolves p cs q

  arm_if_overbought-cases :
      (p : StrategyPosition F D) (rsi : F) (time : ℕ)
      → p.state ≡ opened
      → (arm_if_overbought rsi time p ≡ (ok false, p))
        ⊎ ((p.snapshot.rsi_overbought ≺ rsi ≡ true)
            × (arm_if_overbought rsi time p ≡ (ok true, armed_at p time)))
  unfolding arm_if_overbought arm_exit
  arm_if_overbought-cases p rsi time is_open = elim (Bool-cases (p.snapshot.rsi_overbought ≺ rsi)) [
    | inl over ↦ inr (over, ground arith)
    | inr under ↦ inl (ground arith)
  ]

  arm_at-Evolves :
      (p : StrategyPosition F D) (cs : List (Candle F))
      → p.state ≡ opened
      → validate_series cs ≡ []
      → Evolves p cs (arm_at cs p).1
  unfolding arm_at
  arm_at-Evolves p cs is_open valid = elim (Result-cases (compute_indicators cs p.snapshot)) [
    | inr (e, bad) ↦ same (rw (bad))
    | inl (s, good) ↦ elim (Result-cases (entry s.rsi (length cs - 1))) [
      | inr (e, bad) ↦ same (rw (good, bad))
      | inl (none, good') ↦ same (rw (good, good'))
      | inl (some rsi, good') ↦ elim (Option-cases (get_elem? cs (length cs - 1))) [
        | inl missing ↦ same (rw (good, good', candle_at, missing))
        | inr (c, found) ↦ elim (arm_if_overbought-cases p rsi c.open_time is_open) [
          | inl run ↦ same (rw (good, good', candle_at, found, run))
          | inr (above, run) ↦
              arms c is_open
                (record {
                  valid = valid;
                  at_end = found;
                  series = s;
                  computed = good;
                  rsi = rsi;
                  rsi_at = good';
                  above = above;
                })
                (rw (good, good', candle_at, found, run))
        ]
      ]
    ]
  ]

  -- Arming changes a position in one way only: an open one, whose series of candles is valid with
  -- an RSI above the bound at its last candle, is armed with that candle's time. On every other path,
  -- exceptions included, the position stays as it was: an armed or closed one for good.
  pub update_exit_arming-Evolves :
      (p : StrategyPosition F D) (cs : List (Candle F)) → Evolves p cs (update_exit_arming cs p).1
  unfolding update_exit_arming
  update_exit_arming-Evolves p cs = by_state p.state refl
    where
      by_state : (s : PositionState) → p.state ≡ s → Evolves p cs (update_exit_arming cs p).1
      by_state exit_armed e = same (rw e)
      by_state closed e = same (rw e)
      by_state opened e = elim (List-cases (validate_series cs)) [
        | inr (problem, rest, bad) ↦ same (rw (e, bad))
        | inl valid ↦ elim (Bool-cases (ltb (length cs) 1)) [
          | inl short ↦ same (rw (e, valid, short))
          | inr long ↦
              let run : update_exit_arming cs p ≡ arm_at cs p = rw (e, valid, long) in
              subst (λ r. Evolves p cs r.1) (sym run) (arm_at-Evolves p cs e valid)
        ]
      ]

  pub Evolves-fields :
      (p : StrategyPosition F D) (cs : List (Candle F)) (q : StrategyPosition F D)
      → Evolves p cs q
      → (q.entry ≡ p.entry) × (q.snapshot ≡ p.snapshot)
  Evolves-fields p cs q (same e) = (ap (λ x. x.entry) e, ap (λ x. x.snapshot) e)
  Evolves-fields p cs q (arms last is_open over e) = (ap (λ x. x.entry) e, ap (λ x. x.snapshot) e)
