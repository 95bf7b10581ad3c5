-- ===== src/Execution/Gates/Laws.antt =====
-- The gates as a whole, and the guard as a set.
use cryptobot_v.Prelude.{
  ℕ, suc, ◌≡◌, refl, sym, ◌∙◌, ◌↔◌, inl, inr, Bool, true, false, not, ◌&&◌, ◌||◌, List, [], ◌∷◌,
  arith, ◌==◌, ==_iff, Bool-cases, if◌then◌else◌,
}
use cryptobot_v.Prelude.Text.{Text, text_eq, text_eq_iff}
use cryptobot_v.Execution.Gates.{
  OperationalGates, Gate, runtime_running, trading_enabled, coin_active, coin_not_pending_delete,
  market_data_fresh, candles_contiguous, indicators_ready, not_already_processed, slot_available,
  capital_available, usdt_balance_sufficient, symbol_filters_ok, worker_holds_lease,
  reconciliation_clean, system_safe, gate_fields, all_true, closed_names, all_open, blocked_reasons,
  ProcessedCandleGuard, seen_in, already_processed, mark_processed, guard_length,
}

closed_names_iff : (gs : List (Gate × Bool)) → (all_true gs ≡ true) ↔ (closed_names gs ≡ [])
unfolding all_true closed_names
closed_names_iff [] = (λ _. refl, λ _. refl)
closed_names_iff ((g, b) ∷ gs) = ground (arith, closed_names_iff gs)

-- The value of the gate of a name.
abbrev pub is_open : OperationalGates → Gate → Bool
is_open g runtime_running = g.runtime_running
is_open g trading_enabled = g.trading_enabled
is_open g coin_active = g.coin_active
is_open g coin_not_pending_delete = g.coin_not_pending_delete
is_open g market_data_fresh = g.market_data_fresh
is_open g candles_contiguous = g.candles_contiguous
is_open g indicators_ready = g.indicators_ready
is_open g not_already_processed = g.not_already_processed
is_open g slot_available = g.slot_available
is_open g capital_available = g.capital_available
is_open g usdt_balance_sufficient = g.usdt_balance_sufficient
is_open g symbol_filters_ok = g.symbol_filters_ok
is_open g worker_holds_lease = g.worker_holds_lease
is_open g reconciliation_clean = g.reconciliation_clean
is_open g system_safe = g.system_safe

-- each gate, by its place
abbrev place : Gate → ℕ
place n = elim n [
  | runtime_running ↦ 0
  | trading_enabled ↦ 1
  | coin_active ↦ 2
  | coin_not_pending_delete ↦ 3
  | market_data_fresh ↦ 4
  | candles_contiguous ↦ 5
  | indicators_ready ↦ 6
  | not_already_processed ↦ 7
  | slot_available ↦ 8
  | capital_available ↦ 9
  | usdt_balance_sufficient ↦ 10
  | symbol_filters_ok ↦ 11
  | worker_holds_lease ↦ 12
  | reconciliation_clean ↦ 13
  | system_safe ↦ 14
]

-- Whether a gate is among some.
abbrev pub is_among : Gate → List Gate → Bool
is_among n [] = false
is_among n (m ∷ ms) = (place n == place m) || is_among n ms

closed_among : Gate → List (Gate × Bool) → Bool
closed_among n [] = false
closed_among n ((m, b) ∷ gs) = ((place n == place m) && not b) || closed_among n gs

is_among-closed_names :
    (n : Gate) (gs : List (Gate × Bool)) → is_among n (closed_names gs) ≡ closed_among n gs
unfolding closed_names closed_among
is_among-closed_names n [] = refl
is_among-closed_names n ((m, true) ∷ gs) = ground (arith, is_among-closed_names n gs)
is_among-closed_names n ((m, false) ∷ gs) = ground (arith, is_among-closed_names n gs)

closed_among-gate_fields :
    (g : OperationalGates) (n : Gate) → closed_among n (gate_fields g) ≡ not (is_open g n)
unfolding closed_among gate_fields
closed_among-gate_fields g runtime_running = ground arith
closed_among-gate_fields g trading_enabled = ground arith
closed_among-gate_fields g coin_active = ground arith
closed_among-gate_fields g coin_not_pending_delete = ground arith
closed_among-gate_fields g market_data_fresh = ground arith
closed_among-gate_fields g candles_contiguous = ground arith
closed_among-gate_fields g indicators_ready = ground arith
closed_among-gate_fields g not_already_processed = ground arith
closed_among-gate_fields g slot_available = ground arith
closed_among-gate_fields g capital_available = ground arith
closed_among-gate_fields g usdt_balance_sufficient = ground arith
closed_among-gate_fields g symbol_filters_ok = ground arith
closed_among-gate_fields g worker_holds_lease = ground arith
closed_among-gate_fields g reconciliation_clean = ground arith
closed_among-gate_fields g system_safe = ground arith

all_true_iff :
    (g : OperationalGates) → (all_true (gate_fields g) ≡ true) ↔ ((n : Gate) → is_open g n ≡ true)
unfolding all_true gate_fields
all_true_iff g = (
  λ e n. each e n,
  λ h.
      rw
        (
          h runtime_running,
          h trading_enabled,
          h coin_active,
          h coin_not_pending_delete,
          h market_data_fresh,
          h candles_contiguous,
          h indicators_ready,
          h not_already_processed,
          h slot_available,
          h capital_available,
          h usdt_balance_sufficient,
          h symbol_filters_ok,
          h worker_holds_lease,
          h reconciliation_clean,
          h system_safe,
        )
        refl,
)
  where
    each : all_true (gate_fields g) ≡ true → (n : Gate) → is_open g n ≡ true
    each e runtime_running = ground arith
    each e trading_enabled = ground arith
    each e coin_active = ground arith
    each e coin_not_pending_delete = ground arith
    each e market_data_fresh = ground arith
    each e candles_contiguous = ground arith
    each e indicators_ready = ground arith
    each e not_already_processed = ground arith
    each e slot_available = ground arith
    each e capital_available = ground arith
    each e usdt_balance_sufficient = ground arith
    each e symbol_filters_ok = ground arith
    each e worker_holds_lease = ground arith
    each e reconciliation_clean = ground arith
    each e system_safe = ground arith

-- The gates are all open exactly when each of them is, and exactly when none is reported as closed; a
-- gate is among those reported exactly when it is closed.
pub all_open_iff :
    (g : OperationalGates)
    → ((all_open g ≡ true) ↔ ((n : Gate) → is_open g n ≡ true))
      × ((all_open g ≡ true) ↔ (blocked_reasons g ≡ []))
      × ((n : Gate) → is_among n (blocked_reasons g) ≡ not (is_open g n))
unfolding all_open blocked_reasons
all_open_iff g = (
  all_true_iff g,
  closed_names_iff (gate_fields g),
  λ n. is_among-closed_names n (gate_fields g) ∙ closed_among-gate_fields g n,
)

seen_in-eq :
    (s s' : Text) (t t' : ℕ) (seen : List (Text × ℕ))
    → (text_eq s s' && (t == t')) ≡ true
    → seen_in s t seen ≡ seen_in s' t' seen
seen_in-eq s s' t t' seen h =
    let same : s ≡ s' = (text_eq_iff s s').0 (ground arith) in
    let time : t ≡ t' = (==_iff t t').0 (ground arith) in cc

seen_in_self : (s : Text) (t : ℕ) (seen : List (Text × ℕ)) → seen_in s t ((s, t) ∷ seen) ≡ true
unfolding seen_in
seen_in_self s t seen =
    let e1 = (text_eq_iff s s).1 refl in let e2 = (==_iff t t).1 refl in ground arith

-- After a pair is marked, the guard knows that pair and those that it knew before, and no other.
-- Marking the pair again changes nothing, and the size grows by one when the pair was not known.
pub mark_processed_lem :
    (g : ProcessedCandleGuard) (s s' : Text) (t t' : ℕ)
    → (already_processed (mark_processed g s t) s' t'
        ≡ ((text_eq s s' && (t == t')) || already_processed g s' t'))
      × (mark_processed (mark_processed g s t) s t ≡ mark_processed g s t)
      × (guard_length (mark_processed g s t)
          ≡ (if already_processed g s t then guard_length g else suc (guard_length g)))
unfolding already_processed mark_processed guard_length
mark_processed_lem g s s' t t' = elim (Bool-cases (seen_in s t g.seen)) [
  | inl known ↦ elim (Bool-cases (text_eq s s' && (t == t'))) [
    | inl same ↦
        let e = seen_in-eq s s' t t' g.seen same in
        (rw (known, same) (sym e ∙ known), rw (known, known), rw (known))
    | inr other ↦ (rw (known, other), rw (known, known), rw (known))
  ]
  | inr new ↦ (unfold seen_in in rw new, rw (new, seen_in_self s t g.seen), rw (new))
]
