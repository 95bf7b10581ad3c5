-- ===== src/Execution/Gates.antt =====
-- src/cryptobot/execution/gates.py. A set of pairs is a list that holds each once.
pub mod Laws
use cryptobot_v.Prelude.{
  ℕ, Bool, true, false, ◌&&◌, ◌||◌, List, [], ◌∷◌, ◌++◌, ltb, ◌==◌, if◌then◌else◌, length,
}
use cryptobot_v.Prelude.Text.{Text, text_eq}
use cryptobot_v.Number.{Num, ◌≺◌}
use cryptobot_v.Strategy.Parameters.{CoinStrategyParameters}

pub record OperationalGates : Type 0 where
  pub runtime_running : Bool
  pub trading_enabled : Bool
  pub coin_active : Bool
  pub coin_not_pending_delete : Bool
  pub market_data_fresh : Bool
  pub candles_contiguous : Bool
  pub indicators_ready : Bool
  pub not_already_processed : Bool
  pub slot_available : Bool
  pub capital_available : Bool
  pub usdt_balance_sufficient : Bool
  pub symbol_filters_ok : Bool
  pub worker_holds_lease : Bool
  pub reconciliation_clean : Bool
  pub system_safe : Bool

-- the names of the fields
pub data Gate : Type 0 where
  runtime_running trading_enabled coin_active coin_not_pending_delete market_data_fresh : Gate
  candles_contiguous indicators_ready not_already_processed slot_available : Gate
  capital_available usdt_balance_sufficient symbol_filters_ok worker_holds_lease : Gate
  reconciliation_clean system_safe : Gate

-- `[(f.name, getattr(self, f.name)) for f in fields(self)]`
unfoldable pub gate_fields : OperationalGates → List (Gate × Bool)
gate_fields g =
    (runtime_running, g.runtime_running)
    ∷ (trading_enabled, g.trading_enabled)
    ∷ (coin_active, g.coin_active)
    ∷ (coin_not_pending_delete, g.coin_not_pending_delete)
    ∷ (market_data_fresh, g.market_data_fresh)
    ∷ (candles_contiguous, g.candles_contiguous)
    ∷ (indicators_ready, g.indicators_ready)
    ∷ (not_already_processed, g.not_already_processed)
    ∷ (slot_available, g.slot_available)
    ∷ (capital_available, g.capital_available)
    ∷ (usdt_balance_sufficient, g.usdt_balance_sufficient)
    ∷ (symbol_filters_ok, g.symbol_filters_ok)
    ∷ (worker_holds_lease, g.worker_holds_lease)
    ∷ (reconciliation_clean, g.reconciliation_clean)
    ∷ (system_safe, g.system_safe)
    ∷ []

all_true : List (Gate × Bool) → Bool
all_true [] = true
all_true ((g, b) ∷ gs) = b && all_true gs

closed_names : List (Gate × Bool) → List Gate
closed_names [] = []
closed_names ((g, b) ∷ gs) = (if b then [] else g ∷ []) ++ closed_names gs

unfoldable pub all_open : OperationalGates → Bool
unfolding gate_fields all_true
all_open g = all_true (gate_fields g)

unfoldable pub blocked_reasons : OperationalGates → List Gate
unfolding gate_fields closed_names
blocked_reasons g = closed_names (gate_fields g)

-- `ProcessedCandleGuard`: its field `_seen`
pub record ProcessedCandleGuard : Type 0 where
  pub seen : List (Text × ℕ)

abbrev pub empty_guard : ProcessedCandleGuard
empty_guard = record { seen = [] }

unfoldable pub seen_in : Text → ℕ → List (Text × ℕ) → Bool
seen_in symbol time [] = false
seen_in symbol time ((s, t) ∷ seen) = (text_eq s symbol && (t == time)) || seen_in symbol time seen

unfoldable pub already_processed : ProcessedCandleGuard → Text → ℕ → Bool
unfolding seen_in
already_processed guard symbol candle_open_time = seen_in symbol candle_open_time guard.seen

unfoldable pub mark_processed : ProcessedCandleGuard → Text → ℕ → ProcessedCandleGuard
unfolding seen_in
mark_processed guard symbol candle_open_time =
    if seen_in symbol candle_open_time guard.seen
    then guard
    else record { seen = (symbol, candle_open_time) ∷ guard.seen }

-- `__len__`
unfoldable pub guard_length : ProcessedCandleGuard → ℕ
guard_length guard = length guard.seen

module _ {F D : Type 0} where
  unfoldable pub slots_below_limit : ℕ → CoinStrategyParameters F D → Bool
  slots_below_limit open_and_reserved params = ltb open_and_reserved params.slot_count

  unfoldable pub capital_below_limit : ⦃d : Num D⦄ → D → CoinStrategyParameters F D → Bool
  capital_below_limit used params = used ≺ params.capital_limit_usdt
