-- ===== src/Examples/Trading.antt =====
-- Decisions, orders and the service.
use cryptobot_v.Prelude.{
  not, suc, ◌≡◌, refl, ◌↔◌, true, false, ◌&&◌, ◌||◌, none, some, [], ◌∷◌, ◌==◌, if◌then◌else◌,
}
use cryptobot_v.Prelude.Result.{ok}
use cryptobot_v.Prelude.Text.{text_eq}
use cryptobot_v.Number.{◌≼◌, nought}
use cryptobot_v.Number.Fixed.{ℤ, ℤ-IsSigned, fixed, ◌+ℤ◌, ◌-ℤ◌, ◌*ℤ◌, ◌/ℤ◌}
use cryptobot_v.Execution.Gates.{
  Gate, OperationalGates, all_open, blocked_reasons, already_processed, mark_processed,
  guard_length, empty_guard,
}
use cryptobot_v.Execution.Gates.Laws.{is_open, is_among, all_open_iff, mark_processed_lem}
use cryptobot_v.Execution.Orderbook.{OrderBook, estimate_sell_proceeds, walk_bids}
use cryptobot_v.Execution.Pnl.{ExitCostModel, PnLEstimate, estimate_net_pnl}
use cryptobot_v.Strategy.Position.{
  PositionState, opened, exit_armed, StrategyPosition, invested_quote_cost,
}
use cryptobot_v.Strategy.Entry.{EntryEvaluation, evaluate_entry_signal}
use cryptobot_v.Strategy.Entry.Signal.{EntryHolds, evaluate_entry_signal_iff}
use cryptobot_v.Strategy.Exit.{
  ExitDecision, target_reached, target_net_pnl, decide_exit, should_sell_normal, update_exit_arming,
}
use cryptobot_v.Strategy.Exit.Arming.{Evolves, update_exit_arming-Evolves}
use cryptobot_v.Strategy.Engine.{running, BuyDecision, evaluate_buy, evaluate_exit, processed_by}
use cryptobot_v.Strategy.Engine.Buy.{evaluate_buy_iff}
use cryptobot_v.Strategy.Engine.Exiting.{MaySell, Pays, evaluate_exit_iff, evaluate_exit_safe}
use cryptobot_v.Examples.{num, btc_usdt, minutes, params}
use cryptobot_v.Examples.Market.{params-HasPeriods}

abbrev pub open_gates : OperationalGates
open_gates = record {
  runtime_running = true;
  trading_enabled = true;
  coin_active = true;
  coin_not_pending_delete = true;
  market_data_fresh = true;
  candles_contiguous = true;
  indicators_ready = true;
  not_already_processed = true;
  slot_available = true;
  capital_available = true;
  usdt_balance_sufficient = true;
  symbol_filters_ok = true;
  worker_holds_lease = true;
  reconciliation_clean = true;
  system_safe = true;
}

abbrev pub position_in : PositionState → StrategyPosition ℤ ℤ
position_in state = record {
  symbol = btc_usdt;
  snapshot = params;
  entry = record {
    filled_base_qty = num 1;
    avg_entry_price = num 75;
    true_entry_cost = num 75;
    entry_fees_quote = num 1;
    sellable_base_qty = num 1;
  };
  entry_candle_open_time = 0;
  state = state;
  exit_armed_candle_open_time = none;
}

abbrev pub book : OrderBook ℤ
book = record { bids = (num 90, num 2) ∷ []; asks = [] }

abbrev pub no_costs : ExitCostModel ℤ
no_costs = record { exit_fee_rate = num 0; safety_buffer_frac = num 0 }

evaluate_entry_signal_iff_example :
    (ev : EntryEvaluation ℤ) × (evaluate_entry_signal minutes params ≡ ok ev)
    × ((ev.signal ≡ true) ↔ EntryHolds minutes params)
evaluate_entry_signal_iff_example = evaluate_entry_signal_iff minutes params params-HasPeriods

evaluate_buy_iff_example :
    (b : BuyDecision ℤ) × (evaluate_buy btc_usdt minutes params open_gates
        (some empty_guard)
        running
      ≡ ok b)
    × ((b.buy ≡ true) ↔ (
        (running ≡ running)
        × EntryHolds minutes params
        × (all_open open_gates ≡ true)
        × (processed_by (some empty_guard) btc_usdt b.evaluation.candle_open_time ≡ false)))
evaluate_buy_iff_example =
    evaluate_buy_iff btc_usdt minutes params open_gates (some empty_guard) running params-HasPeriods

update_exit_arming-Evolves_example :
    Evolves (position_in opened) minutes (update_exit_arming minutes (position_in opened)).1
update_exit_arming-Evolves_example = update_exit_arming-Evolves (position_in opened) minutes

abbrev pub sale : ExitDecision ℤ
sale = record {
  sell = true;
  reason = target_reached;
  target_net_pnl = some (◌/ℤ◌ (num 76) (num 100));
  estimate = some (record {
    gross_proceeds = num 90;
    filled_qty = num 1;
    fully_filled = true;
    exit_fees = num 0;
    safety_buffer = num 0;
    invested_quote_cost = num 76;
    net_pnl = num 14;
  });
}

armed-sells : (evaluate_exit minutes book no_costs running (position_in exit_armed)).0 ≡ ok sale
unfolding evaluate_exit update_exit_arming should_sell_normal decide_exit estimate_net_pnl
    estimate_sell_proceeds walk_bids invested_quote_cost target_net_pnl ◌+ℤ◌ ◌-ℤ◌ ◌*ℤ◌ ◌/ℤ◌
armed-sells = refl

evaluate_exit_iff_example : (true ≡ true) ↔ (
    MaySell running (evaluate_exit minutes book no_costs running (position_in exit_armed)).1
    × Pays running
        (evaluate_exit minutes book no_costs running (position_in exit_armed)).1
        book
        no_costs)
evaluate_exit_iff_example =
    evaluate_exit_iff minutes book no_costs running (position_in exit_armed) sale armed-sells

evaluate_exit_safe_example :
    Evolves
      (position_in exit_armed)
      minutes
      (evaluate_exit minutes book no_costs running (position_in exit_armed)).1
    × (e : PnLEstimate ℤ) × (estimate_net_pnl
          (evaluate_exit minutes book no_costs running (position_in exit_armed)).1
          book
          no_costs
        ≡ ok e)
    × (nought ≼ e.net_pnl ≡ true)
evaluate_exit_safe_example =
    evaluate_exit_safe minutes book no_costs running (position_in exit_armed) sale ℤ-IsSigned refl
      refl refl armed-sells refl

all_open_iff_example :
    ((all_open open_gates ≡ true) ↔ ((n : Gate) → is_open open_gates n ≡ true))
    × ((all_open open_gates ≡ true) ↔ (blocked_reasons open_gates ≡ []))
    × ((n : Gate) → is_among n (blocked_reasons open_gates) ≡ not (is_open open_gates n))
all_open_iff_example = all_open_iff open_gates

mark_processed_lem_example :
    (already_processed (mark_processed empty_guard btc_usdt 0) btc_usdt 1
      ≡ ((text_eq btc_usdt btc_usdt && (0 == 1)) || already_processed empty_guard btc_usdt 1))
    × (mark_processed (mark_processed empty_guard btc_usdt 0) btc_usdt 0
        ≡ mark_processed empty_guard btc_usdt 0)
    × (guard_length (mark_processed empty_guard btc_usdt 0) ≡ (
        if already_processed empty_guard btc_usdt 0
        then guard_length empty_guard
        else suc (guard_length empty_guard)))
mark_processed_lem_example = mark_processed_lem empty_guard btc_usdt btc_usdt 0 1
