-- ===== src/Strategy/Engine.antt =====
-- src/cryptobot/strategy/engine.py
pub mod Buy
pub mod Exiting
use cryptobot_v.Prelude.{ℕ, Bool, true, false, not, ◌&&◌, Option, none, some, List, if◌then◌else◌}
use cryptobot_v.Prelude.Text.{Text}
use cryptobot_v.Prelude.Result.{Result, ok, ◌>>=◌}
use cryptobot_v.Prelude.Exec
use cryptobot_v.Prelude.Exec.{Exec}
use cryptobot_v.Number.{Num}
use cryptobot_v.Market.Candle.{Candle}
use cryptobot_v.Execution.Orderbook.{OrderBook}
use cryptobot_v.Execution.Pnl.{ExitCostModel}
use cryptobot_v.Execution.Gates.{
  OperationalGates, Gate, ProcessedCandleGuard, all_open, blocked_reasons, already_processed,
}
use cryptobot_v.Strategy.Parameters.{CoinStrategyParameters}
use cryptobot_v.Strategy.Position.{StrategyPosition}
use cryptobot_v.Strategy.Entry.{EntryEvaluation, Reason, evaluate_entry_signal}
use cryptobot_v.Strategy.Exit.{
  ExitDecision, update_exit_arming, should_sell_normal, should_sell_withdrawal,
}

pub data RuntimeMode : Type 0 where
  running withdrawal_requested : RuntimeMode

pub data BuyReason : Type 0 where
  withdrawal_mode signal_and_gates_open processed_before : BuyReason
  no_entry : Reason → BuyReason
  gates_closed : List Gate → BuyReason

pub record BuyDecision (F : Type 0) : Type 0 where
  pub buy : Bool
  pub reason : BuyReason
  pub evaluation : EntryEvaluation F
  pub gates_open : Bool
  pub already_processed : Bool

-- `guard is not None and evaluation.candle_open_time is not None and guard.already_processed(…)`
unfoldable pub processed_by : Option ProcessedCandleGuard → Text → Option ℕ → Bool
processed_by (some guard) symbol (some time) = already_processed guard symbol time
processed_by _ symbol _ = false

module _ {F D : Type 0} ⦃f : Num F⦄ where
  unfoldable pub evaluate_buy :
      Text
      → List (Candle F)
      → CoinStrategyParameters F D
      → OperationalGates
      → Option ProcessedCandleGuard
      → RuntimeMode
      → Result (BuyDecision F)
  evaluate_buy symbol candles params gates guard mode = do
    evaluation ← evaluate_entry_signal candles params
    let processed = processed_by guard symbol evaluation.candle_open_time
    let gates_open = all_open gates
    elim mode [
      | withdrawal_requested ↦ ok (record {
        buy = false;
        reason = withdrawal_mode;
        evaluation = evaluation;
        gates_open = false;
        already_processed = false;
      })
      | running ↦ ok (record {
        buy = evaluation.signal && (gates_open && not processed);
        reason =
            if not evaluation.signal
            then no_entry evaluation.reason
            else if processed
            then processed_before
            else if not gates_open
            then gates_closed (blocked_reasons gates)
            else signal_and_gates_open;
        evaluation = evaluation;
        gates_open = gates_open;
        already_processed = processed;
      })
    ]

module _ {F D : Type 0} ⦃f : Num F⦄ ⦃d : Num D⦄ where
  unfoldable pub evaluate_exit :
      List (Candle F)
      → OrderBook D
      → ExitCostModel D
      → RuntimeMode
      → Exec (StrategyPosition F D) (ExitDecision D)
  evaluate_exit candles order_book cost_model withdrawal_requested position =
      (should_sell_withdrawal position order_book cost_model, position)
  evaluate_exit candles order_book cost_model running position =
      Exec.resume (update_exit_arming candles position)
        λ _ position'. (should_sell_normal position' order_book cost_model, position')
