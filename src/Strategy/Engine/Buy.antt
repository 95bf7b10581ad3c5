-- ===== src/Strategy/Engine/Buy.antt =====
-- When a buy is decided.
use cryptobot_v.Prelude.{◌≡◌, ◌↔◌, inl, inr, true, false, Option, List, arith}
use cryptobot_v.Prelude.Text.{Text}
use cryptobot_v.Prelude.Result.{ok, Result-cases}
use cryptobot_v.Number.{Num}
use cryptobot_v.Market.Candle.{Candle}
use cryptobot_v.Execution.Gates.{OperationalGates, ProcessedCandleGuard, all_open}
use cryptobot_v.Strategy.Parameters.{CoinStrategyParameters}
use cryptobot_v.Strategy.Indicators.Total.{HasPeriods}
use cryptobot_v.Strategy.Entry.{EntryEvaluation, evaluate_entry_signal}
use cryptobot_v.Strategy.Entry.Signal.{EntryHolds, evaluate_entry_signal_iff}
use cryptobot_v.Strategy.Engine.{RuntimeMode, running, BuyDecision, evaluate_buy, processed_by}

module _ {F D : Type 0} ⦃f : Num F⦄ where
  -- The decision, for a given evaluation of the entry rule.
  evaluate_buy-fields :
      (symbol : Text) (cs : List (Candle F)) (p : CoinStrategyParameters F D) (g : OperationalGates)
      (guard : Option ProcessedCandleGuard) (mode : RuntimeMode) (ev : EntryEvaluation F)
      → evaluate_entry_signal cs p ≡ ok ev
      → (b : BuyDecision F) × (evaluate_buy symbol cs p g guard mode ≡ ok b)
        × (b.evaluation ≡ ev)
        × ((b.buy ≡ true) ↔ (
            (mode ≡ running)
            × (ev.signal ≡ true)
            × (all_open g ≡ true)
            × (processed_by guard symbol ev.candle_open_time ≡ false)))
  unfolding evaluate_buy
  evaluate_buy-fields symbol cs p g guard mode ev e =
      elim (Result-cases (evaluate_buy symbol cs p g guard mode)) [
        | inl (b, run) ↦ (b, run, ground arith, ground arith)
        | inr (x, bad) ↦ ground arith
      ]

  -- For valid periods the decision is made without an exception. It is to buy exactly in running mode,
  -- when the entry rule holds, every gate is open, and the guard does not know the coin and candle.
  pub evaluate_buy_iff :
      (symbol : Text) (cs : List (Candle F)) (p : CoinStrategyParameters F D) (g : OperationalGates)
      (guard : Option ProcessedCandleGuard) (mode : RuntimeMode)
      → HasPeriods p
      → (b : BuyDecision F) × (evaluate_buy symbol cs p g guard mode ≡ ok b)
        × ((b.buy ≡ true) ↔ (
            (mode ≡ running)
            × EntryHolds cs p
            × (all_open g ≡ true)
            × (processed_by guard symbol b.evaluation.candle_open_time ≡ false)))
  evaluate_buy_iff symbol cs p g guard mode h =
      let (ev, e, signal) = evaluate_entry_signal_iff cs p h in
      let (b, run, same, buys) = evaluate_buy-fields symbol cs p g guard mode ev e in
      (
        b,
        run,
        (
          λ yes. let (m, s, o, n) = buys.0 yes in (m, signal.0 s, o, cc (same, n)),
          λ (m, holds, o, n). buys.1 (m, signal.1 holds, o, cc (same, n)),
        ),
      )
