-- ===== src/Runtime/Halted.antt =====
-- When nothing is bought.
use cryptobot_v.Prelude.{
  ◌≡◌, refl, ap, ◌∙◌, inl, inr, Bool, true, false, ◌&&◌, Option, some, List, [], ◌∷◌, arith,
  Bool-cases,
}
use cryptobot_v.Prelude.Text.{Text}
use cryptobot_v.Prelude.Result.{Result, ok, raised, Result-cases}
use cryptobot_v.Prelude.Keeps.{Outcome}
use cryptobot_v.Number.{Num}
use cryptobot_v.Market.Candle.{Candle}
use cryptobot_v.Execution.Gates.{OperationalGates, ProcessedCandleGuard, all_open}
use cryptobot_v.Exchange.Fills.{Rates}
use cryptobot_v.Strategy.Parameters.{CoinStrategyParameters}
use cryptobot_v.Strategy.Position.{StrategyPosition}
use cryptobot_v.Strategy.Entry.{evaluate_entry_signal}
use cryptobot_v.Strategy.Engine.{
  RuntimeMode, running, withdrawal_requested, BuyDecision, evaluate_buy,
}
use cryptobot_v.Runtime.Ports.{Ports}
use cryptobot_v.Runtime.Orchestrator.{
  Order, bought, sold, Runtime, given_or_fetched, act_on, try_enter,
}
use cryptobot_v.Runtime.Rules.{Invariant, on_runtimes, on_services}
use cryptobot_v.Runtime.Rules.Entries.{Follows}
use cryptobot_v.Runtime.Rules.Ticks.{tick-Outcome}
use cryptobot_v.Runtime.Service.{
  Service, ServiceConfig, SizingPolicy, OperationalStatus, entries_allowed, tick,
}

module _ {D : Type 0} where
  -- The buys among the orders.
  unfoldable pub buys : List (Order D) → List (Order D)
  buys [] = []
  buys (bought s t amount ∷ orders) = bought s t amount ∷ buys orders
  buys (sold s qty ∷ orders) = buys orders

  abbrev buys_are : List (Order D) → Invariant D
  unfolding buys
  buys_are before = record {
    Good = λ g orders. buys orders ≡ before;
    Left = λ g orders. buys orders ≡ before;
    weaken = λ g orders e. e;
    selling = λ g orders s qty e. e;
    Own = λ g. Unit {0};
  }

module _ {F D : Type 0} ⦃f : Num F⦄ where
  buy-all_open :
      (symbol : Text) (cs : List (Candle F)) (p : CoinStrategyParameters F D) (g : OperationalGates)
      (guard : Option ProcessedCandleGuard) (mode : RuntimeMode) (b : BuyDecision F)
      → evaluate_buy symbol cs p g guard mode ≡ ok b
      → b.buy ≡ true
      → all_open g ≡ true
  unfolding evaluate_buy
  buy-all_open symbol cs p g guard mode b e buys =
      elim (Result-cases (evaluate_entry_signal cs p)) [
        | inl (ev, good) ↦ ground arith
        | inr (x, bad) ↦ ground arith
      ]

module _ {F D W : Type 0} ⦃f : Num F⦄ ⦃d : Num D⦄ (ports : Ports F D W) where
  -- With a gate closed an attempt to enter sends nothing.
  try_enter-closed :
      (symbol : Text) (params : CoinStrategyParameters F D) (gates : OperationalGates) (amount : D)
      (mode : RuntimeMode) (rates : Rates D) (cs : List (Candle F)) (r : Runtime D W)
      → all_open gates ≡ false
      → (try_enter ports symbol params gates amount mode rates (some cs) r).1.orders ≡ r.orders
  unfolding try_enter given_or_fetched act_on
  try_enter-closed symbol params gates amount mode rates cs r shut =
      elim (Result-cases (evaluate_buy symbol cs params gates (some r.guard) mode)) [
        | inr (e, bad) ↦ rw bad
        | inl (b, good) ↦ elim (Bool-cases b.buy) [
          | inr hold ↦ rw (good, hold)
          | inl buys ↦
              cc (buy-all_open symbol cs params gates (some r.guard) mode b good buys, shut)
        ]
      ]

-- Whether the mode and the flags of a status let a tick buy.
abbrev pub may_buy : RuntimeMode → OperationalStatus → Bool
may_buy running status =
    status.runtime_running
    && (status.trading_enabled
        && (status.worker_holds_lease && (status.reconciliation_clean && status.system_safe)))
may_buy withdrawal_requested status = false

module _ {F D W : Type 0} ⦃f : Num F⦄ ⦃d : Num D⦄ (ports : Ports F D W) (config : ServiceConfig F D)
    (sizing : SizingPolicy F D) where
  allowed-shut :
      (mode : RuntimeMode) (status : OperationalStatus) (gates : OperationalGates)
      → may_buy mode status ≡ false
      → entries_allowed ports config sizing mode status ≡ true
      → Follows status gates
      → all_open gates ≡ false
  unfolding entries_allowed all_open
  allowed-shut running status gates shut allowed (lease, clean, safe) = ground arith
  allowed-shut withdrawal_requested status gates shut allowed follows = cc

  Outcome-buys :
      {A : Type 0} (before : List (Order D)) (out : Result A × Service F D W)
      → Outcome (on_services (buys_are before)) out
      → buys out.1.runtime.orders ≡ before
  unfolding buys_are
  Outcome-buys before (ok a, s) (e, _) = e
  Outcome-buys before (raised x, s) (e, _) = e

  -- A tick buys nothing in withdrawal mode, nor when one of the five flags of the status is down: the
  -- runtime stopped, trading disabled, the lease lost, the reconciliation dirty, or the system unsafe.
  -- This holds for all ports, also of a tick that ends with an exception.
  pub tick-no_buys :
      (status : OperationalStatus) (s : Service F D W)
      → may_buy s.mode status ≡ false
      → buys (tick ports config sizing status s).1.runtime.orders ≡ buys s.runtime.orders
  unfolding buys_are
  tick-no_buys status s shut =
      Outcome-buys (buys s.runtime.orders) (tick ports config sizing status s) (
        tick-Outcome (buys_are (buys s.runtime.orders)) ports config sizing status s
          (λ allowed symbol params gates amount mode cs follows r e.
            same_buys
              (try_enter ports symbol params gates amount mode config.commission_rates (some cs) r)
              (ap buys (
                  try_enter-closed ports symbol params gates amount mode config.commission_rates cs
                    r (allowed-shut s.mode status gates shut allowed follows))
                ∙ e))
          (refl, tt))
    where
      same_buys :
          (out : Result (Option (StrategyPosition F D)) × Runtime D W)
          → buys out.1.orders ≡ buys s.runtime.orders
          → Outcome (on_runtimes (buys_are (buys s.runtime.orders))) out
      same_buys (ok a, r) e = e
      same_buys (raised x, r) e = e
