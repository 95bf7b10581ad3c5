-- ===== src/Runtime/Rules/Entries.antt =====
-- The attempts to enter of a tick keep an invariant that `try_enter` keeps.
use cryptobot_v.Prelude.{◌≡◌, refl, Bool, true, false, Option, none, some, List, [], ◌∷◌, ◌++◌}
use cryptobot_v.Prelude.Text.{Text}
use cryptobot_v.Prelude.Result.{Result, ok, raised}
use cryptobot_v.Prelude.Exec.{Exec, pure, modify, ◌>>=◌, ◌>>◌}
use cryptobot_v.Prelude.Keeps.{
  Outcome, Keeps, Keeps-pure, Keeps-bind, Yields, Yields-bind, Keeps-bind_of,
}
use cryptobot_v.Number.{Num, ◌≺◌, ◌≼◌, nought}
use cryptobot_v.Market.Candle.{Candle}
use cryptobot_v.Execution.Gates.{OperationalGates, ProcessedCandleGuard}
use cryptobot_v.Strategy.Parameters.{CoinStrategyParameters}
use cryptobot_v.Strategy.Position.{StrategyPosition}
use cryptobot_v.Strategy.Engine.{RuntimeMode}
use cryptobot_v.Runtime.Ports.{Ports}
use cryptobot_v.Runtime.Orchestrator.{Runtime, call, try_enter}
use cryptobot_v.Runtime.Rules.{Invariant, on_runtimes, on_services}
use cryptobot_v.Runtime.Service
use cryptobot_v.Runtime.Service.{
  Service, ServiceConfig, SizingPolicy, OperationalStatus, TickReport, Exit, order_size,
  balance_sufficient, build_gates, attempt, enter_coin, enter_coins, on_object, exit_loop,
  exit_coin, exit_coins, entries_allowed, tick, run, init_service, add_position, candle_limit,
  open_positions,
}
use cryptobot_v.Runtime.Rules.Exits.{call-Keeps}

-- The gates that repeat a flag of the status.
abbrev pub Follows : OperationalStatus → OperationalGates → Type 0
Follows status gates =
    (gates.worker_holds_lease ≡ status.worker_holds_lease)
    × (gates.reconciliation_clean ≡ status.reconciliation_clean)
    × (gates.system_safe ≡ status.system_safe)

module _ {F D W : Type 0} (inv : Invariant D) where
  pub on_service-Keeps :
      {A : Type 0} (m : Exec (Runtime D W) A)
      → Keeps (on_runtimes inv) m
      → Keeps (on_services inv) (Service.on_runtime {F = F} m)
  on_service-Keeps {A = A} m h s c = moved (m s.runtime) (h s.runtime c.0)
    where
      moved :
          (x : Result A × Runtime D W)
          → Outcome (on_runtimes inv) x
          → Outcome (on_services inv) (x.0, record s { runtime = x.1 })
      moved (ok a, r') i = (i, c.1)
      moved (raised e, r') i = (i, c.1)

module _ {F D W : Type 0} ⦃f : Num F⦄ ⦃d : Num D⦄ (inv : Invariant D) (ports : Ports F D W)
    (config : ServiceConfig F D) (sizing : SizingPolicy F D) where
  order_size-Keeps :
      (symbol : Text) (params : CoinStrategyParameters F D)
      → Keeps (on_runtimes inv) (order_size ports config sizing symbol params)
  unfolding order_size
  order_size-Keeps symbol params =
      Keeps-bind (on_runtimes inv) (call (ports.open_and_reserved_slots symbol)) _
        (call-Keeps inv _)
        (λ slots.
          Keeps-bind (on_runtimes inv) (call (ports.used_capital symbol)) _ (call-Keeps inv _)
            (λ used. Keeps-pure (on_runtimes inv) (sizing params slots used)))

  balance_sufficient-Keeps :
      (amount : D) → Keeps (on_runtimes inv) (balance_sufficient ports config sizing amount)
  unfolding balance_sufficient
  balance_sufficient-Keeps amount = by_sign (nought ≺ amount)
    where
      by_sign :
          (positive : Bool)
          → Keeps (on_runtimes inv) (elim positive as (λ _. Exec (Runtime D W) Bool) [
            | false ↦ pure false
            | true ↦ call ports.available_quote_balance >>= λ balance. pure (amount ≼ balance)
          ])
      by_sign false = Keeps-pure (on_runtimes inv) false
      by_sign true =
          Keeps-bind (on_runtimes inv) (call ports.available_quote_balance) _ (call-Keeps inv _)
            (λ balance. Keeps-pure (on_runtimes inv) (amount ≼ balance))

  build_gates-Yields :
      (g : ProcessedCandleGuard) (symbol : Text) (params : CoinStrategyParameters F D)
      (cs : List (Candle F)) (amount : D) (status : OperationalStatus)
      → Yields
          (on_runtimes inv)
          (Follows status)
          (build_gates ports config sizing g symbol params cs amount status)
  unfolding build_gates
  build_gates-Yields g symbol params cs amount status =
      Yields-bind (on_runtimes inv) (Follows status) (call ports.now_ms) _ (call-Keeps inv _)
        (λ now.
          Yields-bind (on_runtimes inv) (Follows status)
            (call (ports.open_and_reserved_slots symbol)) _ (call-Keeps inv _)
            (λ slots.
              Yields-bind (on_runtimes inv) (Follows status) (call (ports.used_capital symbol)) _
                (call-Keeps inv _)
                (λ used.
                  Yields-bind (on_runtimes inv) (Follows status)
                    (balance_sufficient ports config sizing amount) _
                    (balance_sufficient-Keeps amount)
                    (λ sufficient r' c. (c, (refl, refl, refl))))))

  -- What is asked of `try_enter`, under the gates that a status gives.
  abbrev pub EnteringKeeps : OperationalStatus → Type 0
  EnteringKeeps status =
      (symbol : Text) (params : CoinStrategyParameters F D) (gates : OperationalGates) (amount : D)
      (mode : RuntimeMode) (candles : List (Candle F))
      → Follows status gates
      → Keeps (on_runtimes inv)
          (try_enter ports symbol params gates amount mode config.commission_rates (some candles))

  attempt-Keeps :
      (g : ProcessedCandleGuard) (status : OperationalStatus) (mode : RuntimeMode) (symbol : Text)
      (params : CoinStrategyParameters F D)
      → EnteringKeeps status
      → Keeps (on_runtimes inv) (attempt ports config sizing g status mode symbol params)
  unfolding attempt
  attempt-Keeps g status mode symbol params enter =
      Keeps-bind (on_runtimes inv)
        (call (ports.get_closed_candles symbol (candle_limit ports config sizing params))) _
        (call-Keeps inv _)
        (λ cs.
          Keeps-bind (on_runtimes inv) (order_size ports config sizing symbol params) _
            (order_size-Keeps symbol params)
            (λ amount.
              Keeps-bind_of (on_runtimes inv) (Follows status)
                (build_gates ports config sizing g symbol params cs amount status) _
                (build_gates-Yields g symbol params cs amount status)
                (λ gates same. enter symbol params gates amount mode cs same)))

  enter_coin-Keeps :
      (status : OperationalStatus) (symbol : Text) (params : CoinStrategyParameters F D)
      → EnteringKeeps status
      → Keeps (on_services inv) (enter_coin ports config sizing status symbol params)
  unfolding enter_coin add_position
  enter_coin-Keeps status symbol params enter s =
      Keeps-bind (on_services inv)
        (Service.on_runtime (attempt ports config sizing s.guard status s.mode symbol params)) _
        (on_service-Keeps inv _ (attempt-Keeps s.guard status s.mode symbol params enter)) kept s
    where
      kept :
          (out : Option (StrategyPosition F D))
          → Keeps
              (on_services inv)
              (elim out as (λ _. Exec (Service F D W) (List (StrategyPosition F D))) [
                | none ↦ pure []
                | some position ↦ (do
                  modify (add_position ports config sizing symbol position)
                  pure (position ∷ []))
              ])
      kept none s c = c
      kept (some position) s c = c

  pub enter_coins-Keeps :
      (status : OperationalStatus) (coins : List (Text × CoinStrategyParameters F D))
      → EnteringKeeps status
      → Keeps (on_services inv) (enter_coins ports config sizing status coins)
  unfolding enter_coins
  enter_coins-Keeps status [] enter s c = c
  enter_coins-Keeps status ((symbol, params) ∷ coins) enter s c =
      Keeps-bind (on_services inv) (enter_coin ports config sizing status symbol params) _
        (enter_coin-Keeps status symbol params enter)
        (λ entries.
          Keeps-bind (on_services inv) (enter_coins ports config sizing status coins) _
            (enter_coins-Keeps status coins enter)
            (λ more. Keeps-pure (on_services inv) (entries ++ more)))
        s c
