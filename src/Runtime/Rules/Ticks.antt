-- ===== src/Runtime/Rules/Ticks.antt =====
-- Ticks keep an invariant.
use cryptobot_v.Prelude.{
  ℕ, ◌≡◌, refl, Bool, true, false, Option, none, some, List, [], ◌∷◌, ◌++◌, is_empty,
}
use cryptobot_v.Prelude.Text.{Text}
use cryptobot_v.Prelude.Dict
use cryptobot_v.Prelude.Result.{Result, ok, raised}
use cryptobot_v.Prelude.Exec.{Exec, pure, modify, ◌>>=◌, ◌>>◌}
use cryptobot_v.Prelude.Keeps.{Outcome, Keeps, Keeps-pure, Keeps-bind}
use cryptobot_v.Number.{Num}
use cryptobot_v.Market.Candle.{Candle}
use cryptobot_v.Execution.Orderbook.{OrderBook}
use cryptobot_v.Exchange.Fills.{RealizedPnL}
use cryptobot_v.Strategy.Parameters.{CoinStrategyParameters}
use cryptobot_v.Strategy.Position.{StrategyPosition}
use cryptobot_v.Runtime.Ports.{Ports}
use cryptobot_v.Runtime.Orchestrator.{WithPosition, call, try_exit}
use cryptobot_v.Runtime.Rules.{Invariant, on_positions, on_services}
use cryptobot_v.Runtime.Service
use cryptobot_v.Runtime.Service.{
  Service, ServiceConfig, SizingPolicy, OperationalStatus, TickReport, Exit, order_size,
  balance_sufficient, build_gates, attempt, enter_coin, enter_coins, on_object, exit_loop,
  exit_coin, exit_coins, entries_allowed, tick, run, init_service, add_position, candle_limit,
  open_positions,
}
use cryptobot_v.Runtime.Rules.Exits.{call-Keeps, try_exit-Keeps}
use cryptobot_v.Runtime.Rules.Entries.{EnteringKeeps, on_service-Keeps, enter_coins-Keeps}

module _ {F D W : Type 0} ⦃f : Num F⦄ ⦃d : Num D⦄ (inv : Invariant D) (ports : Ports F D W)
    (config : ServiceConfig F D) (sizing : SizingPolicy F D) where
  on_object-Keeps :
      (symbol : Text) (before after : List (StrategyPosition F D))
      (m : Exec (WithPosition ports) (Option (RealizedPnL D))) (p : StrategyPosition F D)
      → Keeps (on_positions inv ports) m
      → Keeps (on_services inv) (on_object ports config sizing symbol before after m p)
  unfolding on_object
  on_object-Keeps symbol before after m p h s c = moved (m (s.runtime, p)) (h (s.runtime, p) c.0)
    where
      moved :
          (x : Result (Option (RealizedPnL D)) × WithPosition ports)
          → Outcome (on_positions inv ports) x
          → Outcome (on_services inv) {A = StrategyPosition F D × Option (RealizedPnL D)} (
            elim x.0 [ ok pnl ↦ ok (x.1.1, pnl) | raised e ↦ raised e ],
            record s {
              runtime = x.1.0;
              positions = Dict.put symbol (before ++ x.1.1 ∷ after) s.positions;
            },
          )
      moved (ok a, (r, q)) i = (i, c.1)
      moved (raised e, (r, q)) i = (i, c.1)

  exit_loop-Keeps :
      (symbol : Text) (cs : List (Candle F)) (book : OrderBook D)
      (before after : List (StrategyPosition F D))
      → Keeps (on_services inv) (exit_loop ports config sizing symbol cs book before after)
  unfolding exit_loop
  exit_loop-Keeps symbol cs book before [] s c = c
  exit_loop-Keeps symbol cs book before (p ∷ after) s c =
      let m =
        try_exit ports config.cost_model s.mode (Dict.get symbol config.filters)
          config.commission_rates (some cs) (some book) in
      Keeps-bind (on_services inv) (on_object ports config sizing symbol before after m p) _
        (on_object-Keeps symbol before after m p (
          try_exit-Keeps inv ports config.cost_model s.mode (Dict.get symbol config.filters)
            config.commission_rates (some cs) (some book)))
        (λ (q, pnl).
          Keeps-bind (on_services inv)
            (exit_loop ports config sizing symbol cs book (before ++ q ∷ []) after) _
            (exit_loop-Keeps symbol cs book (before ++ q ∷ []) after)
            (λ (exits, still_open). collected q pnl exits still_open))
        s c
    where
      collected :
          (q : StrategyPosition F D) (pnl : Option (RealizedPnL D)) (exits : List (Exit F D))
          (still_open : List (StrategyPosition F D))
          → Keeps
              (on_services inv)
              (elim pnl
                as (λ _. Exec (Service F D W) (List (Exit F D) × List (StrategyPosition F D))) [
                  | none ↦ pure (exits, q ∷ still_open)
                  | some realized ↦ pure ((q, realized) ∷ exits, still_open)
                ])
      collected q none exits still_open s c = c
      collected q (some realized) exits still_open s c = c

  exit_coin-Keeps :
      (symbol : Text) (params : CoinStrategyParameters F D)
      → Keeps (on_services inv) (exit_coin ports config sizing symbol params)
  unfolding exit_coin
  exit_coin-Keeps symbol params s c = by_size (is_empty (open_positions s symbol))
    where
      limit : ℕ
      limit = candle_limit ports config sizing params

      by_size :
          (none_open : Bool)
          → Outcome (on_services inv) (
              (elim none_open as (λ _. Exec (Service F D W) (List (Exit F D))) [
                | true ↦ pure []
                | false ↦ (do
                  candles ← Service.on_runtime (call (ports.get_closed_candles symbol limit))
                  book ← Service.on_runtime (call (ports.get_order_book symbol))
                  (exits, still_open) ←
                      exit_loop ports config sizing symbol candles book [] (open_positions s symbol)
                  modify (λ (t : Service F D W). record t {
                    positions = Dict.put symbol still_open t.positions;
                  })
                  pure exits)
              ])
                s)
      by_size true = c
      by_size false =
          Keeps-bind (on_services inv)
            (Service.on_runtime (call (ports.get_closed_candles symbol limit))) _
            (on_service-Keeps inv _ (call-Keeps inv (ports.get_closed_candles symbol limit)))
            (λ cs.
              Keeps-bind (on_services inv) (Service.on_runtime (call (ports.get_order_book symbol)))
                _ (on_service-Keeps inv _ (call-Keeps inv (ports.get_order_book symbol)))
                (λ book.
                  Keeps-bind (on_services inv)
                    (exit_loop ports config sizing symbol cs book [] (open_positions s symbol)) _
                    (exit_loop-Keeps symbol cs book [] (open_positions s symbol))
                    (λ (exits, still_open) t i. i)))
            s c

  exit_coins-Keeps :
      (coins : List (Text × CoinStrategyParameters F D))
      → Keeps (on_services inv) (exit_coins ports config sizing coins)
  unfolding exit_coins
  exit_coins-Keeps [] s c = c
  exit_coins-Keeps ((symbol, params) ∷ coins) s c =
      Keeps-bind (on_services inv) (exit_coin ports config sizing symbol params) _
        (exit_coin-Keeps symbol params)
        (λ exits.
          Keeps-bind (on_services inv) (exit_coins ports config sizing coins) _
            (exit_coins-Keeps coins) (λ more. Keeps-pure (on_services inv) (exits ++ more)))
        s c

  entering-Keeps :
      (status : OperationalStatus) (allowed : Bool)
      → (allowed ≡ true → EnteringKeeps inv ports config sizing status)
      → Keeps
          (on_services inv)
          (elim allowed as (λ _. Exec (Service F D W) (List (StrategyPosition F D))) [
            | true ↦ enter_coins ports config sizing status config.coins
            | false ↦ pure []
          ])
  entering-Keeps status true enter t c =
      enter_coins-Keeps inv ports config sizing status config.coins (enter refl) t c
  entering-Keeps status false enter t c = c

  -- In a tick, entries count only if the mode and the status allow them.
  pub tick-Outcome :
      (status : OperationalStatus) (s : Service F D W)
      → (entries_allowed ports config sizing s.mode status ≡ true
          → EnteringKeeps inv ports config sizing status)
      → inv.Good s.runtime.guard s.runtime.orders × inv.Own s.guard
      → Outcome (on_services inv) (tick ports config sizing status s)
  unfolding tick
  tick-Outcome status s enter c =
      Keeps-bind (on_services inv) _ _
        (entering-Keeps status (entries_allowed ports config sizing s.mode status) enter)
        (λ entries.
          Keeps-bind (on_services inv) (exit_coins ports config sizing config.coins) _
            (exit_coins-Keeps config.coins)
            (λ exits.
              Keeps-pure (on_services inv) {A = TickReport F D}
                (record { entries = entries; exits = exits })))
        s c

  pub run-Keeps :
      (statuses : List OperationalStatus)
      → ((status : OperationalStatus) → EnteringKeeps inv ports config sizing status)
      → Keeps (on_services inv) (run ports config sizing statuses)
  unfolding run
  run-Keeps [] enter s c = c
  run-Keeps (status ∷ rest) enter s c =
      Keeps-bind (on_services inv) (tick ports config sizing status) _
        (λ t. tick-Outcome status t (λ _. enter status))
        (λ report.
          Keeps-bind (on_services inv) (run ports config sizing rest) _ (run-Keeps rest enter)
            (λ reports. Keeps-pure (on_services inv) (report ∷ reports)))
        s c
