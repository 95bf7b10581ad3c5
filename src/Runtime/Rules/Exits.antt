-- ===== src/Runtime/Rules/Exits.antt =====
-- Calls of a port and attempts to exit keep an invariant.
use cryptobot_v.Prelude.{◌+◌, Bool, true, false, Option, none, some, List, ◌∷◌}
use cryptobot_v.Prelude.Text.{Text}
use cryptobot_v.Prelude.Result.{Result, ok, raised}
use cryptobot_v.Prelude.Exec.{Exec, pure, lift}
use cryptobot_v.Prelude.Keeps.{Outcome, Keeps, Keeps-pure, Keeps-lift, Keeps-bind}
use cryptobot_v.Number.{Num}
use cryptobot_v.Market.Candle.{Candle}
use cryptobot_v.Execution.Orderbook.{OrderBook}
use cryptobot_v.Execution.Pnl.{ExitCostModel}
use cryptobot_v.Exchange.Fills.{Rates, RealizedPnL, realized_pnl}
use cryptobot_v.Exchange.Filters.{SymbolFilters}
use cryptobot_v.Strategy.Parameters.{CoinStrategyParameters, min_candles_for_signal}
use cryptobot_v.Strategy.Position.{StrategyPosition, mark_closed}
use cryptobot_v.Strategy.Engine.{RuntimeMode, evaluate_exit}
use cryptobot_v.Runtime.Ports.{Ports}
use cryptobot_v.Runtime.Orchestrator
use cryptobot_v.Runtime.Orchestrator.{
  Order, sold, Runtime, WithPosition, call, send, on_position, fetch_candles, given_or_fetched,
  book_or_fetched, place_sell, try_exit, try_enter, sell_quantity, split_symbol, default_quotes,
}
use cryptobot_v.Runtime.Rules.{Invariant, on_runtimes, on_positions}

module _ {D W : Type 0} (inv : Invariant D) where
  pub call-Keeps : {A : Type 0} (m : Exec W A) → Keeps (on_runtimes inv) (call m)
  call-Keeps {A = A} m r c = by_result (m r.world).0
    where
      by_result : (a : Result A) → Outcome (on_runtimes inv) (a, record r { world = (m r.world).1 })
      by_result (ok a) = c
      by_result (raised e) = inv.weaken r.guard r.orders c

  send-sold-Keeps :
      {A : Type 0} (s : Text) (qty : D) (m : Exec W A)
      → Keeps (on_runtimes inv) (send (sold s qty) m)
  send-sold-Keeps s qty m r c =
      call-Keeps m (record r { orders = sold s qty ∷ r.orders })
        (inv.selling r.guard r.orders s qty c)

module _ {F D W : Type 0} ⦃f : Num F⦄ ⦃d : Num D⦄ (inv : Invariant D) (ports : Ports F D W) where
  on_runtime-Keeps :
      {A : Type 0} (m : Exec (Runtime D W) A)
      → Keeps (on_runtimes inv) m
      → Keeps (on_positions inv ports) (Orchestrator.on_runtime ports m)
  on_runtime-Keeps {A = A} m h (r, p) c = moved (m r) (h r c)
    where
      moved :
          (x : Result A × Runtime D W)
          → Outcome (on_runtimes inv) x
          → Outcome (on_positions inv ports) (x.0, (x.1, p))
      moved (ok a, r') i = i
      moved (raised e, r') i = i

  on_position-Keeps :
      {A : Type 0} (m : Exec (StrategyPosition F D) A)
      → Keeps (on_positions inv ports) (on_position ports m)
  on_position-Keeps {A = A} m (r, p) c = moved (m p)
    where
      moved :
          (x : Result A × StrategyPosition F D) → Outcome (on_positions inv ports) (x.0, (r, x.1))
      moved (ok a, p') = c
      moved (raised e, p') = inv.weaken r.guard r.orders c

  given_or_fetched-Keeps :
      (candles : Option (List (Candle F))) (s : Text) (params : CoinStrategyParameters F D)
      → Keeps (on_runtimes inv) (given_or_fetched ports candles s params)
  unfolding given_or_fetched fetch_candles
  given_or_fetched-Keeps none s params r c =
      call-Keeps inv (ports.get_closed_candles s (min_candles_for_signal params + r.buffer)) r c
  given_or_fetched-Keeps (some cs) s params r c = c

  book_or_fetched-Keeps :
      (book : Option (OrderBook D)) (s : Text)
      → Keeps (on_runtimes inv) (book_or_fetched ports book s)
  unfolding book_or_fetched
  book_or_fetched-Keeps none s r c = call-Keeps inv (ports.get_order_book s) r c
  book_or_fetched-Keeps (some b) s r c = c

  place_sell-Keeps :
      (filters : Option (SymbolFilters D)) (rates : Rates D)
      → Keeps (on_positions inv ports) (place_sell ports filters rates)
  unfolding place_sell
  place_sell-Keeps filters rates (r, p) c =
      let qty = sell_quantity ports filters p.entry.sellable_base_qty in
      let sell = send (sold p.symbol qty) (ports.market_sell p.symbol qty) in
      Keeps-bind (on_positions inv ports) (lift (split_symbol p.symbol default_quotes)) _
        (Keeps-lift (on_positions inv ports) _)
        (λ (base, quote).
          Keeps-bind (on_positions inv ports) (Orchestrator.on_runtime ports sell) _
            (on_runtime-Keeps sell
              (send-sold-Keeps inv p.symbol qty (ports.market_sell p.symbol qty)))
            (λ fills.
              Keeps-bind (on_positions inv ports)
                (lift (realized_pnl p.entry fills base quote rates)) _
                (Keeps-lift (on_positions inv ports) _)
                (λ pnl.
                  Keeps-bind (on_positions inv ports) (on_position ports mark_closed) _
                    (on_position-Keeps _) (λ _. Keeps-pure (on_positions inv ports) (some pnl)))))
        (r, p) c

  pub try_exit-Keeps :
      (model : ExitCostModel D) (mode : RuntimeMode) (filters : Option (SymbolFilters D))
      (rates : Rates D) (candles : Option (List (Candle F))) (book : Option (OrderBook D))
      → Keeps (on_positions inv ports) (try_exit ports model mode filters rates candles book)
  unfolding try_exit
  try_exit-Keeps model mode filters rates candles book (r, p) c =
      Keeps-bind (on_positions inv ports)
        (Orchestrator.on_runtime ports (given_or_fetched ports candles p.symbol p.snapshot)) _
        (on_runtime-Keeps _ (given_or_fetched-Keeps candles p.symbol p.snapshot))
        (λ cs.
          Keeps-bind (on_positions inv ports)
            (Orchestrator.on_runtime ports (book_or_fetched ports book p.symbol)) _
            (on_runtime-Keeps _ (book_or_fetched-Keeps book p.symbol))
            (λ b.
              Keeps-bind (on_positions inv ports)
                (on_position ports (evaluate_exit cs b model mode)) _ (on_position-Keeps _)
                (λ decision. by_decision decision.sell)))
        (r, p) c
    where
      by_decision :
          (sell : Bool)
          → Keeps (on_positions inv ports) (elim sell [
            | false ↦ pure {A = Option (RealizedPnL D)} none
            | true ↦ place_sell ports filters rates
          ])
      by_decision false = Keeps-pure (on_positions inv ports) {A = Option (RealizedPnL D)} none
      by_decision true = place_sell-Keeps filters rates
