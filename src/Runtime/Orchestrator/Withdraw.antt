-- ===== src/Runtime/Orchestrator/Withdraw.antt =====
-- src/cryptobot/runtime/orchestrator.py, try_exit in withdrawal mode: what pays is sold.
use cryptobot_v.Prelude.{◌≡◌, refl, sym, subst, Bool, true, false, none, Option, some, List, ◌∷◌}
use cryptobot_v.Prelude.Text.{Text}
use cryptobot_v.Prelude.Result.{Result, ok}
use cryptobot_v.Prelude.Exec.{Exec, pure}
use cryptobot_v.Number.{Num}
use cryptobot_v.Market.Candle.{Candle}
use cryptobot_v.Execution.Orderbook.{OrderBook}
use cryptobot_v.Execution.Pnl.{ExitCostModel}
use cryptobot_v.Exchange.Fills.{Fill, Rates, RealizedPnL, realized_pnl}
use cryptobot_v.Exchange.Filters.{SymbolFilters}
use cryptobot_v.Strategy.Position.{StrategyPosition, closed, mark_closed}
use cryptobot_v.Strategy.Exit.{
  ExitDecision, withdrawal_reached, decide_exit, should_sell_withdrawal,
}
use cryptobot_v.Strategy.Engine.{withdrawal_requested, evaluate_exit}
use cryptobot_v.Strategy.Engine.Exiting.{Pays, target_of}
use cryptobot_v.Runtime.Ports.{Ports}
use cryptobot_v.Runtime.Orchestrator.{
  sold, Runtime, WithPosition, split_symbol, default_quotes, sell_quantity, place_sell,
  given_or_fetched, book_or_fetched, try_exit,
}

module _ {F D : Type 0} ⦃f : Num F⦄ ⦃d : Num D⦄ where
  Pays-evaluate_exit :
      (cs : List (Candle F)) (book : OrderBook D) (model : ExitCostModel D)
      (p : StrategyPosition F D)
      → Pays withdrawal_requested p book model
      → (decision : ExitDecision D) × (evaluate_exit cs book model withdrawal_requested p
          ≡ (ok decision, p))
        × (decision.sell ≡ true)
  unfolding evaluate_exit should_sell_withdrawal decide_exit
  Pays-evaluate_exit cs book model p pays = (
    record {
      sell = true;
      reason = withdrawal_reached;
      target_net_pnl = some (target_of withdrawal_requested p);
      estimate = some pays.estimate;
    },
    rw (evaluate_exit, should_sell_withdrawal, decide_exit, pays.computed, pays.enough) refl,
    refl,
  )

module _ {F D W : Type 0} ⦃f : Num F⦄ ⦃d : Num D⦄ (ports : Ports F D W)
    (filters : Option (SymbolFilters D)) (rates : Rates D) where
  -- A sell and what it leaves: the profit, one order, and a closed position.
  abbrev pub Sells :
      Runtime D W
      → StrategyPosition F D
      → RealizedPnL D
      → Result (Option (RealizedPnL D)) × WithPosition ports
      → Type 0
  Sells r p pnl out =
      (out.0 ≡ ok (some pnl))
      × (out.1.1.state ≡ closed)
      × (out.1.0.orders
          ≡ sold p.symbol (sell_quantity ports filters p.entry.sellable_base_qty) ∷ r.orders)

  place_sell-Sells :
      (r : Runtime D W) (p : StrategyPosition F D) (base quote : Text) (fills : List (Fill D))
      (pnl : RealizedPnL D)
      → split_symbol p.symbol default_quotes ≡ ok (base, quote)
      → (ports.market_sell p.symbol
          (sell_quantity ports filters p.entry.sellable_base_qty)
          r.world).0
        ≡ ok fills
      → realized_pnl p.entry fills base quote rates ≡ ok pnl
      → Sells r p pnl (place_sell ports filters rates (r, p))
  unfolding place_sell mark_closed
  place_sell-Sells r p base quote fills pnl split filled made =
      (rw (split, filled, made) refl, rw (split, filled, made) refl, rw (split, filled, made) refl)

  -- In withdrawal mode a position whose estimate on the book reaches the target of that mode is sold,
  -- whatever its state was: if its symbol splits, the exchange answers the sell with fills and these can
  -- be valued, then one sell order is sent, the realized profit is returned and the position is closed.
  pub withdrawal-Sells :
      (cs : List (Candle F)) (book : OrderBook D) (model : ExitCostModel D) (r : Runtime D W)
      (p : StrategyPosition F D) (base quote : Text) (fills : List (Fill D)) (pnl : RealizedPnL D)
      → Pays withdrawal_requested p book model
      → split_symbol p.symbol default_quotes ≡ ok (base, quote)
      → (ports.market_sell p.symbol
          (sell_quantity ports filters p.entry.sellable_base_qty)
          r.world).0
        ≡ ok fills
      → realized_pnl p.entry fills base quote rates ≡ ok pnl
      → Sells r p pnl
          (try_exit ports model withdrawal_requested filters rates (some cs) (some book) (r, p))
  unfolding try_exit given_or_fetched book_or_fetched
  withdrawal-Sells cs book model r p base quote fills pnl pays split filled made =
      let (decision, run, sells) = Pays-evaluate_exit cs book model p pays in
      let after = λ (b : Bool).
        (elim b as (λ _. Exec (WithPosition ports) (Option (RealizedPnL D))) [
          | false ↦ pure none
          | true ↦ place_sell ports filters rates
        ])
          (r, p) in
      rw run (
        subst (λ b. Sells r p pnl (after b)) (sym sells)
          (place_sell-Sells r p base quote fills pnl split filled made))
