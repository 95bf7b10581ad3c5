-- ===== src/Runtime/Orchestrator/Leave.antt =====
-- What an attempt to exit does to the position and to the orders.
use cryptobot_v.Prelude.{
  ◌≡◌, refl, sym, subst, ◌∙◌, inl, inr, Bool, true, false, Option, none, some, List, ◌∷◌,
}
use cryptobot_v.Prelude.Result.{Result, Error, ok, raised, Result-cases}
use cryptobot_v.Prelude.Exec.{Exec, pure, ◌>>=◌, resume}
use cryptobot_v.Number.{Num}
use cryptobot_v.Market.Candle.{Candle}
use cryptobot_v.Execution.Orderbook.{OrderBook}
use cryptobot_v.Execution.Pnl.{ExitCostModel}
use cryptobot_v.Exchange.Fills.{Rates, RealizedPnL, realized_pnl}
use cryptobot_v.Exchange.Filters.{SymbolFilters}
use cryptobot_v.Strategy.Position.{StrategyPosition, closed, mark_closed}
use cryptobot_v.Strategy.Exit.Arming.{Evolves, same, arms}
use cryptobot_v.Strategy.Engine.{RuntimeMode, evaluate_exit}
use cryptobot_v.Strategy.Engine.Exiting.{evaluate_exit-Evolves}
use cryptobot_v.Runtime.Ports.{Ports}
use cryptobot_v.Runtime.Orchestrator.{
  Order, sold, Runtime, WithPosition, on_runtime, on_position, fetch_candles, given_or_fetched,
  book_or_fetched, place_sell, try_exit, sell_quantity, split_symbol, default_quotes,
}

module _ {F D : Type 0} where
  -- The fields of a position that nothing changes.
  pub record SameDeal (p q : StrategyPosition F D) : Type 0 where
    pub symbol_eq : q.symbol ≡ p.symbol
    pub snapshot_eq : q.snapshot ≡ p.snapshot
    pub entry_eq : q.entry ≡ p.entry
    pub time_eq : q.entry_candle_open_time ≡ p.entry_candle_open_time

  SameDeal-refl : (p : StrategyPosition F D) → SameDeal p p
  SameDeal-refl p = record { symbol_eq = refl; snapshot_eq = refl; entry_eq = refl; time_eq = refl }

  SameDeal-trans : (p q r : StrategyPosition F D) → SameDeal p q → SameDeal q r → SameDeal p r
  SameDeal-trans p q r a b = record {
    symbol_eq = b.symbol_eq ∙ a.symbol_eq;
    snapshot_eq = b.snapshot_eq ∙ a.snapshot_eq;
    entry_eq = b.entry_eq ∙ a.entry_eq;
    time_eq = b.time_eq ∙ a.time_eq;
  }

  Evolves-SameDeal :
      ⦃f : Num F⦄ (p : StrategyPosition F D) (cs : List (Candle F)) (q : StrategyPosition F D)
      → Evolves p cs q
      → SameDeal p q
  Evolves-SameDeal p cs q (same e) = subst (SameDeal p) (sym e) (SameDeal-refl p)
  Evolves-SameDeal p cs q (arms last is_open over e) =
      subst (SameDeal p) (sym e)
        (record { symbol_eq = refl; snapshot_eq = refl; entry_eq = refl; time_eq = refl })

module _ {F D W : Type 0} ⦃f : Num F⦄ ⦃d : Num D⦄ (ports : Ports F D W) where
  -- The outcomes of an attempt, from the orders and the position before it. A profit comes
  -- with a sell order and a closed position; an order may have been sent when a later step raises.
  pub data Leaves (filters : Option (SymbolFilters D)) (os : List (Order D))
      (p : StrategyPosition F D) (out : Result (Option (RealizedPnL D)) × WithPosition ports)
      : Type 0 where
    held : out.0 ≡ ok none → out.1.0.orders ≡ os → SameDeal p out.1.1 → Leaves filters os p out
    failed :
        (e : Error)
        → out.0 ≡ raised e
        → out.1.0.orders ≡ os
        → SameDeal p out.1.1
        → Leaves filters os p out
    failed_after_order :
        (e : Error)
        → out.0 ≡ raised e
        → out.1.0.orders
          ≡ sold p.symbol (sell_quantity ports filters p.entry.sellable_base_qty) ∷ os
        → SameDeal p out.1.1
        → Leaves filters os p out
    left :
        (pnl : RealizedPnL D)
        → out.0 ≡ ok (some pnl)
        → out.1.0.orders
          ≡ sold p.symbol (sell_quantity ports filters p.entry.sellable_base_qty) ∷ os
        → out.1.1.state ≡ closed
        → SameDeal p out.1.1
        → Leaves filters os p out

  module _ (filters : Option (SymbolFilters D)) where
    order_eq :
        (os : List (Order D)) (p q : StrategyPosition F D)
        → SameDeal p q
        → sold q.symbol (sell_quantity ports filters q.entry.sellable_base_qty) ∷ os
          ≡ sold p.symbol (sell_quantity ports filters p.entry.sellable_base_qty) ∷ os
    order_eq os p q a = rw (a.symbol_eq, a.entry_eq)

    Leaves-SameDeal :
        (os : List (Order D)) (p q : StrategyPosition F D)
        (out : Result (Option (RealizedPnL D)) × WithPosition ports)
        → SameDeal p q
        → Leaves filters os q out
        → Leaves filters os p out
    Leaves-SameDeal os p q out a (held e o b) = held e o (SameDeal-trans p q _ a b)
    Leaves-SameDeal os p q out a (failed x e o b) = failed x e o (SameDeal-trans p q _ a b)
    Leaves-SameDeal os p q out a (failed_after_order x e o b) =
        failed_after_order x e (o ∙ order_eq os p q a) (SameDeal-trans p q _ a b)
    Leaves-SameDeal os p q out a (left pnl e o c b) =
        left pnl e (o ∙ order_eq os p q a) c (SameDeal-trans p q _ a b)

    -- An action that sends no order and leaves the deal as it is.
    abbrev IsHarmless : {A : Type 0} → Exec (WithPosition ports) A → Type 0
    IsHarmless m =
        (r : Runtime D W) (p : StrategyPosition F D)
        → ((m (r, p)).1.0.orders ≡ r.orders) × SameDeal p (m (r, p)).1.1

    harmless-Leaves :
        {A : Type 0} (m : Exec (WithPosition ports) A)
        (k : A → Exec (WithPosition ports) (Option (RealizedPnL D)))
        → IsHarmless m
        → ((a : A) (r : Runtime D W) (p : StrategyPosition F D)
            → Leaves filters r.orders p (k a (r, p)))
        → (r : Runtime D W) (p : StrategyPosition F D)
        → Leaves filters r.orders p ((m >>= k) (r, p))
    harmless-Leaves {A = A} m k q h r p = go (m (r, p)) (q r p)
      where
        go :
            (x : Result A × WithPosition ports)
            → (x.1.0.orders ≡ r.orders) × SameDeal p x.1.1
            → Leaves filters r.orders p (resume x k)
        go (ok a, (r', q)) (o, deal) =
            subst (λ os. Leaves filters os p (k a (r', q))) o
              (Leaves-SameDeal r'.orders p q (k a (r', q)) deal (h a r' q))
        go (raised e, (r', q)) (o, deal) = failed e refl o deal

    place_sell-Leaves :
        (rates : Rates D) (r : Runtime D W) (p : StrategyPosition F D)
        → Leaves filters r.orders p (place_sell ports filters rates (r, p))
    unfolding place_sell mark_closed
    place_sell-Leaves rates r p =
        let qty = sell_quantity ports filters p.entry.sellable_base_qty in
        let kept = SameDeal-refl p in
        elim (Result-cases (split_symbol p.symbol default_quotes)) [
          | inr (e, bad) ↦ failed e (rw bad) (rw bad) (rw bad kept)
          | inl ((base, quote), good) ↦
              elim (Result-cases (ports.market_sell p.symbol qty r.world).0) [
                | inr (e, bad) ↦
                    failed_after_order e (rw (good, bad)) (rw (good, bad)) (rw (good, bad) kept)
                | inl (fills, filled) ↦
                    elim (Result-cases (realized_pnl p.entry fills base quote rates)) [
                      | inr (e, bad) ↦
                          failed_after_order e (rw (good, filled, bad)) (rw (good, filled, bad))
                            (rw (good, filled, bad) kept)
                      | inl (pnl, made) ↦
                          left pnl (rw (good, filled, made)) (rw (good, filled, made))
                            (rw (good, filled, made))
                            (rw (good, filled, made)
                              (record {
                                symbol_eq = refl;
                                snapshot_eq = refl;
                                entry_eq = refl;
                                time_eq = refl;
                              }))
                    ]
              ]
        ]

    -- What an attempt to exit does, whatever the ports answer. The deal of the position, which is its
    -- symbol, parameters and entry, never changes. At most one order is sent, for the sellable quantity,
    -- rounded if there are filters. A profit is returned only when the order was sent and the
    -- position is closed.
    pub try_exit-Leaves :
        (model : ExitCostModel D) (mode : RuntimeMode) (rates : Rates D)
        (candles : Option (List (Candle F))) (book : Option (OrderBook D)) (r : Runtime D W)
        (p : StrategyPosition F D)
        → Leaves filters r.orders p (try_exit ports model mode filters rates candles book (r, p))
    unfolding try_exit given_or_fetched fetch_candles book_or_fetched
    try_exit-Leaves model mode rates candles book r p =
        harmless-Leaves (on_runtime ports (given_or_fetched ports candles p.symbol p.snapshot)) _
          (series_given candles)
          (λ cs.
            harmless-Leaves (on_runtime ports (book_or_fetched ports book p.symbol)) _
              (book_given book)
              (λ b.
                harmless-Leaves (on_position ports (evaluate_exit cs b model mode)) _
                  (λ r q. (refl, Evolves-SameDeal q cs _ (evaluate_exit-Evolves cs b model mode q)))
                  (λ decision. acted decision.sell)))
          r p
      where
        series_given :
            (candles : Option (List (Candle F)))
            → IsHarmless (on_runtime ports (given_or_fetched ports candles p.symbol p.snapshot))
        series_given none r q = (refl, SameDeal-refl q)
        series_given (some cs) r q = (refl, SameDeal-refl q)

        book_given :
            (book : Option (OrderBook D))
            → IsHarmless (on_runtime ports (book_or_fetched ports book p.symbol))
        book_given none r q = (refl, SameDeal-refl q)
        book_given (some b) r q = (refl, SameDeal-refl q)

        acted :
            (sell : Bool) (r : Runtime D W) (q : StrategyPosition F D)
            → Leaves filters r.orders q (
                (elim sell as (λ _. Exec (WithPosition ports) (Option (RealizedPnL D))) [
                  | false ↦ pure none
                  | true ↦ place_sell ports filters rates
                ])
                  (r, q))
        acted false r q = held refl refl (SameDeal-refl q)
        acted true r q = place_sell-Leaves rates r q
