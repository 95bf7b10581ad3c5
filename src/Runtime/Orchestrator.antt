-- ===== src/Runtime/Orchestrator.antt =====
-- src/cryptobot/runtime/orchestrator.py. `Runtime` is the state of a `TradingRuntime` and of the world
-- behind its ports, with the orders sent so far, newest first; no operation reads those.
pub mod Enter
pub mod Leave
pub mod Withdraw
pub mod Symbols
use cryptobot_v.Prelude.{
  ℕ, ◌+◌, ◌-◌, ◌==◌, Bool, true, false, not, ◌&&◌, Option, none, some, List, [], ◌∷◌, ltb,
  if◌then◌else◌, length, take, drop,
}
use cryptobot_v.Prelude.Text.{Text, codes, text_eq}
use cryptobot_v.Prelude.Result.{Result, ok, raised, value_error, type_error}
use cryptobot_v.Prelude.Exec.{Exec, pure, lift, get_state, modify, ◌>>=◌, ◌>>◌}
use cryptobot_v.Number.{Num}
use cryptobot_v.Market.Candle.{Candle}
use cryptobot_v.Execution.Orderbook.{OrderBook}
use cryptobot_v.Execution.Pnl.{ExitCostModel}
use cryptobot_v.Execution.Gates.{
  OperationalGates, ProcessedCandleGuard, empty_guard, mark_processed, guard_length,
}
use cryptobot_v.Exchange.Fills.{Fill, Rates, RealizedPnL, aggregate_entry, realized_pnl}
use cryptobot_v.Exchange.Filters.{SymbolFilters, round_quantity}
use cryptobot_v.Strategy.Parameters.{CoinStrategyParameters, min_candles_for_signal}
use cryptobot_v.Strategy.Position.{StrategyPosition, open_position, mark_closed}
use cryptobot_v.Strategy.Engine.{RuntimeMode, BuyDecision, evaluate_buy, evaluate_exit}
use cryptobot_v.Runtime.Ports.{Ports}

abbrev pub default_quotes : List Text
default_quotes =
    codes "USDT"
    ∷ codes "FDUSD"
    ∷ codes "USDC"
    ∷ codes "TUSD"
    ∷ codes "BUSD"
    ∷ codes "BTC"
    ∷ codes "ETH"
    ∷ codes "BNB"
    ∷ []

-- `sorted(quotes, key=len, reverse=True)`
insert_quote : Text → List Text → List Text
insert_quote q [] = q ∷ []
insert_quote q (r ∷ rs) = if ltb (length q) (length r) then r ∷ insert_quote q rs else q ∷ r ∷ rs

unfoldable pub sort_quotes : List Text → List Text
unfolding insert_quote
sort_quotes [] = []
sort_quotes (q ∷ qs) = insert_quote q (sort_quotes qs)

-- `symbol.endswith(quote) and len(symbol) > len(quote)`
unfoldable pub splits_at : Text → Text → Bool
splits_at symbol quote =
    ltb (length quote) (length symbol) && text_eq (drop (length symbol - length quote) symbol) quote

unfoldable pub first_split : Text → List Text → Result (Text × Text)
unfolding splits_at
first_split symbol [] = raised value_error
first_split symbol (quote ∷ quotes) =
    if splits_at symbol quote
    then ok (take (length symbol - length quote) symbol, quote)
    else first_split symbol quotes

unfoldable pub split_symbol : Text → List Text → Result (Text × Text)
unfolding first_split sort_quotes
split_symbol symbol quotes = first_split symbol (sort_quotes quotes)

-- An order that was sent; a buy with the candle that produced it.
pub data Order (D : Type 0) : Type 0 where
  bought : Text → ℕ → D → Order D
  sold : Text → D → Order D

pub record Runtime (D W : Type 0) : Type 0 where
  pub world : W
  pub guard : ProcessedCandleGuard
  pub buffer : ℕ
  pub orders : List (Order D)

-- `guard or ProcessedCandleGuard()`: a guard that has seen nothing is falsy by its `__len__`, so a new
-- object takes its place, and what is marked later is not seen in the one that was given.
unfoldable pub own_guard : Option ProcessedCandleGuard → ProcessedCandleGuard
unfolding guard_length
own_guard none = empty_guard
own_guard (some guard) = if guard_length guard == 0 then empty_guard else guard

module _ {D W : Type 0} where
  unfoldable pub init_runtime : Option ProcessedCandleGuard → ℕ → W → Runtime D W
  unfolding own_guard
  init_runtime guard candle_lookback_buffer world = record {
    world = world;
    guard = own_guard guard;
    buffer = candle_lookback_buffer;
    orders = [];
  }

  -- A call of a port: it changes the world.
  abbrev pub call : {A : Type 0} → Exec W A → Exec (Runtime D W) A
  call m r = let (a, w) = m r.world in (a, record r { world = w })

  -- An order is on record before its port is called, so also when the port raises.
  abbrev pub send : {A : Type 0} → Order D → Exec W A → Exec (Runtime D W) A
  send o m = do modify (λ (r : Runtime D W). record r { orders = o ∷ r.orders }); call m

-- `decision.evaluation.candle_open_time`, which a decision to buy always has
abbrev pub time_of : Option ℕ → Result ℕ
time_of none = raised type_error
time_of (some t) = ok t

module _ {F D W : Type 0} ⦃f : Num F⦄ ⦃d : Num D⦄ (ports : Ports F D W) where
  unfoldable pub fetch_candles :
      Text → CoinStrategyParameters F D → Exec (Runtime D W) (List (Candle F))
  fetch_candles symbol params = do
    r ← get_state
    call (ports.get_closed_candles symbol (min_candles_for_signal params + r.buffer))

  -- `candles if candles is not None else self._fetch_candles(…)`
  unfoldable pub given_or_fetched :
      Option (List (Candle F))
      → Text
      → CoinStrategyParameters F D
      → Exec (Runtime D W) (List (Candle F))
  unfolding fetch_candles
  given_or_fetched none symbol params = fetch_candles symbol params
  given_or_fetched (some candles) symbol params = pure candles

  -- The part of `try_enter` behind a decision to buy.
  unfoldable pub place_buy :
      Text
      → CoinStrategyParameters F D
      → D
      → Rates D
      → Option ℕ
      → Exec (Runtime D W) (Option (StrategyPosition F D))
  place_buy symbol params quote_amount commission_rates candle_open_time = do
    (base_asset, quote_asset) ← lift (split_symbol symbol default_quotes)
    time ← lift (time_of candle_open_time)
    fills ← send (bought symbol time quote_amount) (ports.market_buy symbol quote_amount)
    entry ← lift (aggregate_entry fills base_asset quote_asset commission_rates)
    modify (λ (r : Runtime D W). record r { guard = mark_processed r.guard symbol time })
    pure (some (open_position symbol params entry time))

  -- `if not decision.buy: return None`, and the rest of `try_enter`.
  unfoldable pub act_on :
      Text
      → CoinStrategyParameters F D
      → D
      → Rates D
      → BuyDecision F
      → Exec (Runtime D W) (Option (StrategyPosition F D))
  act_on symbol params quote_amount commission_rates decision = elim decision.buy [
    | false ↦ pure none
    | true ↦
        place_buy symbol params quote_amount commission_rates decision.evaluation.candle_open_time
  ]

  unfoldable pub try_enter :
      Text
      → CoinStrategyParameters F D
      → OperationalGates
      → D
      → RuntimeMode
      → Rates D
      → Option (List (Candle F))
      → Exec (Runtime D W) (Option (StrategyPosition F D))
  unfolding given_or_fetched act_on
  try_enter symbol params gates quote_amount mode commission_rates candles = do
    series ← given_or_fetched candles symbol params
    r ← get_state
    decision ← lift (evaluate_buy symbol series params gates (some r.guard) mode)
    act_on symbol params quote_amount commission_rates decision

  -- A position object with the runtime: what a method does to the position stays when it raises.
  abbrev pub WithPosition : Type 0
  WithPosition = Runtime D W × StrategyPosition F D

  abbrev pub on_runtime : {A : Type 0} → Exec (Runtime D W) A → Exec WithPosition A
  on_runtime m (r, p) = let (a, r') = m r in (a, (r', p))

  abbrev pub on_position : {A : Type 0} → Exec (StrategyPosition F D) A → Exec WithPosition A
  on_position m (r, p) = let (a, p') = m p in (a, (r, p'))

  -- `filters.round_quantity(sell_qty)` if there are filters
  abbrev pub sell_quantity : Option (SymbolFilters D) → D → D
  sell_quantity none qty = qty
  sell_quantity (some filters) qty = round_quantity filters qty

  -- The part of `try_exit` behind a decision to sell.
  unfoldable pub place_sell :
      Option (SymbolFilters D) → Rates D → Exec WithPosition (Option (RealizedPnL D))
  place_sell filters commission_rates = do
    (_, position) ← get_state
    (base_asset, quote_asset) ← lift (split_symbol position.symbol default_quotes)
    let sell_qty = sell_quantity filters position.entry.sellable_base_qty
    fills ←
        on_runtime
          (send (sold position.symbol sell_qty) (ports.market_sell position.symbol sell_qty))
    pnl ← lift (realized_pnl position.entry fills base_asset quote_asset commission_rates)
    on_position mark_closed
    pure (some pnl)

  -- `order_book if order_book is not None else …`
  unfoldable pub book_or_fetched : Option (OrderBook D) → Text → Exec (Runtime D W) (OrderBook D)
  book_or_fetched none symbol = call (ports.get_order_book symbol)
  book_or_fetched (some book) symbol = pure book

  unfoldable pub try_exit :
      ExitCostModel D
      → RuntimeMode
      → Option (SymbolFilters D)
      → Rates D
      → Option (List (Candle F))
      → Option (OrderBook D)
      → Exec WithPosition (Option (RealizedPnL D))
  unfolding given_or_fetched book_or_fetched place_sell
  try_exit cost_model mode filters commission_rates candles order_book = do
    (_, position) ← get_state
    series ← on_runtime (given_or_fetched candles position.symbol position.snapshot)
    book ← on_runtime (book_or_fetched order_book position.symbol)
    decision ← on_position (evaluate_exit series book cost_model mode)
    elim decision.sell [ false ↦ pure none | true ↦ place_sell filters commission_rates ]
