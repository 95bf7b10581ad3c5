-- ===== src/Runtime/Metrics.antt =====
-- src/cryptobot/runtime/metrics.py. The tracker is the list of its trades.
pub mod Serialized
pub mod Totals
pub mod Counts
use cryptobot_v.Prelude.{
  ℕ, ◌+◌, Option, none, some, List, [], ◌∷◌, ◌++◌, map, if◌then◌else◌, is_empty, length,
}
use cryptobot_v.Prelude.Text.{Text}
use cryptobot_v.Prelude.Result.{Result, ok, raised}
use cryptobot_v.Prelude.Exec.{Exec, pure, lift, ◌>>=◌}
use cryptobot_v.Number.{Num, ◌⊕◌, ◌⊘◌, ◌≺◌, nought}
use cryptobot_v.Execution.Orderbook.{OrderBook}
use cryptobot_v.Execution.Pnl.{ExitCostModel, estimate_net_pnl}
use cryptobot_v.Strategy.Position.{PositionState, StrategyPosition, invested_quote_cost}
use cryptobot_v.Runtime.Ports.{Ports}
use cryptobot_v.Runtime.Service.{Service, Exit, TickReport, open_positions}

pub record TradeRecord (D : Type 0) : Type 0 where
  pub symbol : Text
  pub entry_open_time : ℕ
  pub entry_price : D
  pub qty : D
  pub invested_quote : D
  pub net_pnl : D
  pub closed_at_ms : ℕ

pub record OpenPositionView (D : Type 0) : Type 0 where
  pub symbol : Text
  pub state : PositionState
  pub entry_price : D
  pub qty : D
  pub invested_quote : D
  pub estimated_net_pnl : Option D

pub record MetricsTracker (D : Type 0) : Type 0 where
  pub trades : List (TradeRecord D)

abbrev pub init_tracker : {D : Type 0} → MetricsTracker D
init_tracker = record { trades = [] }

module _ {F D : Type 0} ⦃d : Num D⦄ where
  unfoldable pub trade_of : ℕ → Exit F D → TradeRecord D
  trade_of now_ms (position, pnl) = record {
    symbol = position.symbol;
    entry_open_time = position.entry_candle_open_time;
    entry_price = position.entry.avg_entry_price;
    qty = position.entry.filled_base_qty;
    invested_quote = invested_quote_cost position.entry;
    net_pnl = pnl.net_pnl;
    closed_at_ms = now_ms;
  }

  unfoldable pub record_report : TickReport F D → ℕ → MetricsTracker D → MetricsTracker D
  unfolding trade_of
  record_report report now_ms m = record { trades = m.trades ++ map (trade_of now_ms) report.exits }

module _ {D : Type 0} where
  unfoldable pub num_trades : MetricsTracker D → ℕ
  num_trades m = length m.trades

module _ {D : Type 0} ⦃d : Num D⦄ where
  unfoldable pub realized_net_pnl : MetricsTracker D → D
  realized_net_pnl m = d.sum (map (λ (t : TradeRecord D). t.net_pnl) m.trades)

  abbrev pub won : List (TradeRecord D) → ℕ
  won [] = 0
  won (t ∷ ts) = (if nought ≺ t.net_pnl then 1 else 0) + won ts

  abbrev pub lost : List (TradeRecord D) → ℕ
  lost [] = 0
  lost (t ∷ ts) = (if t.net_pnl ≺ nought then 1 else 0) + lost ts

  unfoldable pub wins : MetricsTracker D → ℕ
  wins m = won m.trades

  unfoldable pub losses : MetricsTracker D → ℕ
  losses m = lost m.trades

-- `wins / num_trades`, a float
unfoldable pub win_rate : {F D : Type 0} ⦃f : Num F⦄ ⦃d : Num D⦄ → MetricsTracker D → F
unfolding wins num_trades
win_rate {F} ⦃f⦄ m = if is_empty m.trades then f.of_ℕ 0 else f.of_ℕ (wins m) ⊘ f.of_ℕ (num_trades m)

pub record StatusSnapshot (F D : Type 0) : Type 0 where
  pub generated_at_ms : ℕ
  pub available_quote : D
  pub open_positions : List (OpenPositionView D)
  pub open_invested_quote : D
  pub estimated_unrealized_net_pnl : D
  pub realized_trades : ℕ
  pub realized_net_pnl : D
  pub wins : ℕ
  pub losses : ℕ
  pub win_rate : F

-- The three variables that the loops of `build_status` change.
pub record Tally (D : Type 0) : Type 0 where
  pub views : List (OpenPositionView D)
  pub open_invested : D
  pub unrealized : D

module _ {F D : Type 0} ⦃d : Num D⦄ where
  -- No estimate without bids.
  unfoldable pub estimated :
      ExitCostModel D → StrategyPosition F D → OrderBook D → Result (Option D)
  estimated cost_model position book = elim book.bids [
    | [] ↦ ok none
    | level ∷ levels ↦ elim (estimate_net_pnl position book cost_model) [
      | raised e ↦ raised e
      | ok estimate ↦ ok (some estimate.net_pnl)
    ]
  ]

  unfoldable pub view_of : Text → StrategyPosition F D → Option D → OpenPositionView D
  view_of symbol position estimate = record {
    symbol = symbol;
    state = position.state;
    entry_price = position.entry.avg_entry_price;
    qty = position.entry.filled_base_qty;
    invested_quote = invested_quote_cost position.entry;
    estimated_net_pnl = estimate;
  }

module _ {F D W : Type 0} ⦃f : Num F⦄ ⦃d : Num D⦄ (ports : Ports F D W)
    (cost_model : ExitCostModel D) where
  -- The body of the inner loop.
  unfoldable pub tally_position : Text → StrategyPosition F D → Tally D → Exec W (Tally D)
  unfolding estimated view_of
  tally_position symbol position t = do
    book ← ports.get_order_book symbol
    estimate ← lift (estimated cost_model position book)
    pure (record {
      views = t.views ++ view_of symbol position estimate ∷ [];
      open_invested = t.open_invested ⊕ invested_quote_cost position.entry;
      unrealized = elim estimate [ none ↦ t.unrealized | some e ↦ t.unrealized ⊕ e ];
    })

  unfoldable pub tally_positions : Text → List (StrategyPosition F D) → Tally D → Exec W (Tally D)
  unfolding tally_position
  tally_positions symbol [] t = pure t
  tally_positions symbol (position ∷ positions) t = do
    t' ← tally_position symbol position t
    tally_positions symbol positions t'

  unfoldable pub tally_symbols : Service F D W → List Text → Tally D → Exec W (Tally D)
  unfolding tally_positions open_positions
  tally_symbols service [] t = pure t
  tally_symbols service (symbol ∷ symbols) t = do
    t' ← tally_positions symbol (open_positions service symbol) t
    tally_symbols service symbols t'

  unfoldable pub build_status :
      List Text → Service F D W → MetricsTracker D → ℕ → Exec W (StatusSnapshot F D)
  unfolding tally_symbols num_trades realized_net_pnl wins losses win_rate
  build_status symbols service metrics now_ms = do
    t ←
        tally_symbols service symbols
          (record { views = []; open_invested = nought; unrealized = nought })
    available_quote ← ports.available_quote_balance
    pure (record {
      generated_at_ms = now_ms;
      available_quote = available_quote;
      open_positions = t.views;
      open_invested_quote = t.open_invested;
      estimated_unrealized_net_pnl = t.unrealized;
      realized_trades = num_trades metrics;
      realized_net_pnl = realized_net_pnl metrics;
      wins = wins metrics;
      losses = losses metrics;
      win_rate = win_rate metrics;
    })
