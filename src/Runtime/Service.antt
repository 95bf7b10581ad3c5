-- ===== src/Runtime/Service.antt =====
-- src/cryptobot/runtime/service.py. The local report of a tick is passed from step to step; it is lost
-- when a step raises, as in the program.
use cryptobot_v.Prelude.{
  ℕ, ◌+◌, Bool, true, false, not, ◌&&◌, ◌||◌, Option, none, some, List, [], ◌∷◌, ◌++◌, ltb, leb,
  is_empty, get_last?, length,
}
use cryptobot_v.Prelude.Text.{Text, text_eq}
use cryptobot_v.Prelude.Dict
use cryptobot_v.Prelude.Result.{ok, raised}
use cryptobot_v.Prelude.Exec.{Exec, pure, get_state, modify, ◌>>=◌, ◌>>◌}
use cryptobot_v.Number.{Num, ◌≺◌, ◌≼◌, nought}
use cryptobot_v.Market.Candle.{Candle}
use cryptobot_v.Market.Validation.{is_valid_series}
use cryptobot_v.Execution.Orderbook.{OrderBook}
use cryptobot_v.Execution.Pnl.{ExitCostModel}
use cryptobot_v.Execution.Gates.{
  OperationalGates, ProcessedCandleGuard, already_processed, empty_guard,
}
use cryptobot_v.Exchange.Fills.{Rates, RealizedPnL}
use cryptobot_v.Exchange.Filters.{SymbolFilters}
use cryptobot_v.Strategy.Parameters.{CoinStrategyParameters, min_candles_for_signal}
use cryptobot_v.Strategy.Position.{StrategyPosition}
use cryptobot_v.Strategy.Engine.{RuntimeMode, running, withdrawal_requested}
use cryptobot_v.Runtime.Ports.{Ports}
use cryptobot_v.Runtime.Orchestrator.{
  Runtime, init_runtime, WithPosition, call, try_enter, try_exit,
}
use cryptobot_v.Runtime.Providers.{is_market_data_fresh}

pub record OperationalStatus : Type 0 where
  pub runtime_running : Bool
  pub trading_enabled : Bool
  pub worker_holds_lease : Bool
  pub reconciliation_clean : Bool
  pub system_safe : Bool
  pub inactive_coins : List Text
  pub pending_delete_coins : List Text

-- `OperationalStatus()`
abbrev pub permissive : OperationalStatus
permissive = record {
  runtime_running = true;
  trading_enabled = true;
  worker_holds_lease = true;
  reconciliation_clean = true;
  system_safe = true;
  inactive_coins = [];
  pending_delete_coins = [];
}

-- `symbol in coins`
unfoldable pub contains : Text → List Text → Bool
contains symbol [] = false
contains symbol (c ∷ cs) = text_eq c symbol || contains symbol cs

pub record ServiceConfig (F D : Type 0) : Type 0 where
  pub coins : List (Text × CoinStrategyParameters F D)
  pub cost_model : ExitCostModel D
  pub candle_buffer : ℕ
  pub max_data_lag_ms : ℕ
  pub filters : List (Text × SymbolFilters D)
  pub commission_rates : Rates D

abbrev pub SizingPolicy : Type 0 → Type 0 → Type 0
SizingPolicy F D = CoinStrategyParameters F D → ℕ → D → D

abbrev pub Exit : Type 0 → Type 0 → Type 0
Exit F D = StrategyPosition F D × RealizedPnL D

pub record TickReport (F D : Type 0) : Type 0 where
  pub entries : List (StrategyPosition F D)
  pub exits : List (Exit F D)

-- `guard` is the service's own, which its gates read. The runtime gets it while it is empty and so makes
-- another (`own_guard`): the two are separate from the start, and only the runtime's is ever marked.
pub record Service (F D W : Type 0) : Type 0 where
  pub guard : ProcessedCandleGuard
  pub runtime : Runtime D W
  pub positions : List (Text × List (StrategyPosition F D))
  pub mode : RuntimeMode

module _ {F D : Type 0} where
  -- `{s: [] for s in config.coins}`
  abbrev pub no_positions :
      List (Text × CoinStrategyParameters F D) → List (Text × List (StrategyPosition F D))
  no_positions [] = []
  no_positions ((symbol, _) ∷ coins) = (symbol, []) ∷ no_positions coins

module _ {F D W : Type 0} where
  unfoldable pub init_service : ServiceConfig F D → W → Service F D W
  unfolding init_runtime
  init_service config world = record {
    guard = empty_guard;
    runtime = init_runtime (some empty_guard) config.candle_buffer world;
    positions = no_positions config.coins;
    mode = running;
  }

  unfoldable pub request_withdrawal : Service F D W → Service F D W
  request_withdrawal s = record s { mode = withdrawal_requested }

  unfoldable pub resume : Service F D W → Service F D W
  resume s = record s { mode = running }

  unfoldable pub open_positions : Service F D W → Text → List (StrategyPosition F D)
  open_positions s symbol = Dict.get_or symbol s.positions []

  -- An action of the runtime, on the service.
  abbrev pub on_runtime : {A : Type 0} → Exec (Runtime D W) A → Exec (Service F D W) A
  on_runtime m s = let (a, r) = m s.runtime in (a, record s { runtime = r })

module _ {F D W : Type 0} ⦃f : Num F⦄ ⦃d : Num D⦄ (ports : Ports F D W) (config : ServiceConfig F D)
    (sizing : SizingPolicy F D) where
  unfoldable pub candle_limit : CoinStrategyParameters F D → ℕ
  candle_limit params = min_candles_for_signal params + config.candle_buffer

  unfoldable pub order_size : Text → CoinStrategyParameters F D → Exec (Runtime D W) D
  order_size symbol params = do
    slots ← call (ports.open_and_reserved_slots symbol)
    used ← call (ports.used_capital symbol)
    pure (sizing params slots used)

  unfoldable pub symbol_filters_ok : Text → D → Bool
  symbol_filters_ok symbol order_quote = elim (Dict.get symbol config.filters) [
    | none ↦ true
    | some filt ↦ filt.min_notional ≼ order_quote
  ]

  -- `order_quote > 0 and self._account.available_quote_balance() >= order_quote`
  unfoldable pub balance_sufficient : D → Exec (Runtime D W) Bool
  balance_sufficient order_quote = elim (nought ≺ order_quote) [
    | false ↦ pure false
    | true ↦ (do balance ← call ports.available_quote_balance; pure (order_quote ≼ balance))
  ]

  -- `guard` is the service's `_guard`.
  unfoldable pub build_gates :
      ProcessedCandleGuard
      → Text
      → CoinStrategyParameters F D
      → List (Candle F)
      → D
      → OperationalStatus
      → Exec (Runtime D W) OperationalGates
  unfolding symbol_filters_ok balance_sufficient contains
  build_gates guard symbol params candles order_quote status = do
    now ← call ports.now_ms
    slots ← call (ports.open_and_reserved_slots symbol)
    used ← call (ports.used_capital symbol)
    sufficient ← balance_sufficient order_quote
    let unprocessed : Bool = elim (get_last? candles) [
      | none ↦ false
      | some c ↦ not (already_processed guard symbol c.open_time)
    ]
    pure (record {
      runtime_running = status.runtime_running;
      trading_enabled = status.trading_enabled;
      coin_active = not (contains symbol status.inactive_coins);
      coin_not_pending_delete = not (contains symbol status.pending_delete_coins);
      market_data_fresh = is_market_data_fresh candles now config.max_data_lag_ms;
      candles_contiguous = is_valid_series candles;
      indicators_ready = leb (min_candles_for_signal params) (length candles);
      not_already_processed = unprocessed;
      slot_available = ltb slots params.slot_count;
      capital_available = used ≺ params.capital_limit_usdt;
      usdt_balance_sufficient = sufficient;
      symbol_filters_ok = symbol_filters_ok symbol order_quote;
      worker_holds_lease = status.worker_holds_lease;
      reconciliation_clean = status.reconciliation_clean;
      system_safe = status.system_safe;
    })

  -- `self._positions[symbol].append(position)`
  unfoldable pub add_position : Text → StrategyPosition F D → Service F D W → Service F D W
  unfolding open_positions
  add_position symbol position s = record s {
    positions = Dict.put symbol (open_positions s symbol ++ position ∷ []) s.positions;
  }

  -- The runtime's part of the body of the first loop of `tick`.
  unfoldable pub attempt :
      ProcessedCandleGuard
      → OperationalStatus
      → RuntimeMode
      → Text
      → CoinStrategyParameters F D
      → Exec (Runtime D W) (Option (StrategyPosition F D))
  attempt guard status mode symbol params = do
    candles ← call (ports.get_closed_candles symbol (candle_limit params))
    order_quote ← order_size symbol params
    gates ← build_gates guard symbol params candles order_quote status
    try_enter ports symbol params gates order_quote mode config.commission_rates (some candles)

  -- The body of the first loop of `tick`: the positions that were opened, one at most.
  unfoldable pub enter_coin :
      OperationalStatus
      → Text
      → CoinStrategyParameters F D
      → Exec (Service F D W) (List (StrategyPosition F D))
  enter_coin status symbol params = do
    s ← get_state
    opened ← on_runtime (attempt s.guard status s.mode symbol params)
    elim opened [
      | none ↦ pure []
      | some position ↦ (do modify (add_position symbol position); pure (position ∷ []))
    ]

  unfoldable pub enter_coins :
      OperationalStatus
      → List (Text × CoinStrategyParameters F D)
      → Exec (Service F D W) (List (StrategyPosition F D))
  unfolding enter_coin
  enter_coins status [] = pure []
  enter_coins status ((symbol, params) ∷ coins) = do
    entries ← enter_coin status symbol params
    more ← enter_coins status coins
    pure (entries ++ more)

  -- An action on the object at the end of `before` in the symbol's list, which is changed in place.
  unfoldable pub on_object :
      Text
      → List (StrategyPosition F D)
      → List (StrategyPosition F D)
      → Exec (WithPosition ports) (Option (RealizedPnL D))
      → StrategyPosition F D
      → Exec (Service F D W) (StrategyPosition F D × Option (RealizedPnL D))
  on_object symbol before after m position s =
      let (a, (r, position')) = m (s.runtime, position) in
      let s' = record s {
        runtime = r;
        positions = Dict.put symbol (before ++ position' ∷ after) s.positions;
      } in
      (elim a [ ok pnl ↦ ok (position', pnl) | raised e ↦ raised e ], s')

  -- The loop over the open positions of a symbol: the exits, and the positions still open.
  unfoldable pub exit_loop :
      Text
      → List (Candle F)
      → OrderBook D
      → List (StrategyPosition F D)
      → List (StrategyPosition F D)
      → Exec (Service F D W) (List (Exit F D) × List (StrategyPosition F D))
  unfolding on_object
  exit_loop symbol candles book before [] = pure ([], [])
  exit_loop symbol candles book before (position ∷ after) = do
    s ← get_state
    (position', pnl) ←
        on_object symbol before after
          (try_exit ports config.cost_model s.mode (Dict.get symbol config.filters)
            config.commission_rates (some candles) (some book))
          position
    (exits, still_open) ← exit_loop symbol candles book (before ++ position' ∷ []) after
    elim pnl [
      | none ↦ pure (exits, position' ∷ still_open)
      | some realized ↦ pure ((position', realized) ∷ exits, still_open)
    ]

  -- The body of the second loop of `tick`.
  unfoldable pub exit_coin :
      Text → CoinStrategyParameters F D → Exec (Service F D W) (List (Exit F D))
  unfolding exit_loop
  exit_coin symbol params = do
    s ← get_state
    elim (is_empty (open_positions s symbol)) [
      | true ↦ pure []
      | false ↦ (do
        candles ← on_runtime (call (ports.get_closed_candles symbol (candle_limit params)))
        book ← on_runtime (call (ports.get_order_book symbol))
        (exits, still_open) ← exit_loop symbol candles book [] (open_positions s symbol)
        modify
            (λ (t : Service F D W). record t { positions = Dict.put symbol still_open t.positions })
        pure exits)
    ]

  unfoldable pub exit_coins :
      List (Text × CoinStrategyParameters F D) → Exec (Service F D W) (List (Exit F D))
  unfolding exit_coin
  exit_coins [] = pure []
  exit_coins ((symbol, params) ∷ coins) = do
    exits ← exit_coin symbol params
    more ← exit_coins coins
    pure (exits ++ more)

  -- `self._mode is RuntimeMode.RUNNING and status.runtime_running and status.trading_enabled`
  unfoldable pub entries_allowed : RuntimeMode → OperationalStatus → Bool
  entries_allowed running status = status.runtime_running && status.trading_enabled
  entries_allowed withdrawal_requested status = false

  unfoldable pub tick : OperationalStatus → Exec (Service F D W) (TickReport F D)
  unfolding enter_coins exit_coins entries_allowed
  tick status = do
    s ← get_state
    entries ← elim (entries_allowed s.mode status) [
      | true ↦ enter_coins status config.coins
      | false ↦ pure []
    ]
    exits ← exit_coins config.coins
    pure (record { entries = entries; exits = exits })

  -- `run`, without the pauses: a status for each tick.
  unfoldable pub run : List OperationalStatus → Exec (Service F D W) (List (TickReport F D))
  unfolding tick
  run [] = pure []
  run (status ∷ rest) = do report ← tick status; reports ← run rest; pure (report ∷ reports)
