-- ===== src/Backtest/Runner.antt =====
-- src/cryptobot/backtest/runner.py: the replay, the paper account and executor, and the service over
-- them. `decimal_of` is `Decimal(str(x))` of a float.
use cryptobot_v.Prelude.{
  ℕ, ◌+◌, Option, none, some, List, [], ◌∷◌, ◌++◌, map, leb, ◌==◌, if◌then◌else◌, length,
}
use cryptobot_v.Prelude.Text.{Text, codes}
use cryptobot_v.Prelude.Result.{Result, ok, raised}
use cryptobot_v.Prelude.Exec.{Exec, pure, modify, ◌>>=◌, ◌>>◌}
use cryptobot_v.Number.{Num, ◌⊖◌, ◌≺◌, ◌≼◌, nought}
use cryptobot_v.Market.Candle.{Candle}
use cryptobot_v.Exchange.Fills.{Fill}
use cryptobot_v.Execution.Pnl.{make_cost_model}
use cryptobot_v.Strategy.Parameters.{CoinStrategyParameters}
use cryptobot_v.Strategy.Position.{invested_quote_cost}
use cryptobot_v.Runtime.Ports.{Ports}
use cryptobot_v.Runtime.Providers.{equal_slot_quote_amount}
use cryptobot_v.Runtime.Service.{
  Service, ServiceConfig, SizingPolicy, OperationalStatus, Exit, init_service, open_positions,
  request_withdrawal, tick,
}
use cryptobot_v.Runtime.Paper
use cryptobot_v.Runtime.Paper.{LedgerAccount, init_ledger, apply_report}
use cryptobot_v.Backtest.Replay.{
  ReplayMarketData, advance_to, set_index, get_closed_candles, get_order_book,
}

module _ {F D : Type 0} ⦃d : Num D⦄ where
  -- `_fixed_sizer`
  unfoldable pub fixed_sizer : D → SizingPolicy F D
  fixed_sizer amount params slots used =
      let remaining = params.capital_limit_usdt ⊖ used in
      if leb params.slot_count slots
      then nought
      else if remaining ≼ nought
      then nought
      else if amount ≼ remaining
      then amount
      else remaining

pub record BacktestTrade (D : Type 0) : Type 0 where
  pub symbol : Text
  pub entry_open_time : ℕ
  pub entry_price : D
  pub qty : D
  pub invested_quote : D
  pub net_pnl : D

pub record BacktestReport (D : Type 0) : Type 0 where
  pub symbol : Text
  pub trades : List (BacktestTrade D)
  pub starting_balance : D
  pub final_balance : D
  pub open_positions : ℕ

module _ {D : Type 0} ⦃d : Num D⦄ where
  unfoldable pub num_trades : BacktestReport D → ℕ
  num_trades r = length r.trades

  unfoldable pub total_net_pnl : BacktestReport D → D
  total_net_pnl r = d.sum (map (λ (t : BacktestTrade D). t.net_pnl) r.trades)

  unfoldable pub count_wins : List (BacktestTrade D) → ℕ
  count_wins [] = 0
  count_wins (t ∷ ts) = (if nought ≺ t.net_pnl then 1 else 0) + count_wins ts

  unfoldable pub count_losses : List (BacktestTrade D) → ℕ
  count_losses [] = 0
  count_losses (t ∷ ts) = (if t.net_pnl ≺ nought then 1 else 0) + count_losses ts

-- What lies behind the ports of a backtest.
pub record Simulation (F D : Type 0) : Type 0 where
  pub market : ReplayMarketData F D
  pub clock : ℕ
  pub account : LedgerAccount D

pub record Setup (F D : Type 0) : Type 0 where
  pub symbol : Text
  pub params : CoinStrategyParameters F D
  pub quote_per_order : Option D
  pub starting_balance : D
  pub fee_rate : D
  pub spread_frac : D
  pub safety_buffer_frac : D
  pub candle_buffer : Option ℕ
  pub withdrawal_at_index : Option ℕ
  pub status : OperationalStatus

module _ {F D : Type 0} ⦃f : Num F⦄ ⦃d : Num D⦄ (decimal_of : F → D) where
  -- A question to the simulation, which does not change it.
  abbrev pub ask : {A : Type 0} → (Simulation F D → Result A) → Exec (Simulation F D) A
  ask question w = (question w, w)

  -- `PaperExecution` of the replay: the book and the last candle that `_reference_price` asks for
  unfoldable pub simulated_buy : D → Text → D → Simulation F D → Result (List (Fill D))
  simulated_buy fee_rate symbol quote_amount w = elim (get_order_book decimal_of w.market symbol) [
    | raised e ↦ raised e
    | ok book ↦
        Paper.market_buy decimal_of (codes "USDT") fee_rate book
          (get_closed_candles w.market symbol 1) quote_amount
  ]

  unfoldable pub simulated_sell : D → Text → D → Simulation F D → Result (List (Fill D))
  simulated_sell fee_rate symbol base_qty w = elim (get_order_book decimal_of w.market symbol) [
    | raised e ↦ raised e
    | ok book ↦
        Paper.market_sell decimal_of (codes "USDT") fee_rate book
          (get_closed_candles w.market symbol 1) base_qty
  ]

  abbrev pub ports : D → Ports F D (Simulation F D)
  ports fee_rate = record {
    get_closed_candles = λ symbol limit. ask λ w. ok (get_closed_candles w.market symbol limit);
    get_order_book = λ symbol. ask λ w. get_order_book decimal_of w.market symbol;
    available_quote_balance = ask λ w. ok w.account.quote;
    used_capital = λ symbol. ask λ w. ok (Paper.used_capital w.account symbol);
    open_and_reserved_slots =
        λ symbol. ask λ w. ok (Paper.open_and_reserved_slots w.account symbol);
    market_buy = λ symbol amount. ask (simulated_buy fee_rate symbol amount);
    market_sell = λ symbol qty. ask (simulated_sell fee_rate symbol qty);
    now_ms = ask λ w. ok w.clock;
  }

  abbrev pub config_of : Setup F D → ℕ → ServiceConfig F D
  config_of setup buffer = record {
    coins = (setup.symbol, setup.params) ∷ [];
    cost_model = record {
      exit_fee_rate = setup.fee_rate;
      safety_buffer_frac = setup.safety_buffer_frac;
    };
    candle_buffer = buffer;
    max_data_lag_ms = 120_000;
    filters = [];
    commission_rates = none;
  }

  abbrev pub sizing_of : Setup F D → SizingPolicy F D
  sizing_of setup = elim setup.quote_per_order [
    | none ↦ equal_slot_quote_amount
    | some amount ↦ fixed_sizer amount
  ]

  abbrev pub trade_of : Exit F D → BacktestTrade D
  trade_of (position, pnl) = record {
    symbol = position.symbol;
    entry_open_time = position.entry_candle_open_time;
    entry_price = position.entry.avg_entry_price;
    qty = position.entry.filled_base_qty;
    invested_quote = invested_quote_cost position.entry;
    net_pnl = pnl.net_pnl;
  }

  abbrev pub State : Type 0
  State = Service F D (Simulation F D)

  abbrev pub in_world : (Simulation F D → Simulation F D) → State → State
  in_world g s = record s { runtime = record s.runtime { world = g s.runtime.world } }

  -- What the body of the loop does before the tick.
  unfoldable pub prepare : Option ℕ → ℕ → Candle F → State → State
  prepare withdrawal_at_index index candle s =
      let s' =
        in_world (λ w. record w { market = set_index index w.market; clock = advance_to candle })
          s in
      elim withdrawal_at_index [
        | none ↦ s'
        | some at ↦ if index == at then request_withdrawal s' else s'
      ]

  unfoldable pub backtest_step : Setup F D → ℕ → ℕ → Candle F → Exec State (List (BacktestTrade D))
  unfolding prepare
  backtest_step setup buffer index candle = do
    modify (prepare setup.withdrawal_at_index index candle)
    report ← tick (ports setup.fee_rate) (config_of setup buffer) (sizing_of setup) setup.status
    modify (in_world λ w. record w { account = apply_report report w.account })
    pure (map trade_of report.exits)

  -- The loop, from `index` on over the candles that are left.
  unfoldable pub backtest_loop :
      Setup F D → ℕ → ℕ → List (Candle F) → Exec State (List (BacktestTrade D))
  unfolding backtest_step
  backtest_loop setup buffer index [] = pure []
  backtest_loop setup buffer index (candle ∷ candles) = do
    trades ← backtest_step setup buffer index candle
    more ← backtest_loop setup buffer (index + 1) candles
    pure (trades ++ more)

  abbrev pub effective_buffer : Setup F D → List (Candle F) → ℕ
  effective_buffer setup candles = elim setup.candle_buffer [ none ↦ length candles | some b ↦ b ]

  unfoldable pub initial : Setup F D → List (Candle F) → State
  initial setup candles = init_service (config_of setup (effective_buffer setup candles)) (record {
    market = record {
      symbol = setup.symbol;
      series = candles;
      spread = setup.spread_frac;
      index = none;
    };
    clock = 0;
    account = init_ledger setup.starting_balance;
  })

  unfoldable pub run_backtest : Setup F D → List (Candle F) → Result (BacktestReport D)
  unfolding backtest_loop initial
  run_backtest setup candles =
      let (result, s) =
        backtest_loop setup (effective_buffer setup candles) 0 candles (initial setup candles) in
      let report : Result (BacktestReport D) = elim result [
        | raised e ↦ raised e
        | ok trades ↦ ok (record {
          symbol = setup.symbol;
          trades = trades;
          starting_balance = setup.starting_balance;
          final_balance = s.runtime.world.account.quote;
          open_positions = length (open_positions s setup.symbol);
        })
      ] in
      elim (make_cost_model (config_of setup 0).cost_model) [ raised e ↦ raised e | ok _ ↦ report ]
