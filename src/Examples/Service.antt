-- ===== src/Examples/Service.antt =====
-- A service whose ports answer the same each time.
use cryptobot_v.Prelude.{◌≡◌, refl, true, none, some, List, [], ◌∷◌}
use cryptobot_v.Prelude.Result.{ok}
use cryptobot_v.Prelude.Exec.{pure}
use cryptobot_v.Number.Fixed.{ℤ, fixed, ◌*ℤ◌}
use cryptobot_v.Strategy.Position.{StrategyPosition, opened}
use cryptobot_v.Strategy.Engine.{running}
use cryptobot_v.Runtime.Ports.{Ports}
use cryptobot_v.Runtime.Orchestrator.{init_runtime, Runtime, try_enter, bought}
use cryptobot_v.Runtime.Orchestrator.Enter.{Enters, try_enter-Enters}
use cryptobot_v.Runtime.Once.{distinct_buys, run-distinct_buys}
use cryptobot_v.Runtime.Service.{
  Service, ServiceConfig, SizingPolicy, TickReport, run, tick, init_service, permissive,
}
use cryptobot_v.Execution.Gates.{empty_guard}
use cryptobot_v.Runtime.Service.{attempt, order_size, build_gates}
use cryptobot_v.Strategy.Engine.{evaluate_buy}
use cryptobot_v.Strategy.Entry.{evaluate_entry_signal, evaluate_at}
use cryptobot_v.Market.Validation.{validate_series}
use cryptobot_v.Prelude.Text.{text_eq}
use cryptobot_v.Strategy.Indicators.{compute_indicators, at}
use cryptobot_v.Indicators.Rsi.{compute_rsi}
use cryptobot_v.Indicators.RsiVwma.{compute_rsi_vwma}
use cryptobot_v.Indicators.Adx.{compute_adx}
use cryptobot_v.Indicators.Adr.{compute_adr}
use cryptobot_v.Number.Fixed.{sum_ℤ, ◌+ℤ◌, ◌-ℤ◌, ◌/ℤ◌}
use cryptobot_v.Strategy.Indicators.{is_complete}
use cryptobot_v.Strategy.Entry.{evaluate_entry_conditions}
use cryptobot_v.Execution.Gates.{all_open}
use cryptobot_v.Runtime.Providers.{is_market_data_fresh}
use cryptobot_v.Market.Validation.{is_valid_series}
use cryptobot_v.Strategy.Parameters.{min_candles_for_signal}
use cryptobot_v.Execution.Gates.{already_processed, mark_processed}
use cryptobot_v.Prelude.Dict.{get, put}
use cryptobot_v.Strategy.Engine.{processed_by, evaluate_exit}
use cryptobot_v.Runtime.Orchestrator.{init_runtime, place_buy, split_symbol, try_exit, act_on}
use cryptobot_v.Exchange.Fills.{aggregate_entry}
use cryptobot_v.Runtime.Service.{open_positions, add_position}
use cryptobot_v.Strategy.Exit.{update_exit_arming, should_sell_normal}
use cryptobot_v.Strategy.Position.{open_position}
use cryptobot_v.Examples.{num, btc_usdt, minutes, params}
use cryptobot_v.Examples.Trading.{open_gates, book, no_costs}

-- The candles of Examples.antt at each call, and a buy of one unit at 75.
abbrev pub ports : Ports ℤ ℤ (Unit {0})
ports = record {
  get_closed_candles = λ symbol limit. pure minutes;
  get_order_book = λ symbol. pure book;
  available_quote_balance = pure (num 1000);
  used_capital = λ symbol. pure (num 0);
  open_and_reserved_slots = λ symbol. pure 0;
  market_buy = λ symbol amount. pure (
      record { price = num 75; qty = num 1; commission = num 0; commission_asset = btc_usdt } ∷ []);
  market_sell = λ symbol qty. pure [];
  now_ms = pure 300_000;
}

abbrev pub config : ServiceConfig ℤ ℤ
config = record {
  coins = (btc_usdt, params) ∷ [];
  cost_model = no_costs;
  candle_buffer = 0;
  max_data_lag_ms = 90_000;
  filters = [];
  commission_rates = none;
}

abbrev pub sizing : SizingPolicy ℤ ℤ
sizing = λ params slots used. num 75

abbrev pub fresh : Runtime ℤ (Unit {0})
fresh = record { world = tt; guard = empty_guard; buffer = 0; orders = [] }

try_enter-Enters_example :
    Enters btc_usdt
      (num 75)
      empty_guard
      []
      (try_enter ports btc_usdt params open_gates (num 75) running none (some minutes) fresh)
try_enter-Enters_example =
    try_enter-Enters ports btc_usdt params open_gates (num 75) running none (some minutes) fresh

abbrev pub held : StrategyPosition ℤ ℤ
held = record {
  symbol = btc_usdt;
  snapshot = params;
  entry = record {
    filled_base_qty = num 1;
    avg_entry_price = num 75;
    true_entry_cost = num 75;
    entry_fees_quote = num 0;
    sellable_base_qty = num 1;
  };
  entry_candle_open_time = 240_000;
  state = opened;
  exit_armed_candle_open_time = none;
}

abbrev pub after_buy : Service ℤ ℤ (Unit {0})
after_buy = record {
  guard = empty_guard;
  runtime = record {
    world = tt;
    guard = record { seen = (btc_usdt, 240_000) ∷ [] };
    buffer = 0;
    orders = bought btc_usdt 240_000 (num 75) ∷ [];
  };
  positions = (btc_usdt, held ∷ []) ∷ [];
  mode = running;
}

abbrev pub reports : List (TickReport ℤ ℤ)
reports = record { entries = held ∷ []; exits = [] } ∷ record { entries = []; exits = [] } ∷ []

-- The candle is bought in the first of two ticks only.
two_ticks :
    run ports config sizing (permissive ∷ permissive ∷ []) (init_service config tt)
    ≡ (ok reports, after_buy)
unfolding run tick init_service init_runtime try_enter attempt order_size build_gates evaluate_buy
    evaluate_entry_signal evaluate_at validate_series text_eq compute_indicators at compute_rsi
    compute_rsi_vwma compute_adx compute_adr sum_ℤ ◌+ℤ◌ ◌-ℤ◌ ◌/ℤ◌ ◌*ℤ◌ is_complete
    evaluate_entry_conditions all_open is_market_data_fresh is_valid_series min_candles_for_signal
    already_processed mark_processed get put processed_by evaluate_exit place_buy split_symbol
    try_exit act_on aggregate_entry open_positions add_position update_exit_arming
    should_sell_normal open_position
two_ticks = refl

run-distinct_buys_example : distinct_buys after_buy.runtime.orders ≡ true
run-distinct_buys_example =
    run-distinct_buys ports config sizing (permissive ∷ permissive ∷ []) tt reports after_buy
      two_ticks
