-- ===== src/Cli.antt =====
-- src/cryptobot/cli.py: the configuration file, the backtests and the guard of the live mode. `quantize` is
-- `Decimal.quantize` to eight decimal places; the arguments are given as they are parsed.
pub mod Accepted
pub mod Paper
use cryptobot_v.Prelude.{
  ℕ, Bool, true, false, not, ◌&&◌, ◌||◌, Option, none, some, List, [], ◌∷◌, is_empty, if◌then◌else◌,
}
use cryptobot_v.Prelude.Text.{Text, codes}
use cryptobot_v.Prelude.Dict
use cryptobot_v.Prelude.Result.{Result, ok, raised, value_error, type_error, raise_if, ◌>>=◌, ◌>>◌}
use cryptobot_v.Number.{Num, ◌⊗◌, ◌⊘◌, ◌≺◌, ◌≼◌, nought}
use cryptobot_v.Market.Candle.{Candle}
use cryptobot_v.Execution.Pnl.{ExitCostModel, make_cost_model}
use cryptobot_v.Exchange.Json.{Json, num, str, obj, no_fields, field_list, Decoder, get_or, get_key}
use cryptobot_v.Exchange.Message.{is_in}
use cryptobot_v.Exchange.MarketData.{parse_klines}
use cryptobot_v.Strategy.Parameters.{CoinStrategyParameters, make_parameters}
use cryptobot_v.Runtime.Service.{ServiceConfig, permissive}
use cryptobot_v.Backtest.Runner.{Setup, BacktestReport, run_backtest}

module _ {A : Type 0} where
  -- The entries of a dictionary: a key that comes again replaces the value.
  abbrev put_all : List (Text × A) → List (Text × A) → List (Text × A)
  put_all [] d = d
  put_all ((k, v) ∷ entries) d = put_all entries (Dict.put k v d)

-- `x.items()`
unfoldable pub object_items : Json → Result (List (Text × Json))
object_items (obj fields) = ok (put_all (field_list fields) [])
object_items _ = raised type_error

module _ {A : Type 0} where
  -- `{key: f(key, value) for key, value in items}`
  unfoldable pub each_entry :
      (Text → Json → Result A) → List (Text × Json) → Result (List (Text × A))
  each_entry f [] = ok []
  each_entry f ((key, value) ∷ items) = do
    x ← f key value
    rest ← each_entry f items
    ok ((key, x) ∷ rest)

module _ {D : Type 0} ⦃d : Num D⦄ (quantize : D → D) where
  -- `capital_pct` of the total
  unfoldable pub limit_of_pct : D → Option D → Result D
  limit_of_pct pct total_quote = do
    raise_if (not ((nought ≺ pct) && (pct ≼ d.of_ℕ 100))) value_error
    elim total_quote [
      | none ↦ raised value_error
      | some total ↦ ok (quantize (total ⊗ pct ⊘ d.of_ℕ 100))
    ]

module _ {F D : Type 0} ⦃f : Num F⦄ ⦃d : Num D⦄ (dec : Decoder F D) where
  -- The rates of the `cost_model` entry
  unfoldable pub cost_model_from_dict : Json → Result (ExitCostModel D)
  cost_model_from_dict cm = do
    exit_fee_rate ← get_or (codes "exit_fee_rate") cm (str (codes "0")) >>= dec.decimal_of
    safety_buffer_frac ← get_or (codes "safety_buffer_frac") cm (str (codes "0")) >>= dec.decimal_of
    make_cost_model
        (record { exit_fee_rate = exit_fee_rate; safety_buffer_frac = safety_buffer_frac })

  -- `load_klines_file`, of the decoded file
  unfoldable pub load_klines_file : Json → Result (List (Text × List (Candle F)))
  unfolding object_items each_entry
  load_klines_file content = do
    items ← object_items content
    each_entry (λ symbol rows. parse_klines dec rows symbol none true) items

module _ {F D : Type 0} ⦃f : Num F⦄ ⦃d : Num D⦄ (dec : Decoder F D) (quantize : D → D) where
  -- `_resolve_capital_limit`
  unfoldable pub resolve_capital_limit : Json → Option D → Result D
  unfolding limit_of_pct
  resolve_capital_limit config total_quote = do
    has_abs ← is_in (codes "capital_limit_usdt") config
    has_pct ← is_in (codes "capital_pct") config
    raise_if (has_abs && has_pct) value_error
    elim has_abs [
      | true ↦ get_key (codes "capital_limit_usdt") config >>= dec.decimal_of
      | false ↦ elim has_pct [
        | true ↦ (do
          pct ← get_key (codes "capital_pct") config >>= dec.decimal_of
          limit_of_pct quantize pct total_quote)
        | false ↦ raised value_error
      ]
    ]

  unfoldable pub coin_params_from_dict : Json → Option D → Result (CoinStrategyParameters F D)
  unfolding resolve_capital_limit
  coin_params_from_dict config total_quote = do
    rsi_oversold ← get_key (codes "rsi_oversold") config >>= dec.float_of
    rsi_overbought ← get_key (codes "rsi_overbought") config >>= dec.float_of
    adx_low ← get_key (codes "adx_low") config >>= dec.float_of
    adx_high ← get_key (codes "adx_high") config >>= dec.float_of
    min_net_profit_pct ← get_key (codes "min_net_profit_pct") config >>= dec.decimal_of
    rsi_period ← get_key (codes "rsi_period") config >>= dec.int_of
    rsi_ma_period ← get_key (codes "rsi_ma_period") config >>= dec.int_of
    adx_period ← get_key (codes "adx_period") config >>= dec.int_of
    adr_period ← get_key (codes "adr_period") config >>= dec.int_of
    capital_limit_usdt ← resolve_capital_limit config total_quote
    slot_count ← get_key (codes "slot_count") config >>= dec.int_of
    make_parameters (record {
      rsi_oversold = rsi_oversold;
      rsi_overbought = rsi_overbought;
      adx_low = adx_low;
      adx_high = adx_high;
      min_net_profit_pct = min_net_profit_pct;
      rsi_period = rsi_period;
      rsi_ma_period = rsi_ma_period;
      adx_period = adx_period;
      adr_period = adr_period;
      capital_limit_usdt = capital_limit_usdt;
      slot_count = slot_count;
    })

  unfoldable pub service_config_from_dict : Json → Option D → Result (ServiceConfig F D)
  unfolding object_items each_entry coin_params_from_dict cost_model_from_dict
  service_config_from_dict config total_quote = do
    items ← get_key (codes "coins") config >>= object_items
    coins ← each_entry (λ key value. coin_params_from_dict value total_quote) items
    cm ← get_or (codes "cost_model") config (obj no_fields)
    cost_model ← cost_model_from_dict dec cm
    candle_buffer ← get_or (codes "candle_buffer") config (num (codes "5")) >>= dec.int_of
    ok (record {
      coins = coins;
      cost_model = cost_model;
      candle_buffer = candle_buffer;
      max_data_lag_ms = 120_000;
      filters = [];
      commission_rates = none;
    })

-- The arguments that `_run_backtest` passes on
pub record BacktestArgs (D : Type 0) : Type 0 where
  pub quote_per_order : Option D
  pub quote_balance : D

module _ {F D : Type 0} ⦃f : Num F⦄ ⦃d : Num D⦄ (decimal_of : F → D) where
  abbrev pub setup_of :
      BacktestArgs D → ExitCostModel D → Text → CoinStrategyParameters F D → Setup F D
  setup_of args cost_model symbol params = record {
    symbol = symbol;
    params = params;
    quote_per_order = args.quote_per_order;
    starting_balance = args.quote_balance;
    fee_rate = cost_model.exit_fee_rate;
    spread_frac = nought;
    safety_buffer_frac = cost_model.safety_buffer_frac;
    candle_buffer = none;
    withdrawal_at_index = none;
    status = permissive;
  }

  -- `_run_backtest`: the reports that are printed; a coin without candles is skipped.
  unfoldable pub run_backtests :
      BacktestArgs D
      → ExitCostModel D
      → List (Text × List (Candle F))
      → List (Text × CoinStrategyParameters F D)
      → Result (List (BacktestReport D))
  unfolding run_backtest
  run_backtests args cost_model klines [] = ok []
  run_backtests args cost_model klines ((symbol, params) ∷ coins) =
      let candles = Dict.get_or symbol klines [] in
      elim (is_empty candles) [
        | true ↦ run_backtests args cost_model klines coins
        | false ↦ (do
          report ← run_backtest decimal_of (setup_of args cost_model symbol params) candles
          reports ← run_backtests args cost_model klines coins
          ok (report ∷ reports))
      ]

-- Whether `_run_live` refuses to start: a key is missing, or real money is not confirmed.
unfoldable pub live_refused : Text → Text → Bool → Bool → Bool
live_refused api_key api_secret testnet yes_trade_real_money =
    (is_empty api_key || is_empty api_secret) || (not testnet && not yes_trade_real_money)

unfoldable pub live_base_url : Bool → Text → Text
live_base_url testnet base_url =
    if testnet then codes "https://testnet.binance.vision" else base_url
