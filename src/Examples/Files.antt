-- ===== src/Examples/Files.antt =====
-- Files: a history, a `.env` file and a configuration.
use cryptobot_v.Prelude.{
  ℕ, ◌≡◌, refl, ◌↔◌, ◌⊎◌, Bool, true, false, ◌||◌, none, some, List, [], ◌∷◌, arith, ◌==◌,
}
use cryptobot_v.Prelude.Text.{codes, text_eq, starts_with}
use cryptobot_v.Prelude.Dict
use cryptobot_v.Prelude.Result.{ok, ◌>>=◌}
use cryptobot_v.Prelude.Exec.{pure}
use cryptobot_v.Prelude.Gives.{ValueOf}
use cryptobot_v.Number.Fixed.{ℤ, fixed, ◌*ℤ◌, ◌/ℤ◌}
use cryptobot_v.Exchange.Json.{
  Json, str, num, obj, fields_of, each, elements, get_key, get_or, get, find,
}
use cryptobot_v.Exchange.Message.{is_in}
use cryptobot_v.Runtime.Service.{ServiceConfig}
use cryptobot_v.Fetch.{BatchFetcher, open_time_of, in_order, paginate}
use cryptobot_v.Fetch.Sorted.{Ascends, has, in_order_lem}
use cryptobot_v.Fetch.Complete.{IsHistory, paginate-IsHistory}
use cryptobot_v.Dotenv.{parse_line, load_dotenv}
use cryptobot_v.Dotenv.RoundTrip.{quoted_line, IsKey, IsSpacing, parse_line-quoted_line}
use cryptobot_v.Dotenv.Loaded.{IsLoaded, load_dotenv-IsLoaded}
use cryptobot_v.Execution.Pnl.{make_cost_model}
use cryptobot_v.Strategy.Parameters.{make_parameters}
use cryptobot_v.Cli.{
  object_items, each_entry, coin_params_from_dict, cost_model_from_dict, limit_of_pct,
  resolve_capital_limit, service_config_from_dict,
}
use cryptobot_v.Cli.Accepted.{
  IsAbsolute, Share, IsAccepted, resolve_capital_limit_iff, service_config-IsAccepted,
}
use cryptobot_v.Examples
use cryptobot_v.Examples.{btc_usdt}
use cryptobot_v.Examples.Decoding.{decoder, kline}

-- Two rows out of order, and one of them twice.
abbrev rows : List Json
rows =
    kline (codes "100") (codes "199") (codes "6")
    ∷ kline (codes "0") (codes "99") (codes "5")
    ∷ kline (codes "100") (codes "199") (codes "7")
    ∷ []

rows-times : each (open_time_of decoder) rows ≡ ok (100 ∷ 0 ∷ 100 ∷ [])
unfolding each open_time_of elements
rows-times = refl

in_order_lem_example :
    (sorted : List Json) × (us : List ℕ) × (in_order decoder rows ≡ ok sorted)
    × (each (open_time_of decoder) sorted ≡ ok us)
    × Ascends us
    × ((k : ℕ) → has k us ≡ has k (100 ∷ 0 ∷ 100 ∷ []))
in_order_lem_example = in_order_lem decoder rows (100 ∷ 0 ∷ 100 ∷ []) rows-times

-- An exchange that answers every request with the same rows.
abbrev fetch_batch : BatchFetcher (Unit {0})
fetch_batch symbol interval limit end_time = pure rows

paginate-IsHistory_example :
    ValueOf
      (IsHistory decoder fetch_batch btc_usdt (codes "1m") 5)
      (paginate decoder fetch_batch btc_usdt (codes "1m") 5 tt)
paginate-IsHistory_example = paginate-IsHistory decoder fetch_batch btc_usdt (codes "1m") 5 tt

abbrev is_space : ℕ → Bool
is_space c = (c == 32) || (c == 10)

secret-IsKey : IsKey is_space (codes "KEY")
unfolding starts_with
secret-IsKey = record {
  solid = (refl, (refl, (refl, tt)));
  no_equals = (ground arith, (ground arith, (ground arith, tt)));
  some_name = refl;
  no_comment = refl;
}

spacing : IsSpacing is_space
spacing = record { blank = refl; newline = refl; no_quote = refl }

parse_line-quoted_line_example :
    parse_line is_space (quoted_line (codes "KEY") (codes " a=#b "))
    ≡ some (codes "KEY", codes " a=#b ")
parse_line-quoted_line_example =
    parse_line-quoted_line is_space (codes "KEY") (codes " a=#b ") spacing secret-IsKey

load_dotenv-IsLoaded_example : IsLoaded false ((codes "KEY", codes "old") ∷ []) (
    load_dotenv is_space
      (some (quoted_line (codes "KEY") (codes "new") ∷ []))
      ((codes "KEY", codes "old") ∷ [])
      false)
load_dotenv-IsLoaded_example =
    load_dotenv-IsLoaded is_space false ((codes "KEY", codes "old") ∷ [])
      (some (quoted_line (codes "KEY") (codes "new") ∷ []))

abbrev quantize : ℤ → ℤ
quantize x = x

-- A coin that takes half of the balance
abbrev coin : Json
coin = obj (
    fields_of (
      (codes "rsi_oversold", num (codes "40"))
      ∷ (codes "rsi_overbought", num (codes "60"))
      ∷ (codes "adx_low", num (codes "0"))
      ∷ (codes "adx_high", num (codes "100"))
      ∷ (codes "min_net_profit_pct", str (codes "1"))
      ∷ (codes "rsi_period", num (codes "2"))
      ∷ (codes "rsi_ma_period", num (codes "2"))
      ∷ (codes "adx_period", num (codes "1"))
      ∷ (codes "adr_period", num (codes "1"))
      ∷ (codes "capital_pct", str (codes "50"))
      ∷ (codes "slot_count", num (codes "1"))
      ∷ []))

abbrev content : Json
content = obj (fields_of ((codes "coins", obj (fields_of ((btc_usdt, coin) ∷ []))) ∷ []))

resolve_capital_limit_iff_example :
    (resolve_capital_limit decoder quantize coin (some (Examples.num 200)) ≡ ok (Examples.num 100))
    ↔ (((is_in (codes "capital_limit_usdt") coin ≡ ok true)
          × (is_in (codes "capital_pct") coin ≡ ok false)
          × IsAbsolute decoder quantize coin (Examples.num 100))
        ⊎ ((is_in (codes "capital_limit_usdt") coin ≡ ok false)
            × (is_in (codes "capital_pct") coin ≡ ok true)
            × Share decoder quantize
                (get_key (codes "capital_pct") coin >>= decoder.decimal_of)
                (some (Examples.num 200))
                (Examples.num 100)))
resolve_capital_limit_iff_example =
    resolve_capital_limit_iff decoder quantize coin (some (Examples.num 200)) (Examples.num 100)

abbrev accepted : ServiceConfig ℤ ℤ
accepted = record {
  coins = (btc_usdt, Examples.params) ∷ [];
  cost_model = record { exit_fee_rate = Examples.num 0; safety_buffer_frac = Examples.num 0 };
  candle_buffer = 5;
  max_data_lag_ms = 120_000;
  filters = [];
  commission_rates = none;
}

content-accepted :
    service_config_from_dict decoder quantize content (some (Examples.num 200)) ≡ ok accepted
unfolding service_config_from_dict object_items each_entry coin_params_from_dict
    cost_model_from_dict resolve_capital_limit limit_of_pct is_in get_key get_or get find elements
    text_eq make_parameters make_cost_model Dict.put ◌*ℤ◌ ◌/ℤ◌
content-accepted = refl

service_config-IsAccepted_example : IsAccepted decoder quantize accepted
service_config-IsAccepted_example =
    service_config-IsAccepted decoder quantize content (some (Examples.num 200)) accepted
      content-accepted
