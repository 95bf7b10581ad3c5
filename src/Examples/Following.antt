-- ===== src/Examples/Following.antt =====
-- Accounts that follow reports, the reconciliation, and what a status shows.
use cryptobot_v.Prelude.{◌≡◌, refl, ◌↔◌, ◌⊎◌, true, false, Option, none, some, List, [], ◌∷◌, All}
use cryptobot_v.Prelude.Text.{Text, codes, text_eq}
use cryptobot_v.Prelude.Result.{ok}
use cryptobot_v.Prelude.Exec.{pure}
use cryptobot_v.Number.Fixed.{◌+ℤ◌, sum_ℤ, ℤ, fixed}
use cryptobot_v.Exchange.Json.{get_or, get, find, elements, each, text_key}
use cryptobot_v.Exchange.Fills.{RealizedPnL}
use cryptobot_v.Runtime.Service.{open_positions, permissive, tick}
use cryptobot_v.Runtime.Halted.{buys, tick-no_buys}
use cryptobot_v.Prelude.Dict
use cryptobot_v.Strategy.Position.{opened, invested_quote_cost}
use cryptobot_v.Runtime.Ports.{Ports}
use cryptobot_v.Runtime.Paper
use cryptobot_v.Runtime.Paper.{LedgerAccount, init_ledger}
use cryptobot_v.Runtime.Live
use cryptobot_v.Runtime.Live.{
  BinanceAccount, ReconcileResult, init_account, free_balances, reconcile_positions,
}
use cryptobot_v.Runtime.Live.Covered.{Covers, reconcile_positions_clean_iff}
use cryptobot_v.Runtime.Live.Ledger.{all_live, all_paper, apply_reports-Agree}
use cryptobot_v.Runtime.Live.Loop.{live_tick, build_live_service}
use cryptobot_v.Runtime.Live.Guarded.{FoundCovered, live_tick-buys}
use cryptobot_v.Runtime.Metrics.{
  tally_position, estimated, view_of, realized_net_pnl, win_rate, init_tracker, build_status,
  num_trades, wins, losses, tally_symbols, tally_positions, StatusSnapshot,
}
use cryptobot_v.Runtime.Metrics.Totals.{IsAccurate, build_status-IsAccurate}
use cryptobot_v.Runtime.Metrics.Counts.{IsAccount, all_recorded, all_recorded-IsAccount}
use cryptobot_v.Examples.{num, btc_usdt}
use cryptobot_v.Examples.Trading.{no_costs}
use cryptobot_v.Examples.Service.{ports, config, sizing, held, after_buy, reports}
use cryptobot_v.Examples.Decoding.{decoder, account_json, answering}

tick-no_buys_example :
    buys
      (tick ports config sizing
        (record permissive { trading_enabled = false })
        after_buy).1.runtime.orders
    ≡ buys after_buy.runtime.orders
tick-no_buys_example =
    tick-no_buys ports config sizing (record permissive { trading_enabled = false }) after_buy refl

abbrev free : List (Option Text × ℤ)
free = (some (codes "BTC"), num 2) ∷ (some (codes "USDT"), num 500) ∷ []

account-free : free_balances decoder account_json ≡ ok free
unfolding free_balances get_or get find elements each text_key text_eq
account-free = refl

reconcile_positions_clean_iff_example :
    ((r : ReconcileResult ℤ) × (reconcile_positions decoder account_json
          ((btc_usdt, held ∷ []) ∷ [])
          (num 0)
        ≡ ok r)
      × (r.clean ≡ true))
    ↔ All (Covers free (num 0)) ((btc_usdt, held ∷ []) ∷ [])
reconcile_positions_clean_iff_example =
    reconcile_positions_clean_iff decoder account_json free ((btc_usdt, held ∷ []) ∷ []) (num 0)
      account-free

abbrev gain : RealizedPnL ℤ
gain = record {
  gross_proceeds = num 80;
  exit_fees_quote = num 0;
  exit_qty = num 1;
  invested_quote_cost = num 75;
  net_pnl = num 5;
}

abbrev binance : BinanceAccount ℤ
binance = record { quote_asset = codes "USDT"; balance = none; used = []; slots = [] }

abbrev ledger : LedgerAccount ℤ
ledger = record { quote = num 500; used = []; slots = [] }

apply_reports-Agree_example :
    (Live.used_capital (all_live reports binance) btc_usdt
      ≡ Paper.used_capital (all_paper reports ledger) btc_usdt)
    × (Live.open_and_reserved_slots (all_live reports binance) btc_usdt
        ≡ Paper.open_and_reserved_slots (all_paper reports ledger) btc_usdt)
apply_reports-Agree_example = apply_reports-Agree reports binance ledger btc_usdt (refl, refl)

text : ℤ → Text
text x = []

live_tick-buys_example :
    (buys
        (live_tick decoder text
          (answering account_json)
          (pure 150)
          (codes "1m")
          config
          sizing
          (btc_usdt ∷ [])
          permissive
          (num 0)
          (build_live_service config (codes "USDT") tt)).1.runtime.orders
      ≡ buys (build_live_service config (codes "USDT") tt).runtime.orders)
    ⊎ FoundCovered decoder
        (answering account_json)
        (btc_usdt ∷ [])
        (num 0)
        (build_live_service config (codes "USDT") tt)
live_tick-buys_example =
    live_tick-buys decoder text (answering account_json) (pure 150) (codes "1m") config sizing
      (btc_usdt ∷ []) permissive (num 0) (build_live_service config (codes "USDT") tt)

all_recorded-IsAccount_example :
    IsAccount ℤ
      (all_recorded ((record { entries = []; exits = (held, gain) ∷ [] }, 7) ∷ []) init_tracker)
      (gain.net_pnl ∷ [])
all_recorded-IsAccount_example =
    all_recorded-IsAccount ((record { entries = []; exits = (held, gain) ∷ [] }, 7) ∷ [])

abbrev empty_book_ports : Ports ℤ ℤ (Unit {0})
empty_book_ports = record ports {
  get_order_book = λ symbol. pure (record { bids = []; asks = [] });
}

abbrev shown_status : StatusSnapshot ℤ ℤ
shown_status = record {
  generated_at_ms = 7;
  available_quote = num 1000;
  open_positions =
      record {
        symbol = btc_usdt;
        state = opened;
        entry_price = num 75;
        qty = num 1;
        invested_quote = num 75;
        estimated_net_pnl = none;
      }
      ∷ [];
  open_invested_quote = num 75;
  estimated_unrealized_net_pnl = num 0;
  realized_trades = 0;
  realized_net_pnl = num 0;
  wins = 0;
  losses = 0;
  win_rate = num 0;
}

status_built :
    (build_status empty_book_ports no_costs (btc_usdt ∷ []) after_buy init_tracker 7 tt).0
    ≡ ok shown_status
unfolding build_status tally_symbols tally_positions tally_position estimated view_of open_positions
    invested_quote_cost num_trades realized_net_pnl wins losses win_rate Dict.get text_eq ◌+ℤ◌ sum_ℤ
status_built = refl

build_status-IsAccurate_example :
    IsAccurate empty_book_ports no_costs after_buy (btc_usdt ∷ []) shown_status
build_status-IsAccurate_example =
    build_status-IsAccurate empty_book_ports no_costs (btc_usdt ∷ []) after_buy init_tracker 7 tt
      shown_status status_built
