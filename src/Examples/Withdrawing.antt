-- ===== src/Examples/Withdrawing.antt =====
-- A position that is sold in withdrawal mode.
use cryptobot_v.Prelude.{◌≡◌, refl, true, none, some, List, [], ◌∷◌}
use cryptobot_v.Prelude.Text.{codes, text_eq}
use cryptobot_v.Prelude.Result.{ok}
use cryptobot_v.Prelude.Exec.{pure}
use cryptobot_v.Number.Fixed.{ℤ, fixed, ◌+ℤ◌, ◌-ℤ◌, ◌*ℤ◌, ◌/ℤ◌, sum_ℤ}
use cryptobot_v.Execution.Orderbook.{estimate_sell_proceeds, walk_bids}
use cryptobot_v.Execution.Pnl.{estimate_net_pnl}
use cryptobot_v.Exchange.Fills.{Fill, RealizedPnL, realized_pnl, total_fees, commission_in_quote}
use cryptobot_v.Strategy.Position.{invested_quote_cost}
use cryptobot_v.Strategy.Exit.{target_net_pnl}
use cryptobot_v.Strategy.Engine.{withdrawal_requested}
use cryptobot_v.Strategy.Engine.Exiting.{Pays}
use cryptobot_v.Runtime.Ports.{Ports}
use cryptobot_v.Runtime.Orchestrator.{split_symbol, default_quotes, try_exit}
use cryptobot_v.Runtime.Orchestrator.Withdraw.{Sells, withdrawal-Sells}
use cryptobot_v.Examples.{num, btc_usdt, minutes}
use cryptobot_v.Examples.Trading.{book, no_costs}
use cryptobot_v.Examples.Service
use cryptobot_v.Examples.Service.{fresh, held}

abbrev sell_fills : List (Fill ℤ)
sell_fills =
    record { price = num 90; qty = num 1; commission = num 0; commission_asset = codes "USDT" } ∷ []

abbrev selling : Ports ℤ ℤ (Unit {0})
selling = record Service.ports { market_sell = λ symbol qty. pure sell_fills }

held-Pays : Pays withdrawal_requested held book no_costs
unfolding estimate_net_pnl estimate_sell_proceeds walk_bids invested_quote_cost target_net_pnl ◌+ℤ◌
    ◌-ℤ◌ ◌*ℤ◌ ◌/ℤ◌
held-Pays = record {
  estimate = record {
    gross_proceeds = num 90;
    filled_qty = num 1;
    fully_filled = true;
    exit_fees = num 0;
    safety_buffer = num 0;
    invested_quote_cost = num 75;
    net_pnl = num 15;
  };
  computed = refl;
  enough = refl;
}

symbol_split : split_symbol btc_usdt default_quotes ≡ ok (codes "BTC", codes "USDT")
unfolding split_symbol text_eq
symbol_split = refl

abbrev profit : RealizedPnL ℤ
profit = record {
  gross_proceeds = num 90;
  exit_fees_quote = num 0;
  exit_qty = num 1;
  invested_quote_cost = num 75;
  net_pnl = num 15;
}

profit_made : realized_pnl held.entry sell_fills (codes "BTC") (codes "USDT") none ≡ ok profit
unfolding realized_pnl total_fees commission_in_quote invested_quote_cost text_eq ◌+ℤ◌ ◌-ℤ◌ ◌*ℤ◌
    ◌/ℤ◌ sum_ℤ
profit_made = refl

withdrawal-Sells_example : Sells selling none none fresh held profit (
    try_exit selling no_costs withdrawal_requested none none
      (some minutes)
      (some book)
      (fresh, held))
withdrawal-Sells_example =
    withdrawal-Sells selling none none minutes book no_costs fresh held (codes "BTC") (codes "USDT")
      sell_fills profit held-Pays symbol_split refl profit_made
