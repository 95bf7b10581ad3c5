-- ===== src/Examples/Orders.antt =====
-- Exits, fills and symbols.
use cryptobot_v.Prelude.{◌↔◌, ◌≡◌, refl, none, some, List, [], ◌∷◌}
use cryptobot_v.Prelude.Result.{ok}
use cryptobot_v.Prelude.Text.{codes, text_eq}
use cryptobot_v.Number.Fixed.{ℤ, fixed, ◌+ℤ◌, ◌-ℤ◌, ◌*ℤ◌, ◌/ℤ◌, sum_ℤ}
use cryptobot_v.Strategy.Position.{RealizedEntry, exit_armed}
use cryptobot_v.Strategy.Engine.{running}
use cryptobot_v.Exchange.Fills.{Fill, aggregate_entry}
use cryptobot_v.Exchange.Fills.Entry.{IsEntry, Sums, aggregate_entry_iff}
use cryptobot_v.Runtime.Orchestrator.{try_exit}
use cryptobot_v.Runtime.Orchestrator.Leave.{Leaves, try_exit-Leaves}
use cryptobot_v.Examples.{num, minutes}
use cryptobot_v.Examples.Trading.{position_in, book, no_costs}
use cryptobot_v.Examples.Service.{ports, fresh}

try_exit-Leaves_example : Leaves ports none [] (position_in exit_armed) (
    try_exit ports no_costs running none none
      (some minutes)
      (some book)
      (fresh, position_in exit_armed))
try_exit-Leaves_example =
    try_exit-Leaves ports none no_costs running none (some minutes) (some book) fresh
      (position_in exit_armed)

-- Two fills, the second with its commission in the base asset.
abbrev two_fills : List (Fill ℤ)
two_fills =
    record { price = num 70; qty = num 2; commission = num 1; commission_asset = codes "USDT" }
    ∷ record { price = num 80; qty = num 2; commission = num 1; commission_asset = codes "BTC" }
    ∷ []

abbrev summed : RealizedEntry ℤ
summed = record {
  filled_base_qty = num 4;
  avg_entry_price = num 75;
  true_entry_cost = num 300;
  entry_fees_quote = num 76;
  sellable_base_qty = num 3;
}

two_fills-summed : aggregate_entry two_fills (codes "BTC") (codes "USDT") none ≡ ok summed
unfolding aggregate_entry ◌+ℤ◌ ◌-ℤ◌ ◌*ℤ◌ ◌/ℤ◌ sum_ℤ text_eq
two_fills-summed = refl

aggregate_entry_iff_example :
    (aggregate_entry two_fills (codes "BTC") (codes "USDT") none ≡ ok summed)
    ↔ (IsEntry summed × Sums two_fills (codes "BTC") (codes "USDT") none summed)
aggregate_entry_iff_example = aggregate_entry_iff two_fills (codes "BTC") (codes "USDT") none summed
