-- ===== src/Runtime/Ports.antt =====
-- src/cryptobot/runtime/ports.py: the four protocols as one record of operations on a world `W`, which
-- is all that lies outside the service. An operation may raise, and may change the world.
use cryptobot_v.Prelude.{ℕ, List}
use cryptobot_v.Prelude.Text.{Text}
use cryptobot_v.Prelude.Exec.{Exec}
use cryptobot_v.Market.Candle.{Candle}
use cryptobot_v.Execution.Orderbook.{OrderBook}
use cryptobot_v.Exchange.Fills.{Fill}

pub record Ports (F D W : Type 0) : Type 0 where
  -- MarketDataPort
  pub get_closed_candles : Text → ℕ → Exec W (List (Candle F))
  pub get_order_book : Text → Exec W (OrderBook D)
  -- AccountPort
  pub available_quote_balance : Exec W D
  pub used_capital : Text → Exec W D
  pub open_and_reserved_slots : Text → Exec W ℕ
  -- ExecutionPort
  pub market_buy : Text → D → Exec W (List (Fill D))
  pub market_sell : Text → D → Exec W (List (Fill D))
  -- ClockPort
  pub now_ms : Exec W ℕ
