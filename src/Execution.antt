-- ===== src/Execution.antt =====
-- src/cryptobot/execution: the order book, the net-PnL estimate, and the gates before an order.
pub mod Orderbook
pub mod Gates
pub mod Pnl
