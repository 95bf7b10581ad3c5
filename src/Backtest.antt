-- ===== src/Backtest.antt =====
-- src/cryptobot/backtest: the replay of a history through the service.
pub mod Replay
pub mod Runner
