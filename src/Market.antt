-- ===== src/Market.antt =====
-- src/cryptobot/market: the 1-minute candle and the checks of a candle series.
pub mod Candle
pub mod Validation
