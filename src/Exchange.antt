-- ===== src/Exchange.antt =====
-- src/cryptobot/exchange: fills, filters, decoded messages, the REST client and the stream.
pub mod Json
pub mod Fills
pub mod Filters
pub mod MarketData
pub mod Message
pub mod Stream
pub mod Rest
