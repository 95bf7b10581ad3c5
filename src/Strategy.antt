-- ===== src/Strategy.antt =====
-- src/cryptobot/strategy: parameters, indicators of a series, positions, entry and exit rules.
pub mod Parameters
pub mod Indicators
pub mod Position
pub mod Entry
pub mod Exit
pub mod Engine
