-- ===== src/Indicators.antt =====
-- src/cryptobot/indicators: RSI, RSI-VWMA, ADX and ADR. An entry that is `None` is `none`.
pub mod Rsi
pub mod RsiVwma
pub mod Adr
pub mod Adx
