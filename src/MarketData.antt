-- ===== src/MarketData.antt =====
-- Package internal/marketdata: events, their order on the way in, and the latest quotes.
pub mod Event
pub mod Order
pub mod Ordering
pub mod Latest
mod Tests
