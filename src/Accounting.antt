-- ===== src/Accounting.antt =====
-- Positions of internal/accounting: the engine that applies fills to a position.
pub mod Transition
pub mod Position
pub mod Fill
pub mod Ingestion
pub mod Engine
mod Tests
