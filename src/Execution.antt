-- ===== src/Execution.antt =====
-- Package internal/execution/model.
pub mod State
pub mod Order
pub mod Reports
pub mod Health
mod Tests
