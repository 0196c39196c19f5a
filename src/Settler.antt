-- ===== src/Settler.antt =====
-- packages/core/src/settler.ts: validating and executing requests.
pub mod Execute
pub mod Idempotency
pub mod Keys
pub mod Ledger
pub mod Checked
mod Tests
