-- ===== src/Kernel.antt =====
-- packages/core/src/kernel.ts: a commitment and evidence to a decision.
pub mod Types
pub mod View
pub mod Duration
pub mod Select
pub mod Evaluate
pub mod Approval
pub mod Latest
mod Tests
