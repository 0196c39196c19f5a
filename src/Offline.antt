-- ===== src/Offline.antt =====
-- packages/mcp/src/verify.ts: the verification of an audit bundle without a network.
pub mod Values
pub mod Views
pub mod Checks
pub mod Call
pub mod Verify
pub mod Signed
pub mod Sound
pub mod Valid
mod Tests
