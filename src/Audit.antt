-- ===== src/Audit.antt =====
-- packages/mcp/src/audit.ts: the signed records of a tool call.
pub mod Evidence
pub mod Artifacts
pub mod Symbols
pub mod Bundle
pub mod Signed
mod Tests
