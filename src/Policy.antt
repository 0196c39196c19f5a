-- ===== src/Policy.antt =====
-- packages/mcp/src/policy.ts: policies of the proxy, their validation and compilation.
pub mod Rules
pub mod Compile
pub mod Match
pub mod Load
