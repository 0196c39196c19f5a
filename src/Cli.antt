-- ===== src/Cli.antt =====
-- packages/mcp/src/cli.ts: the command line of the proxy.
pub mod Chunks
pub mod Lines
pub mod Keys
pub mod Args
mod Tests
