-- ===== src/Proxy.antt =====
-- packages/mcp/src/proxy.ts: the engine of the proxy.
pub mod Message
pub mod State
pub mod Client
pub mod Server
pub mod Backed
pub mod Recorded
pub mod Gate
pub mod Counted
pub mod Once
mod Tests
