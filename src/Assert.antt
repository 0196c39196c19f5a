-- ===== src/Assert.antt =====
-- packages/core/src/assert.ts: the assertion language of measures, from text to a tri-state result.
pub mod Syntax
pub mod Lexer
pub mod Parser
pub mod Eval
pub mod Total
pub mod Kleene
pub mod RoundTrip
mod Tests
