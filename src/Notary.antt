-- ===== src/Notary.antt =====
-- scripts/lib/merkle.ts: the Notary's Merkle tree, finality and the receipt's state machine.
pub mod Merkle
pub mod Inclusion
pub mod Finality
mod Tests
