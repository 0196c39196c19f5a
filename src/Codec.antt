-- ===== src/Codec.antt =====
-- packages/core/src: content identifiers, keys and detached signatures.
pub mod Base58
pub mod Base58Length
pub mod Base58Trip
pub mod Base64
pub mod Base64Trip
pub mod Cid
pub mod Digits
pub mod Horner
pub mod Jws
pub mod Raise
pub mod SignTrip
mod Tests
