-- ===== src/Tim.antt =====
-- packages/core/src/tim.ts: making and verifying TIMs.
pub mod Create
pub mod DidKey
pub mod DidTrip
pub mod Verify
pub mod Sealed
pub mod RoundTrip
pub mod Valid
pub mod DefaultResolver
mod Tests
