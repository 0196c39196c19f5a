-- ===== src/Conformance.antt =====
-- scripts/verify-artifacts.ts and scripts/sign-artifacts.ts: the conformance verifier and the signer
-- of examples and vectors.
pub mod Toolkit
pub mod Jcs
pub mod Agrees
pub mod Artifact
pub mod Sign
pub mod SignFile
pub mod Body
pub mod Signed
pub mod Witnessed
pub mod Accepted
pub mod Report
pub mod Exit
pub mod Vectors
pub mod Checks
pub mod Recomputed
pub mod Key
pub mod Algorithms
mod Tests
