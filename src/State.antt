-- ===== src/State.antt =====
-- Packages `crypto` and `state` (crypto/, channel/state/): signatures, states and their hashes.
pub mod Signature
pub mod Data
pub mod Equality
pub mod Library
pub mod Signing
pub mod Hashing
pub mod Recovery
pub mod Signed
