-- ===== src/Tests.antt =====
-- Runs on concrete inputs, with primitives that are small enough to compute.
pub mod Sessions
pub mod Oidc
pub mod Toy
pub mod Crypto
pub mod Store
pub mod Log
pub mod Access
pub mod Routes
pub mod Codec
pub mod Custody
pub mod Commands
