-- ===== src/Custody.antt =====
-- pqkms/app/custody: how the root key is kept at rest.
pub mod Json
pub mod Envelope
pub mod Passphrase
pub mod Factory
