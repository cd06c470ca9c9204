-- ===== src/Crypto.antt =====
-- pqkms/app/crypto: suites, AES-GCM framing, hybrid signatures and the hybrid KEM, over the
-- primitives of `cryptography`, `argon2` and `oqs`, which are parameters.
pub mod Primitives
pub mod Suites
pub mod Aead
pub mod Signatures
pub mod Kem
