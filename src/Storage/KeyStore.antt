-- ===== src/Storage/KeyStore.antt =====
-- pqkms/app/storage/keystore.py: the key store, an action on the database and the root key for
-- each method. What a method draws at random, and the time, are in its first argument.
pub mod Material
pub mod Bootstrap
pub mod Lifecycle
pub mod Life
pub mod Rotation
pub mod Operations
pub mod Keeps
pub mod Reach
pub mod Budget
pub mod Counted
pub mod Spent
pub mod Sealed
pub mod Unlock
pub mod Rewrap
pub mod Legacy
pub mod Stored
pub mod Decrypt
pub mod Gate
