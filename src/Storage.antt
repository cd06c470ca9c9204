-- ===== src/Storage.antt =====
-- pqkms/app/storage: the tables, the repository over them and the key store.
pub mod Schema
pub mod Repository
pub mod KeyStore
pub mod Audit
