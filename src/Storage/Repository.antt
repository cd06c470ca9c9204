-- ===== src/Storage/Repository.antt =====
-- pqkms/app/storage/repository.py: one action on the tables for each method. A unique index or a
-- primary key that an INSERT violates raises IntegrityError, and the transaction is rolled back.
pub mod Meta
pub mod Keys
pub mod Log
pub mod Tokens
pub mod Principals
pub mod Namespaces
pub mod Grants
