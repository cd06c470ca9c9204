-- ===== src/Api.antt =====
-- pqkms/app/api: authentication of callers and authorization on keys.
pub mod Texts
pub mod Auth
pub mod Authz
pub mod Sessions
pub mod Oidc
pub mod Routes
