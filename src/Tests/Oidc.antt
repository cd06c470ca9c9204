-- ===== src/Tests/Oidc.antt =====
-- A login of an administrator.
use kmsqr.Base.{[], bytes_eq, codes, false, if◌then◌else◌, none, refl, some, str_eq, true, ◌∷◌, ◌≡◌}
use kmsqr.Api.Texts.{lstrip, split, strip}
use kmsqr.Api.Oidc.{
  Environment, OidcConfig, claims_to_scopes, enabled_config, from_env, groups_of, unknown_scope,
}
use kmsqr.Api.Oidc.Scopes.{Origin, claims_to_scopes-from_env}
use kmsqr.Custody.Json.{Fields, end, field, strs}
use kmsqr.Tests.Sessions.{py}

abbrev env : Environment
env name =
    if str_eq name "PQKMS_OIDC_ENABLED"
    then some "yes"
    else if str_eq name "PQKMS_OIDC_ISSUER"
    then some "i/"
    else if str_eq name "PQKMS_OIDC_CLIENT_ID"
    then some "c"
    else if str_eq name "PQKMS_OIDC_CLIENT_SECRET"
    then some "s"
    else if str_eq name "PQKMS_OIDC_REDIRECT_URL"
    then some "r"
    else if str_eq name "PQKMS_OIDC_ADMIN_GROUPS"
    then some "ops, root"
    else none

abbrev config : OidcConfig
config = record {
  enabled = true;
  issuer = codes "i";
  client_id = codes "c";
  client_secret = codes "s";
  redirect_url = codes "r";
  scopes = codes "openid email profile";
  groups_claim = "groups";
  admin_groups = codes "ops" ∷ codes "root" ∷ [];
  default_scopes = codes "read" ∷ [];
}

abbrev claims : Fields
claims = field (codes "groups") (strs (codes "dev" ∷ codes "root" ∷ [])) end

claims_to_scopes-from_env_example :
    (unknown_scope (codes "admin" ∷ []) ≡ false) × Origin py config claims (codes "admin" ∷ [])
unfolding from_env enabled_config claims_to_scopes groups_of bytes_eq split strip lstrip
claims_to_scopes-from_env_example =
    claims_to_scopes-from_env py env config claims (codes "admin" ∷ []) refl refl
