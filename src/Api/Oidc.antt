-- ===== src/Api/Oidc.antt =====
-- pqkms/app/api/oidc.py: the configuration of single sign-on and the scopes of a login. The
-- environment is a function; a set is a list.
pub mod Scopes
use kmsqr.Base.{
  Bool, List, Option, Result, String, [], any_row, codes, false, if◌then◌else◌, map, none, not, ok,
  runtime_error, select_rows, some, true, ℕ, ◌&&◌, ◌==◌, ◌||◌, ◌∷◌,
}
use kmsqr.Base.Results.{raise_if, ◌>>=◌, ◌>>◌}
use kmsqr.Api.Texts.{Text, has, is_empty, lower, split, strip}
use kmsqr.Api.Auth.{all_scopes}
use kmsqr.Api.Sessions.{Python, get_key}
use kmsqr.Custody.Json.{
  is_true, Fields, Json, boolean, dict, end, field, null, number, str, strs, unread,
}

pub record OidcConfig : Type 0 where
  pub enabled : Bool
  pub issuer : Text
  pub client_id : Text
  pub client_secret : Text
  pub redirect_url : Text
  pub scopes : Text
  pub groups_claim : String
  pub admin_groups : List Text
  pub default_scopes : List Text

abbrev pub Environment : Type 0
Environment = String → Option String

-- os.environ.get(name, default)
abbrev env_or : Environment → String → String → String
env_or env name default = elim (env name) [ none ↦ default | some v ↦ v ]

-- _truthy
abbrev pub truthy : Option String → Bool
truthy none = false
truthy (some val) =
    not (is_empty (codes val))
    && not (
        has (lower (strip (codes val)))
          (codes "0" ∷ codes "false" ∷ codes "no" ∷ codes "off" ∷ codes "" ∷ []))

-- _csv_env
abbrev csv_env : Environment → String → List Text
csv_env env name =
    select_rows (λ x. not (is_empty x)) (map strip (split b',' (codes (env_or env name ""))))

-- `.rstrip("/")`
abbrev rstrip_slash : Text → Text
rstrip_slash [] = []
rstrip_slash (c ∷ cs) =
    let rest = rstrip_slash cs in if is_empty rest && c == b'/' then [] else c ∷ rest

abbrev pub disabled : OidcConfig
disabled = record {
  enabled = false;
  issuer = [];
  client_id = [];
  client_secret = [];
  redirect_url = [];
  scopes = codes "openid email profile";
  groups_claim = "groups";
  admin_groups = [];
  default_scopes = codes "read" ∷ [];
}

-- `scopes or {SCOPES_READ}`
abbrev or_read : List Text → List Text
or_read [] = codes "read" ∷ []
or_read (s ∷ ss) = s ∷ ss

abbrev pub unknown_scope : List Text → Bool
unknown_scope scopes = any_row (λ s. not (has s all_scopes)) scopes

-- OidcConfig.from_env for an environment that enables it
unfoldable pub enabled_config : Environment → Result OidcConfig
enabled_config env =
    let issuer = rstrip_slash (codes (env_or env "PQKMS_OIDC_ISSUER" "")) in
    let client_id = codes (env_or env "PQKMS_OIDC_CLIENT_ID" "") in
    let client_secret = codes (env_or env "PQKMS_OIDC_CLIENT_SECRET" "") in
    let redirect_url = codes (env_or env "PQKMS_OIDC_REDIRECT_URL" "") in
    let default_scopes = or_read (csv_env env "PQKMS_OIDC_DEFAULT_SCOPES") in
    do
      raise_if
          (is_empty issuer || is_empty client_id || is_empty client_secret || is_empty redirect_url)
          runtime_error
      raise_if (unknown_scope default_scopes) runtime_error
      ok (record {
        enabled = true;
        issuer = issuer;
        client_id = client_id;
        client_secret = client_secret;
        redirect_url = redirect_url;
        scopes = codes (env_or env "PQKMS_OIDC_SCOPES" "openid email profile");
        groups_claim = env_or env "PQKMS_OIDC_GROUPS_CLAIM" "groups";
        admin_groups = csv_env env "PQKMS_OIDC_ADMIN_GROUPS";
        default_scopes = default_scopes;
      })

unfoldable pub from_env : Environment → Result OidcConfig
from_env env = if not (truthy (env "PQKMS_OIDC_ENABLED")) then ok disabled else enabled_config env

abbrev pub is_nil : List Text → Bool
is_nil [] = true
is_nil (t ∷ ts) = false

module _ (py : Python) where
  -- the set of the groups that a claim names
  unfoldable pub groups_of : Json → Result (List Text)
  groups_of (str s) = if is_empty s then ok [] else ok (s ∷ [])
  groups_of v = if is_true v then py.set v else ok []

  -- OidcClient.claims_to_scopes
  unfoldable pub claims_to_scopes : OidcConfig → Fields → Result (List Text)
  claims_to_scopes config claims =
      if is_nil config.admin_groups then ok config.default_scopes else do
        groups ← groups_of (get_key config.groups_claim null claims)
        if any_row (λ g. has g config.admin_groups) groups
            then ok (codes "admin" ∷ [])
            else ok config.default_scopes
