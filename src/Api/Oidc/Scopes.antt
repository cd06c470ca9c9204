-- ===== src/Api/Oidc/Scopes.antt =====
-- Which scopes a login gives.
use kmsqr.Base.{
  subst, Bool, Bool-cases, List, [], any_row, arith, codes, false, inl, inr, ok, refl,
  runtime_error, true, ◌∷◌, ◌≡◌, bytes_eq,
}
use kmsqr.Base.Results.{◌>>◌, bind-eq-ok, raise_if}
use kmsqr.Api.Texts.{Text, has}
use kmsqr.Api.Sessions.{Python, get_key}
use kmsqr.Api.Oidc.{
  disabled, truthy, is_nil, Environment, OidcConfig, claims_to_scopes, enabled_config, from_env,
  groups_of, unknown_scope,
}
use kmsqr.Custody.Json.{Fields, null}

-- two tests that passed
guarded :
    (b c : Bool) (x y : OidcConfig)
    → (raise_if b runtime_error >> (raise_if c runtime_error >> ok x)) ≡ ok y
    → (c ≡ false) × (x ≡ y)
guarded true c x y h = absurd (ground arith)
guarded false true x y h = absurd (ground arith)
guarded false false x y h = (refl, ground arith)

enabled_config-known :
    (env : Environment) (config : OidcConfig)
    → enabled_config env ≡ ok config
    → unknown_scope config.default_scopes ≡ false
unfolding enabled_config
enabled_config-known env config h =
    let (known, same) = guarded _ _ _ config h in
    subst (λ c. unknown_scope c.default_scopes ≡ false) same known

from_env-known :
    (env : Environment) (config : OidcConfig)
    → from_env env ≡ ok config
    → unknown_scope config.default_scopes ≡ false
unfolding from_env bytes_eq
from_env-known env config h = elim (Bool-cases (truthy (env "PQKMS_OIDC_ENABLED"))) [
  | inl on ↦ enabled_config-known env config (rw on at h)
  | inr off ↦
      (let same : disabled ≡ config = config_of (rw off at h) in
        subst (λ c. unknown_scope c.default_scopes ≡ false) same refl)
]
  where
    config_of : ok disabled ≡ ok config → disabled ≡ config
    config_of e = cc

-- Where the scopes of a login come from.
pub data Origin (py : Python) (config : OidcConfig) (claims : Fields) (scopes : List Text)
    : Type 0 where
  -- the user is in a group of administrators
  administrator :
      (groups : List Text)
      → groups_of py (get_key config.groups_claim null claims) ≡ ok groups
      → any_row (λ g. has g config.admin_groups) groups ≡ true
      → scopes ≡ codes "admin" ∷ []
      → Origin py config claims scopes
  by_default : scopes ≡ config.default_scopes → Origin py config claims scopes

claims_to_scopes-Origin :
    (py : Python) (config : OidcConfig) (claims : Fields) (scopes : List Text)
    → claims_to_scopes py config claims ≡ ok scopes
    → Origin py config claims scopes
unfolding claims_to_scopes
claims_to_scopes-Origin py config claims scopes h = elim (Bool-cases (is_nil config.admin_groups)) [
  | inl empty ↦ by_default (the (rw empty at h))
  | inr some_group ↦
      (let (groups, named, h1) =
          bind-eq-ok (groups_of py (get_key config.groups_claim null claims)) _
            (rw some_group at h) in
        elim (Bool-cases (any_row (λ g. has g config.admin_groups) groups)) [
          | inl member ↦ administrator groups named member (the (rw member at h1))
          | inr outside ↦ by_default (the (rw outside at h1))
        ])
]
  where
    the : {x : List Text} → ok x ≡ ok scopes → scopes ≡ x
    the e = cc

-- A login under a configuration from the environment gives known scopes only, and the scope admin
-- only to a user in one of the groups of administrators, unless the configured default scopes have
-- it.
pub claims_to_scopes-from_env :
    (py : Python) (env : Environment) (config : OidcConfig) (claims : Fields) (scopes : List Text)
    → from_env env ≡ ok config
    → claims_to_scopes py config claims ≡ ok scopes
    → (unknown_scope scopes ≡ false) × Origin py config claims scopes
unfolding bytes_eq
claims_to_scopes-from_env py env config claims scopes e h =
    let o = claims_to_scopes-Origin py config claims scopes h in (known o, o)
  where
    known : Origin py config claims scopes → unknown_scope scopes ≡ false
    known (administrator groups named member same) = rw same refl
    known (by_default same) = rw same (from_env-known env config e)
