-- ===== src/Policy.antt =====
-- pqkms/app/policy.py: the AEAD nonce budget of a key version.
use kmsqr.Base.{
  Exec, Option, String, err, if◌then◌else◌, key_error, nonce_budget_exceeded, none, not, ok, some,
  ℕ, ◌>>=◌, ◌^◌,
}
use kmsqr.Storage.Schema.{Db}
use kmsqr.Storage.Repository.Keys.{increment_usage_if_below, version_exists}

pub record NonceBudgetPolicy : Type 0 where
  pub soft_limit : ℕ
  pub hard_limit : ℕ

abbrev pub default_policy : NonceBudgetPolicy
default_policy = record { soft_limit = 2 ^ 30; hard_limit = 2 ^ 32 }

-- the count after the update; if no row was updated, either the version is missing, or the hard
-- limit was hit
unfoldable pub granted : String → ℕ → Option ℕ → Exec Db ℕ
granted key_id version (some new_count) db = (ok new_count, db)
granted key_id version none db =
    if not (version_exists key_id version db)
    then (err key_error, db)
    else (err nonce_budget_exceeded, db)

-- NonceBudgetPolicy.reserve, without the warning that it logs at the soft limit
unfoldable pub reserve : NonceBudgetPolicy → String → ℕ → Exec Db ℕ
reserve policy key_id version = do
  new_count ← increment_usage_if_below key_id version policy.hard_limit
  granted key_id version new_count
