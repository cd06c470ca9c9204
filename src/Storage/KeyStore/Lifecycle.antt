-- ===== src/Storage/KeyStore/Lifecycle.antt =====
-- KeyStore: the lifecycle of a key, its public half and its rotation policy.
use kmsqr.Base.{
  ℤ, is_negative, natural, value_error, Bool, Exec, List, Option, String, false, if◌then◌else◌,
  key_state_error, lift, ltb, none, not, or_raise, pure, raise, raise_if, some, true, value_error,
  ℕ, ◌&&◌, ◌*◌, ◌+◌, ◌>>=◌, ◌>>◌, ◌||◌,
}
use kmsqr.Crypto.Suites.{suite_name, suite_of}
use kmsqr.Storage.Schema.{KeyState, disabled, enabled, pending_deletion}
use kmsqr.Storage.Repository.Keys.{destroy_key, is_enabled, set_key_state, set_rotation_policy}
use kmsqr.Storage.KeyStore.Material.{KeyStore, ManagedKey, found_key, on_db}

-- _require_enabled
unfoldable pub require_enabled : String → Exec KeyStore ManagedKey
require_enabled key_id = do
  mk ← found_key key_id
  if is_enabled mk.state then pure mk else raise key_state_error

unfoldable pub disable_key : String → Exec KeyStore ManagedKey
disable_key key_id = do
  found_key key_id
  on_db (set_key_state key_id disabled none)
  found_key key_id

abbrev pub is_pending : KeyState → Bool
is_pending pending_deletion = true
is_pending _ = false

unfoldable pub enable_key : String → Exec KeyStore ManagedKey
enable_key key_id = do
  mk ← found_key key_id
  raise_if (is_pending mk.state) key_state_error
  on_db (set_key_state key_id enabled none)
  found_key key_id

abbrev pub days : ℕ → ℕ
days n = n * 86400

-- without the OverflowError of a deletion time after the year 9999
unfoldable pub schedule_deletion : ℕ → String → ℤ → Exec KeyStore ManagedKey
schedule_deletion now key_id window_days = do
  found_key key_id
  raise_if (is_negative window_days) value_error
  on_db (set_key_state key_id pending_deletion (some (now + days (natural window_days))))
  found_key key_id

unfoldable pub cancel_deletion : String → Exec KeyStore ManagedKey
cancel_deletion key_id = do
  mk ← found_key key_id
  raise_if (not (is_pending mk.state)) key_state_error
  on_db (set_key_state key_id disabled none)
  found_key key_id

-- `deletion_at is None or now < deletion_at`
abbrev pub window_open : ℕ → Option ℕ → Bool
window_open now none = true
window_open now (some at) = ltb now at

unfoldable pub destroy : ℕ → String → Bool → Exec KeyStore Bool
destroy now key_id force = do
  mk ← found_key key_id
  raise_if (not force && not (is_pending mk.state)) key_state_error
  raise_if (not force && window_open now mk.deletion_at) key_state_error
  on_db (destroy_key key_id)

pub record PublicKey : Type 0 where
  pub key_id : String
  pub version : ℕ
  pub key_type : String
  pub suite : String
  pub public_key_b64 : List ℕ

unfoldable pub export_public_key : String → Exec KeyStore PublicKey
export_public_key key_id = do
  mk ← found_key key_id
  material ← or_raise mk.public_material value_error
  suite ← lift (suite_of mk.suite)
  pure (record {
    key_id = key_id;
    version = mk.current_version;
    key_type = mk.key_type;
    suite = suite_name suite;
    public_key_b64 = material;
  })

-- a period that is given and out of range
abbrev bad_period : Option ℕ → Bool
bad_period none = false
bad_period (some n) = ltb n 1 || ltb 3650 n

unfoldable pub set_policy : String → Option ℕ → Exec KeyStore ManagedKey
set_policy key_id period_days = do
  found_key key_id
  raise_if (bad_period period_days) value_error
  on_db (set_rotation_policy key_id period_days)
  found_key key_id
