-- ===== src/Storage/KeyStore/Material.antt =====
-- KeyStore: state, wrapping under the root key, creation and import of keys.
use kmsqr.Base.{
  Bool, Bytes, Exec, List, Option, Result, String, [], decimal, encode, err, false, if◌then◌else◌,
  key_error, length, lift, map, none, not, ok, pure, raise_if, runtime_error, some, str_eq, true,
  value_error, ℕ, ◌++◌, ◌==◌, ◌>>=◌, ◌>>◌, ◌∷◌,
}
use kmsqr.Encoding.Base64.{b64encode}
use kmsqr.Crypto.Primitives.{Primitives}
use kmsqr.Crypto.Suites.{Suite, aes256_gcm, suite_id}
use kmsqr.Crypto.Aead.{aead_decrypt, aead_encrypt}
use kmsqr.Crypto.Kem
use kmsqr.Crypto.Signatures
use kmsqr.Storage.Schema.{
  Db, KeyRow, KeyState, Origin, VersionRow, active, enabled, generated, imported,
}
use kmsqr.Storage.Repository.Keys.{
  CurrentRow, create_key_with_version, get_key_current, list_keys_current,
}

pub record KeyStore : Type 0 where
  pub db : Db
  pub root_kek : Option Bytes

-- what one call draws: identifiers, time, nonces and key material
pub record Draw : Type 0 where
  pub uuid : String
  pub now : ℕ
  -- the nonces of the wrapping under the root key and of the caller's data
  pub wrap_nonce : Bytes
  pub nonce : Bytes
  -- AEAD.generate_key(), and the seeds of the key pair generators
  pub aead_key : Bytes
  pub seed : Bytes
  pub pq_seed : Bytes
  pub encap : Kem.EncapDraw

pub record ManagedKey : Type 0 where
  pub id : String
  pub name : String
  pub key_type : String
  pub current_version : ℕ
  pub created_at : ℕ
  pub description : Option String
  pub suite : ℕ
  -- base64
  pub public_material : Option (List ℕ)
  pub namespace_id : Option String
  pub state : KeyState
  pub deletion_at : Option ℕ
  pub origin : Origin
  pub rotation_period_days : Option ℕ
  pub last_rotated_at : Option ℕ

-- a method of the repository, run by the key store
abbrev pub on_db : {A : Type 0} → Exec Db A → Exec KeyStore A
on_db m s = let (r, db') = m s.db in (r, record s { db = db' })

unfoldable pub is_unlocked : KeyStore → Bool
is_unlocked s = elim s.root_kek [ none ↦ false | some k ↦ true ]

-- the root key, if the store is unlocked
unfoldable pub require_unlocked : Exec KeyStore Bytes
require_unlocked s = elim s.root_kek [ none ↦ (err runtime_error, s) | some k ↦ (ok k, s) ]

-- f"pqkms/key/{key_id}/v{version}".encode()
unfoldable pub version_aad : String → ℕ → Bytes
version_aad key_id version =
    encode "pqkms/key/" ++ (encode key_id ++ (encode "/v" ++ decimal version))

-- `base64.b64encode(b).decode() if b else None`
abbrev pub b64_or_none : Option Bytes → Option (List ℕ)
b64_or_none none = none
b64_or_none (some []) = none
b64_or_none (some (x ∷ xs)) = some (b64encode (x ∷ xs))

-- _row_to_managed_key
abbrev pub row_to_managed_key : CurrentRow → ManagedKey
row_to_managed_key r = record {
  id = r.key.id;
  name = r.key.name;
  key_type = r.key.key_type;
  current_version = r.key.current_version;
  created_at = r.key.created_at;
  description = r.key.description;
  suite = r.suite;
  public_material = b64_or_none r.public_material;
  namespace_id = r.key.namespace_id;
  state = r.key.state;
  deletion_at = r.key.deletion_at;
  origin = r.key.origin;
  rotation_period_days = r.key.rotation_period_days;
  last_rotated_at = some r.version_created_at;
}

unfoldable pub get_key : String → Db → Option ManagedKey
get_key key_id db = elim (get_key_current key_id db) [
  | none ↦ none
  | some r ↦ some (row_to_managed_key r)
]

-- `return self.get_key(key_id)`, and `mk = self.get_key(key_id)` with `if not mk: raise KeyError`
unfoldable pub found_key : String → Exec KeyStore ManagedKey
found_key key_id s = elim (get_key key_id s.db) [ none ↦ (err key_error, s) | some mk ↦ (ok mk, s) ]

pub list_keys : ℕ → ℕ → Db → List ManagedKey
list_keys limit offset db = map row_to_managed_key (list_keys_current limit offset db)

-- the rows and the returned record of a new key with one version
unfoldable pub new_key_row :
    Draw → String → String → Option String → Option String → Origin → KeyRow
new_key_row d name key_type description namespace_id origin = record {
  id = d.uuid;
  name = name;
  key_type = key_type;
  current_version = 1;
  created_at = d.now;
  description = description;
  namespace_id = namespace_id;
  state = enabled;
  deletion_at = none;
  origin = origin;
  rotation_period_days = none;
}

abbrev pub new_version_row : String → ℕ → Suite → Bytes → Option Bytes → ℕ → VersionRow
new_version_row key_id version suite wrapped public now = record {
  key_id = key_id;
  version = version;
  suite = suite_id suite;
  wrapped_secret = wrapped;
  public_material = public;
  created_at = now;
  state = active;
  usage_count = 0;
}

unfoldable pub new_managed_key : KeyRow → Suite → Option Bytes → ManagedKey
new_managed_key k suite public = record {
  id = k.id;
  name = k.name;
  key_type = k.key_type;
  current_version = 1;
  created_at = k.created_at;
  description = k.description;
  suite = suite_id suite;
  public_material = b64_or_none public;
  namespace_id = k.namespace_id;
  state = enabled;
  deletion_at = none;
  origin = k.origin;
  rotation_period_days = none;
  last_rotated_at = none;
}

module _ (p : Primitives) where
  unfoldable pub wrap : Bytes → Bytes → Bytes → Exec KeyStore Bytes
  wrap nonce plaintext aad = do
    root ← require_unlocked
    lift (aead_encrypt p nonce root plaintext aad)

  unfoldable pub unwrap : Bytes → Bytes → Exec KeyStore Bytes
  unwrap ciphertext aad = do root ← require_unlocked; lift (aead_decrypt p root ciphertext aad)

  -- the suite, the secret and the public half of new material
  unfoldable pub generate_material : Draw → String → Result (Suite × Bytes × Option Bytes)
  generate_material d key_type =
      if str_eq key_type "aead"
      then ok (aes256_gcm, d.aead_key, none)
      else if str_eq key_type "kem"
      then (let kp = Kem.generate p d.seed d.pq_seed in
          ok (kp.suite, kp.private_key, some kp.public_key))
      else if str_eq key_type "sig"
      then (let kp = Signatures.generate p d.seed d.pq_seed in
          ok (kp.suite, kp.private_key, some kp.public_key))
      else err value_error

  unfoldable pub store_new_key :
      Draw → KeyRow → Suite → Bytes → Option Bytes → Exec KeyStore ManagedKey
  unfolding new_managed_key
  store_new_key d k suite secret public = do
    wrapped ← wrap d.wrap_nonce secret (version_aad d.uuid 1)
    on_db (create_key_with_version k (new_version_row d.uuid 1 suite wrapped public d.now))
    pure (new_managed_key k suite public)

  unfoldable pub create_key :
      Draw → String → String → Option String → Option String → Exec KeyStore ManagedKey
  unfolding store_new_key new_key_row
  create_key d name key_type description namespace_id = do
    require_unlocked
    (suite, secret, public) ← lift (generate_material d key_type)
    store_new_key d (new_key_row d name key_type description namespace_id generated) suite secret
        public

  unfoldable pub import_key :
      Draw → String → Bytes → Option String → Option String → Exec KeyStore ManagedKey
  unfolding store_new_key new_key_row
  import_key d name key_material description namespace_id = do
    require_unlocked
    raise_if (not (length key_material == 32)) value_error
    store_new_key d (new_key_row d name "aead" description namespace_id imported) aes256_gcm
        key_material none
