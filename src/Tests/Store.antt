-- ===== src/Tests/Store.antt =====
-- A key store with one key, on the toy primitives.
use kmsqr.Base.{
  ◌≤◌, Bytes, IsBytes, [], arith, bytes_eq, err, false, key_state_error, none, ok, refl, replicate,
  some, suc, true, zero, ℕ, ◌++◌, ◌<◌, ◌∷◌, ◌≡◌,
}
use kmsqr.Encoding.Base64.{b64encode}
use kmsqr.Encoding.Struct.{pack_bi, pack_u32, pack_u8}
use kmsqr.Crypto.Suites.{suite_of}
use kmsqr.Crypto.Aead.{aead_decrypt, aead_encrypt}
use kmsqr.Policy.{default_policy, granted, reserve}
use kmsqr.Storage.Schema.{
  KeyRow, VersionRow, active, disabled, empty_db, enabled, generated, pending_deletion,
}
use kmsqr.Storage.Repository.Keys.{
  destroy_key, get_key_current, get_key_state, get_version, increment_usage_if_below, rotate_key,
}
use kmsqr.Storage.KeyStore.Material.{
  Draw, KeyStore, ManagedKey, found_key, generate_material, get_key, require_unlocked, unwrap, wrap,
}
use kmsqr.Storage.KeyStore.Lifecycle.{destroy, require_enabled}
use kmsqr.Storage.KeyStore.Rotation.{rotate}
use kmsqr.Storage.KeyStore.Operations.{
  Ciphertext, decrypt, encrypt, load_version, sign, unwrap_data_key, wrap_data_key,
}
use kmsqr.Storage.KeyStore.Reach.{Reach, encrypted, here, next, rotated_by_hand}
use kmsqr.Storage.KeyStore.Spent.{Gives-IsWithinBudget, call, ciphertext, nothing}
use kmsqr.Storage.KeyStore.Stored.{IsStored, OtherThan}
use kmsqr.Storage.KeyStore.Stored.Everywhere.{Everywhere-IsStored, on_keys, start, unlocked}
use kmsqr.Storage.KeyStore.Bootstrap.{unlock}
use kmsqr.Tests.Codec.{json}
use kmsqr.Storage.KeyStore.Life.{Simulates, cancelling, perform}
use kmsqr.Storage.KeyStore.Life.Implemented.{perform-Simulates}
use kmsqr.Storage.KeyStore.Gate.{IsDeletable, destroy-IsDeletable, operations-refused}
use kmsqr.Storage.KeyStore.Decrypt.{decrypt-encrypt}
use kmsqr.Tests.Toy.{toy, toy_aead}

abbrev pub secret : Bytes
secret = replicate 32 42

abbrev pub wrapped_row : VersionRow
wrapped_row = record {
  key_id = "k";
  version = 1;
  suite = 20;
  wrapped_secret = replicate 28 0 ++ secret;
  public_material = none;
  created_at = 100;
  state = active;
  usage_count = 7;
}

abbrev key_row : KeyRow
key_row = record {
  id = "k";
  name = "payments";
  key_type = "aead";
  current_version = 1;
  created_at = 100;
  description = none;
  namespace_id = some "ns";
  state = enabled;
  deletion_at = none;
  origin = generated;
  rotation_period_days = none;
}

abbrev pub store : KeyStore
store = record {
  db = record empty_db { managed_keys = key_row ∷ []; key_versions = wrapped_row ∷ [] };
  root_kek = some secret;
}

abbrev pub draw : Draw
draw = record {
  uuid = "k2";
  now = 200;
  wrap_nonce = replicate 12 1;
  nonce = replicate 12 2;
  aead_key = replicate 32 43;
  seed = secret;
  pq_seed = secret;
  encap = record { ephemeral = secret; salt = replicate 16 3; pq = secret };
}

abbrev pub sealed : Ciphertext
sealed = record {
  key_id = "k";
  version = 1;
  suite = "aes256gcm";
  ciphertext =
      b64encode (20 ∷ 0 ∷ 0 ∷ 0 ∷ 1 ∷ (replicate 12 2 ++ (replicate 16 0 ++ 104 ∷ 105 ∷ [])));
}

abbrev used_store : KeyStore
used_store = record store {
  db = record store.db { key_versions = record wrapped_row { usage_count = 8 } ∷ [] };
}

abbrev rotated_store : KeyStore
rotated_store = (rotate toy draw "k" used_store).1

encrypts : encrypt toy default_policy draw "k" (104 ∷ 105 ∷ []) [] store ≡ (ok sealed, used_store)
unfolding encrypt require_enabled found_key get_key get_key_current load_version get_version unwrap
    require_unlocked aead_decrypt bytes_eq suite_of reserve increment_usage_if_below granted
    aead_encrypt pack_bi pack_u8 pack_u32
encrypts = refl

abbrev rotation : Reach toy default_policy (OtherThan "k") used_store rotated_store
rotation = next here (rotated_by_hand draw "k" used_store)

abbrev rotated_key : ManagedKey
rotated_key = record {
  id = "k";
  name = "payments";
  key_type = "aead";
  current_version = 2;
  created_at = 100;
  description = none;
  suite = 20;
  public_material = none;
  namespace_id = some "ns";
  state = enabled;
  deletion_at = none;
  origin = generated;
  rotation_period_days = none;
  last_rotated_at = some 200;
}

still_enabled : require_enabled "k" rotated_store ≡ (ok rotated_key, rotated_store)
unfolding require_enabled rotate found_key get_key get_key_current require_unlocked
    generate_material wrap aead_encrypt rotate_key
still_enabled = refl

pub byte_list : (n m : ℕ) → m < 256 → IsBytes (replicate n m)
byte_list zero m h = tt
byte_list (suc n) m h = (h, byte_list n m h)

-- The plaintext comes back after a rotation.
decrypt-encrypt_example :
    decrypt toy "k" sealed.ciphertext [] rotated_store ≡ (ok (104 ∷ 105 ∷ []), rotated_store)
decrypt-encrypt_example =
    decrypt-encrypt toy toy_aead default_policy draw "k" (104 ∷ 105 ∷ []) [] store used_store
      rotated_store sealed rotated_key refl (byte_list 12 2 (omega arith))
      (omega arith, (omega arith, tt)) encrypts rotation still_enabled

-- one ciphertext, and a rotation after it
Gives-IsWithinBudget_example :
    (r : VersionRow) × (get_version "k" 1 rotated_store.db ≡ some r)
    × (1 ≤ r.usage_count)
    × (r.usage_count ≤ default_policy.hard_limit)
Gives-IsWithinBudget_example =
    Gives-IsWithinBudget "k" 1 toy default_policy store rotated_store 1 (omega arith, tt) refl
      (call (ciphertext 0 store used_store draw (104 ∷ 105 ∷ []) [] sealed nothing encrypts refl)
        (rotated_by_hand draw "k" used_store))

stored : IsStored "k" 1 wrapped_row store.db
unfolding get_version
stored = record {
  row = wrapped_row;
  found = refl;
  material = record { same_suite = refl; same_secret = refl; same_public = refl };
}

-- an encryption, and then an attempt to unlock
Everywhere-IsStored_example :
    IsStored "k" 1 wrapped_row
      (unlock toy json none (some "pw") (encrypt toy default_policy draw "k" [] [] store).1).1.db
Everywhere-IsStored_example =
    Everywhere-IsStored "k" 1 wrapped_row toy json default_policy store
      (unlock toy json none (some "pw") (encrypt toy default_policy draw "k" [] [] store).1).1
      (unlocked none (some "pw") (on_keys start (encrypted draw "k" [] [] store))) stored

abbrev doomed_store : KeyStore
doomed_store = record store {
  db = record store.db {
    managed_keys = record key_row { state = pending_deletion; deletion_at = some 50 } ∷ [];
  };
}

abbrev doomed_key : ManagedKey
doomed_key = record rotated_key {
  current_version = 1;
  state = pending_deletion;
  deletion_at = some 50;
  last_rotated_at = some 100;
}

operations-refused_example :
    (encrypt toy default_policy draw "k" [] [] doomed_store ≡ (err key_state_error, doomed_store))
    × (decrypt toy "k" sealed.ciphertext [] doomed_store ≡ (err key_state_error, doomed_store))
    × (sign toy "k" [] doomed_store ≡ (err key_state_error, doomed_store))
    × (wrap_data_key toy draw "k" [] doomed_store ≡ (err key_state_error, doomed_store))
    × (unwrap_data_key toy "k" [] sealed.ciphertext none doomed_store
        ≡ (err key_state_error, doomed_store))
unfolding get_key get_key_current
operations-refused_example =
    operations-refused toy default_policy draw "k" doomed_key doomed_store [] [] sealed.ciphertext
      [] none refl refl

destroy-IsDeletable_example : IsDeletable 100 "k" doomed_store.db
unfolding destroy found_key get_key get_key_current destroy_key
destroy-IsDeletable_example =
    destroy-IsDeletable 100 "k" doomed_store (destroy 100 "k" false doomed_store).1 true refl

-- the machine cancels the deletion
perform-Simulates_example :
    (get_key_state "k" doomed_store.db ≡ some (pending_deletion, some 50))
    × Simulates "k" "other" doomed_store
        (some (some (disabled, none)))
        (perform cancelling "k" doomed_store)
unfolding get_key get_key_current
perform-Simulates_example =
    perform-Simulates cancelling "k" "other" doomed_store doomed_key refl refl
