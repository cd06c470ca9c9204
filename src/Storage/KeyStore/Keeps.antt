-- ===== src/Storage/KeyStore/Keeps.antt =====
-- A property of the database that every method of the repository keeps is kept by every method of
-- the key store, with the root key.
use kmsqr.Base.{
  ℤ, Bool, Bytes, Exec, List, Option, String, [], arith, none, refl, some, ℕ, ◌+◌, ◌∷◌, ◌≡◌,
}
use kmsqr.Base.Keeps.{Keeps, Keeps-bind, Keeps-lift, Keeps-pure, Keeps-raise_if, keeps_rules}
use kmsqr.Crypto.Primitives.{Primitives}
use kmsqr.Crypto.Suites.{Suite, aes256_gcm}
use kmsqr.Policy.{NonceBudgetPolicy, granted, reserve}
use kmsqr.Storage.Schema.{Db, KeyRow, KeyState, VersionRow}
use kmsqr.Storage.Repository.Keys.{
  create_key_with_version, destroy_key, increment_usage_if_below, rotate_key, set_key_state,
  set_rotation_policy,
}
use kmsqr.Storage.KeyStore.Material.{
  Draw, KeyStore, create_key, found_key, import_key, new_version_row, on_db, require_unlocked,
  store_new_key, unwrap, version_aad, wrap,
}
use kmsqr.Storage.KeyStore.Lifecycle.{
  cancel_deletion, destroy, disable_key, enable_key, require_enabled, schedule_deletion, set_policy,
}
use kmsqr.Storage.KeyStore.Rotation.{rotate, rotate_all, rotate_due}
use kmsqr.Storage.KeyStore.Operations.{
  decrypt, encrypt, load_version, sign, unwrap_data_key, verify, wrap_data_key,
}

-- `Q` of the database, and a fixed root key
pub record Within (Q : Db → Type 0) (root : Option Bytes) (s : KeyStore) : Type 0 where
  pub holds : Q s.db
  pub same_root : s.root_kek ≡ root

-- The writes of the repository that the key store makes, under a policy; keys are destroyed only
-- as far as `Allowed` goes.
pub record IsKept (policy : NonceBudgetPolicy) (Allowed : String → Type 0) (Q : Db → Type 0)
    : Type 0 where
  pub create_keeps :
      (mk : KeyRow) (kv : VersionRow)
      → kv.key_id ≡ mk.id
      → kv.version ≡ mk.current_version
      → kv.usage_count ≡ 0
      → Keeps Q (create_key_with_version mk kv)
  pub state_keeps : (k : String) (st : KeyState) (at : Option ℕ) → Keeps Q (set_key_state k st at)
  pub policy_keeps : (k : String) (n : Option ℕ) → Keeps Q (set_rotation_policy k n)
  pub rotate_keeps :
      (k : String) (old new : ℕ) (kv : VersionRow)
      → kv.key_id ≡ k
      → kv.version ≡ new
      → kv.usage_count ≡ 0
      → Keeps Q (rotate_key k old kv new)
  pub use_keeps : (k : String) (v : ℕ) → Keeps Q (increment_usage_if_below k v policy.hard_limit)
  pub destroy_keeps : (k : String) → Allowed k → Keeps Q (destroy_key k)

on_db-Keeps :
    {Q : Db → Type 0} {root : Option Bytes} {A : Type 0} (m : Exec Db A)
    → Keeps Q m
    → Keeps (Within Q root) (on_db m)
on_db-Keeps m km = record {
  at = λ s h. record { holds = km.at s.db h.holds; same_root = h.same_root };
}

module _ {S : Type 0} {P : S → Type 0} where
  -- an action that only reads
  reads-Keeps : {A : Type 0} (m : Exec S A) → ((s : S) → (m s).1 ≡ s) → Keeps P m
  reads-Keeps m same = record { at = λ s h. rw (same s) h }

module _ {P : KeyStore → Type 0} where
  found_key-Keeps : (k : String) → Keeps P (found_key k)
  found_key-Keeps k = reads-Keeps (found_key k) (λ s. unfold found_key in ground arith)

  pub require_unlocked-Keeps : Keeps P require_unlocked
  require_unlocked-Keeps =
      reads-Keeps require_unlocked (λ s. unfold require_unlocked in ground arith)

ruleset reading_rules = (keeps_rules, found_key-Keeps, require_unlocked-Keeps)

module _ (p : Primitives) {P : KeyStore → Type 0} where
  wrap-Keeps : (nonce plaintext aad : Bytes) → Keeps P (wrap p nonce plaintext aad)
  unfolding wrap
  wrap-Keeps nonce plaintext aad = search reading_rules

  unwrap-Keeps : (ciphertext aad : Bytes) → Keeps P (unwrap p ciphertext aad)
  unfolding unwrap
  unwrap-Keeps ciphertext aad = search reading_rules

  load_version-Keeps : (k : String) (v : ℕ) → Keeps P (load_version p k v)
  unfolding load_version
  load_version-Keeps k v = search (reading_rules, unwrap-Keeps)

  pub require_enabled-Keeps : (k : String) → Keeps P (require_enabled k)
  unfolding require_enabled
  require_enabled-Keeps k = search reading_rules

granted-Keeps : {Q : Db → Type 0} (k : String) (v : ℕ) (o : Option ℕ) → Keeps Q (granted k v o)
granted-Keeps k v (some n) = reads-Keeps (granted k v (some n)) (λ db. unfold granted in refl)
granted-Keeps k v none = reads-Keeps (granted k v none) (λ db. unfold granted in ground arith)

reserve-Keeps :
    {policy : NonceBudgetPolicy} {Allowed : String → Type 0} {Q : Db → Type 0}
    → IsKept policy Allowed Q
    → (k : String) (v : ℕ) → Keeps Q (reserve policy k v)
unfolding reserve
reserve-Keeps {policy} kept k v =
    Keeps-bind (increment_usage_if_below k v policy.hard_limit) (granted k v) (kept.use_keeps k v)
      (granted-Keeps k v)

module _ (p : Primitives) {policy : NonceBudgetPolicy} {Allowed : String → Type 0} {Q : Db → Type 0}
    {root : Option Bytes} (kept : IsKept policy Allowed Q) where
  set_key_state-Keeps :
      (k : String) (st : KeyState) (at : Option ℕ)
      → Keeps (Within Q root) (on_db (set_key_state k st at))
  set_key_state-Keeps k st at = on_db-Keeps _ (kept.state_keeps k st at)

  pub disable_key-Keeps : (k : String) → Keeps (Within Q root) (disable_key k)
  unfolding disable_key
  disable_key-Keeps k = search (reading_rules, set_key_state-Keeps)

  pub enable_key-Keeps : (k : String) → Keeps (Within Q root) (enable_key k)
  unfolding enable_key
  enable_key-Keeps k = search (reading_rules, set_key_state-Keeps)

  pub schedule_deletion-Keeps :
      (now : ℕ) (k : String) (n : ℤ) → Keeps (Within Q root) (schedule_deletion now k n)
  unfolding schedule_deletion
  schedule_deletion-Keeps now k n = search (reading_rules, set_key_state-Keeps)

  pub cancel_deletion-Keeps : (k : String) → Keeps (Within Q root) (cancel_deletion k)
  unfolding cancel_deletion
  cancel_deletion-Keeps k = search (reading_rules, set_key_state-Keeps)

  destroy_key-Keeps : (k : String) → Allowed k → Keeps (Within Q root) (on_db (destroy_key k))
  destroy_key-Keeps k a = on_db-Keeps _ (kept.destroy_keeps k a)

  pub destroy-Keeps :
      (now : ℕ) (k : String) (force : Bool)
      → Allowed k
      → Keeps (Within Q root) (destroy now k force)
  unfolding destroy
  destroy-Keeps now k force a = search (reading_rules, destroy_key-Keeps)

  set_rotation_policy-Keeps :
      (k : String) (n : Option ℕ) → Keeps (Within Q root) (on_db (set_rotation_policy k n))
  set_rotation_policy-Keeps k n = on_db-Keeps _ (kept.policy_keeps k n)

  pub set_policy-Keeps : (k : String) (n : Option ℕ) → Keeps (Within Q root) (set_policy k n)
  unfolding set_policy
  set_policy-Keeps k n = search (reading_rules, set_rotation_policy-Keeps)

  store_new_key-Keeps :
      (d : Draw) (row : KeyRow) (suite : Suite) (secret : Bytes) (public : Option Bytes)
      → d.uuid ≡ row.id
      → 1 ≡ row.current_version
      → Keeps (Within Q root) (store_new_key p d row suite secret public)
  unfolding store_new_key
  store_new_key-Keeps d row suite secret public e₁ e₂ =
      Keeps-bind _ _ (wrap-Keeps p d.wrap_nonce secret (version_aad d.uuid 1)) λ wrapped.
        Keeps-bind _ _ (on_db-Keeps _ (kept.create_keeps row _ e₁ e₂ refl)) λ _. Keeps-pure _

  pub create_key-Keeps :
      (d : Draw) (name key_type : String) (description namespace_id : Option String)
      → Keeps (Within Q root) (create_key p d name key_type description namespace_id)
  unfolding create_key
  create_key-Keeps d name key_type description namespace_id =
      Keeps-bind _ _ require_unlocked-Keeps
        λ _. Keeps-bind _ _ (Keeps-lift _) λ m. store_new_key-Keeps d _ m.0 m.1 m.2 refl refl

  pub import_key-Keeps :
      (d : Draw) (name : String) (material : Bytes) (description namespace_id : Option String)
      → Keeps (Within Q root) (import_key p d name material description namespace_id)
  unfolding import_key
  import_key-Keeps d name material description namespace_id =
      Keeps-bind _ _ require_unlocked-Keeps λ _.
        Keeps-bind _ _ (Keeps-raise_if _ _)
          λ _. store_new_key-Keeps d _ aes256_gcm material none refl refl

  on_rotate-Keeps :
      (k : String) (old : ℕ) (suite : Suite) (wrapped : Bytes) (public : Option Bytes) (now : ℕ)
      → Keeps (Within Q root) (
          on_db (rotate_key k old (new_version_row k (old + 1) suite wrapped public now) (old + 1)))
  on_rotate-Keeps k old suite wrapped public now =
      on_db-Keeps _ (kept.rotate_keeps k old (old + 1) _ refl refl refl)

  pub rotate-Keeps : (d : Draw) (k : String) → Keeps (Within Q root) (rotate p d k)
  unfolding rotate
  rotate-Keeps d k = search (reading_rules, wrap-Keeps, on_rotate-Keeps) depth 9

  rotate_all-Keeps :
      (draws : ℕ → Draw) (i : ℕ) (ks : List String)
      → Keeps (Within Q root) (rotate_all p draws i ks)
  unfolding rotate_all
  rotate_all-Keeps draws i [] = Keeps-pure tt
  rotate_all-Keeps draws i (k ∷ ks) =
      Keeps-bind _ _ (rotate-Keeps (draws i) k) λ _. rotate_all-Keeps draws (i + 1) ks

  pub rotate_due-Keeps :
      (draws : ℕ → Draw) (now : ℕ) → Keeps (Within Q root) (rotate_due p draws now)
  unfolding rotate_due
  rotate_due-Keeps draws now = search (reading_rules, rotate_all-Keeps)

  on_reserve-Keeps : (k : String) (v : ℕ) → Keeps (Within Q root) (on_db (reserve policy k v))
  on_reserve-Keeps k v = on_db-Keeps _ (reserve-Keeps kept k v)

  pub encrypt-Keeps :
      (d : Draw) (k : String) (plaintext aad : Bytes)
      → Keeps (Within Q root) (encrypt p policy d k plaintext aad)
  unfolding encrypt
  encrypt-Keeps d k plaintext aad =
      search (keeps_rules, require_enabled-Keeps, load_version-Keeps, on_reserve-Keeps) depth 9

module _ (p : Primitives) {P : KeyStore → Type 0} where
  pub decrypt-Keeps : (k : String) (c : List ℕ) (aad : Bytes) → Keeps P (decrypt p k c aad)
  unfolding decrypt
  decrypt-Keeps k c aad = search (keeps_rules, require_enabled-Keeps, load_version-Keeps) depth 9

  pub sign-Keeps : (k : String) (message : Bytes) → Keeps P (sign p k message)
  unfolding sign
  sign-Keeps k message = search (keeps_rules, require_enabled-Keeps, load_version-Keeps) depth 9

  pub verify-Keeps :
      (k : String) (message : Bytes) (sig : List ℕ) (v : Option ℕ)
      → Keeps P (verify p k message sig v)
  unfolding verify
  verify-Keeps k message sig v = search (keeps_rules, load_version-Keeps) depth 9

  pub wrap_data_key-Keeps :
      (d : Draw) (k : String) (data_key : Bytes) → Keeps P (wrap_data_key p d k data_key)
  unfolding wrap_data_key
  wrap_data_key-Keeps d k data_key =
      search (keeps_rules, require_enabled-Keeps, load_version-Keeps) depth 9

  pub unwrap_data_key-Keeps :
      (k : String) (e w : List ℕ) (v : Option ℕ) → Keeps P (unwrap_data_key p k e w v)
  unfolding unwrap_data_key
  unwrap_data_key-Keeps k e w v =
      search (keeps_rules, require_enabled-Keeps, load_version-Keeps) depth 9
