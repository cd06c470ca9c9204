-- ===== src/Storage/KeyStore/Stored.antt =====
-- The stored material of a key version over all states that a key store reaches.
pub mod Everywhere
use kmsqr.Base.{
  Bool, Bool-cases, String, arith, delete_rows, eq_of_str_eq, false, find_row-delete_miss,
  find_row-insert_found, find_row-update, if◌then◌else◌, inl, inr, insert_row, refl, some, str_eq,
  sym, true, update_rows, updated, ℕ, ◌&&◌, ◌∙◌, ◌≡◌, ◌≢◌,
}
use kmsqr.Crypto.Primitives.{Primitives}
use kmsqr.Policy.{NonceBudgetPolicy}
use kmsqr.Storage.Schema.{Db, VersionRow}
use kmsqr.Storage.Repository.Keys.{
  get_version, mark_rotated, set_key_state, set_rotation_policy, version_is, version_of,
}
use kmsqr.Storage.Repository.Keys.Writes.{
  create-Keeps_if, destroy-Keeps_if, rotate-Keeps_if, use-Keeps_if,
}
use kmsqr.Storage.KeyStore.Material.{KeyStore}
use kmsqr.Storage.KeyStore.Keeps.{IsKept, Within}
use kmsqr.Storage.KeyStore.Reach.{Reach, Reach-Within}

-- two rows with the same suite, wrapped secret and public half
pub record SameMaterial (r r' : VersionRow) : Type 0 where
  pub same_suite : r'.suite ≡ r.suite
  pub same_secret : r'.wrapped_secret ≡ r.wrapped_secret
  pub same_public : r'.public_material ≡ r.public_material

-- version v of key k is stored with the material of `orig`
pub record IsStored (k : String) (v : ℕ) (orig : VersionRow) (db : Db) : Type 0 where
  pub row : VersionRow
  pub found : get_version k v db ≡ some row
  pub material : SameMaterial orig row

-- every key but k may be destroyed
abbrev pub OtherThan : String → String → Type 0
OtherThan k j = j ≢ k

module _ (k : String) (v : ℕ) (orig : VersionRow) where
  -- what an update makes of the rows leaves the version and its material alone
  abbrev Harmless : (VersionRow → VersionRow) → Type 0
  Harmless f = (r : VersionRow) → (version_is k v (f r) ≡ version_is k v r) × SameMaterial r (f r)

  updated_key :
      (f : VersionRow → VersionRow) (b : Bool) (r : VersionRow)
      → Harmless f
      → version_is k v (if b then f r else r) ≡ version_is k v r
  updated_key f true r h = (h r).0
  updated_key f false r h = refl

  updated_material :
      (f : VersionRow → VersionRow) (b : Bool) (r : VersionRow)
      → Harmless f
      → SameMaterial orig r
      → SameMaterial orig (if b then f r else r)
  updated_material f true r h m = record {
    same_suite = (h r).1.same_suite ∙ m.same_suite;
    same_secret = (h r).1.same_secret ∙ m.same_secret;
    same_public = (h r).1.same_public ∙ m.same_public;
  }
  updated_material f false r h m = m

  IsStored-update :
      (q : VersionRow → Bool) (f : VersionRow → VersionRow)
      → Harmless f
      → (db : Db) → IsStored k v orig db
      → IsStored k v orig (record db { key_versions = update_rows q f db.key_versions })
  unfolding get_version
  IsStored-update q f h db s = record {
    row = updated q f s.row;
    found =
        rw
          (
            find_row-update (version_is k v) q f db.key_versions (λ r. updated_key f (q r) r h),
            s.found,
          )
          refl;
    material = updated_material f (q s.row) s.row h s.material;
  }

  IsStored-insert :
      (kv : VersionRow) (db : Db)
      → IsStored k v orig db
      → IsStored k v orig (record db { key_versions = insert_row kv db.key_versions })
  unfolding get_version
  IsStored-insert kv db s = record {
    row = s.row;
    found = find_row-insert_found (version_is k v) kv s.row db.key_versions s.found;
    material = s.material;
  }

  -- a change of the other tables
  pub IsStored-same :
      (db db' : Db)
      → db'.key_versions ≡ db.key_versions
      → IsStored k v orig db
      → IsStored k v orig db'
  unfolding get_version
  IsStored-same db db' e s = record { row = s.row; found = rw e s.found; material = s.material }

  other_version :
      (j : String) → j ≢ k → (r : VersionRow) → version_is k v r ≡ true → version_of j r ≡ false
  other_version j ne r e = elim (Bool-cases (str_eq r.key_id j)) [
    | inr miss ↦ miss
    | inl hit ↦
        absurd (ne (sym (eq_of_str_eq r.key_id j hit) ∙ eq_of_str_eq r.key_id k (left _ _ e)))
  ]
    where
      left : (a b : Bool) → (a && b) ≡ true → a ≡ true
      left a b e = ground arith

  IsStored-delete :
      (j : String)
      → j ≢ k
      → (db db' : Db) → db'.key_versions ≡ delete_rows (version_of j) db.key_versions
      → IsStored k v orig db
      → IsStored k v orig db'
  unfolding get_version
  IsStored-delete j ne db db' e s = record {
    row = s.row;
    found =
        rw
          (
            e,
            find_row-delete_miss (version_is k v) (version_of j) db.key_versions
                (other_version j ne),
          )
          s.found;
    material = s.material;
  }

  pub IsStored-kept : (policy : NonceBudgetPolicy) → IsKept policy (OtherThan k) (IsStored k v orig)
  IsStored-kept policy = record {
    create_keeps = λ mk kv _ _ _.
        create-Keeps_if mk kv (λ db. IsStored-same db _ refl) (λ db h _. IsStored-insert kv db h);
    state_keeps = λ k st at. unfold set_key_state in record { at = λ db. IsStored-same db _ refl };
    policy_keeps =
        λ k n. unfold set_rotation_policy in record { at = λ db. IsStored-same db _ refl };
    rotate_keeps = λ j old new kv _ _ _.
        rotate-Keeps_if j old new kv
          (IsStored-update (version_is j old) mark_rotated
            (λ r. (refl, record { same_suite = refl; same_secret = refl; same_public = refl })))
          (λ db h _. IsStored-insert kv db h) (λ db. IsStored-same db _ refl);
    use_keeps = λ j w. use-Keeps_if j w policy.hard_limit (
        IsStored-update _ _
          (λ r. (refl, record { same_suite = refl; same_secret = refl; same_public = refl })));
    destroy_keeps = λ j ne. destroy-Keeps_if j (λ db. IsStored-delete j ne db _ refl);
  }

  -- methods on keys keep the version and the root key
  pub Reach-IsStored :
      (p : Primitives) (policy : NonceBudgetPolicy) (s t : KeyStore)
      → Reach p policy (OtherThan k) s t
      → IsStored k v orig s.db
      → Within (IsStored k v orig) s.root_kek t
  Reach-IsStored p policy s t r h =
      Reach-Within p (IsStored-kept policy) r (record { holds = h; same_root = refl })
