-- ===== src/Storage/Repository/Keys/Writes.antt =====
-- What a write to the key tables keeps: one rule for each statement group of the repository.
use kmsqr.Base.{
  Bool, Error, Option, Result, String, any_row, arith, delete_rows, err, false, find_row,
  if◌then◌else◌, insert_row, integrity_error, ltb, none, not, ok, refl, some, true, update_rows, ℕ,
  ◌&&◌, ◌+◌, ◌||◌, ◌≡◌,
}
use kmsqr.Base.Keeps.{Keeps, Keeps-bind, Keeps-modify, Keeps-transaction}
use kmsqr.Storage.Schema.{Db, KeyRow, VersionRow}
use kmsqr.Storage.Repository.Keys.{
  create_key_with_version, destroy_key, grant_on_key, increment_usage_if_below, insert_key,
  insert_version, key_is, mark_rotated, rotate_key, version_is, version_of,
}

module _ {A : Type 0} (P : Db → Type 0) where
  -- a test that raises, before a write
  guarded :
      (b : Bool) (e : Error) (a : A) (db db' : Db)
      → P db
      → (b ≡ false → P db')
      → P (let q : Result A × Db = if b then (err e, db) else (ok a, db') in q).1
  guarded true e a db db' h k = h
  guarded false e a db db' h k = k refl

  -- a write to a row that may be missing
  found_or_not :
      {R : Type 0} (o : Option R) (a : A) (f : R → A) (db db' : Db)
      → P db
      → ((r : R) → o ≡ some r → P db')
      → P (let q : Result A × Db = elim o [ none ↦ (ok a, db) | some r ↦ (ok (f r), db') ] in q).1
  found_or_not none a f db db' h k = h
  found_or_not (some r) a f db db' h k = k r refl

  either_write :
      (b : Bool) (a a' : A) (db db' : Db)
      → P db
      → P db'
      → P (let q : Result A × Db = if b then (ok a, db) else (ok a', db') in q).1
  either_write true a a' db db' h k = h
  either_write false a a' db db' h k = k

module _ {P : Db → Type 0} where
  insert_key-Keeps :
      (mk : KeyRow)
      → ((db : Db) → P db → P (record db { managed_keys = insert_row mk db.managed_keys }))
      → Keeps P (insert_key mk)
  unfolding insert_key
  insert_key-Keeps mk w = record {
    at = λ db h. guarded P (any_row _ db.managed_keys) integrity_error tt db _ h (λ _. w db h);
  }

  insert_version-Keeps :
      (kv : VersionRow)
      → ((db : Db)
          → P db
          → any_row (version_is kv.key_id kv.version) db.key_versions ≡ false
          → P (record db { key_versions = insert_row kv db.key_versions }))
      → Keeps P (insert_version kv)
  unfolding insert_version
  insert_version-Keeps kv w = record {
    at = λ db h. guarded P _ integrity_error tt db _ h (λ e. w db h (left _ _ e));
  }
    where
      left : (a b : Bool) → (a || b) ≡ false → a ≡ false
      left a b e = ground arith

  pub create-Keeps_if :
      (mk : KeyRow) (kv : VersionRow)
      → ((db : Db) → P db → P (record db { managed_keys = insert_row mk db.managed_keys }))
      → ((db : Db)
          → P db
          → any_row (version_is kv.key_id kv.version) db.key_versions ≡ false
          → P (record db { key_versions = insert_row kv db.key_versions }))
      → Keeps P (create_key_with_version mk kv)
  unfolding create_key_with_version
  create-Keeps_if mk kv w₁ w₂ =
      Keeps-transaction _ (Keeps-bind _ _ (insert_key-Keeps mk w₁) λ _. insert_version-Keeps kv w₂)

  pub rotate-Keeps_if :
      (k : String) (old new : ℕ) (kv : VersionRow)
      → ((db : Db)
          → P db
          → P (record db {
            key_versions = update_rows (version_is k old) mark_rotated db.key_versions;
          }))
      → ((db : Db)
          → P db
          → any_row (version_is kv.key_id kv.version) db.key_versions ≡ false
          → P (record db { key_versions = insert_row kv db.key_versions }))
      → ((db : Db)
          → P db
          → P (record db {
            managed_keys =
                update_rows (key_is k) (λ r. record r { current_version = new }) db.managed_keys;
          }))
      → Keeps P (rotate_key k old kv new)
  unfolding rotate_key
  rotate-Keeps_if k old new kv w₁ w₂ w₃ = Keeps-transaction _ (
      Keeps-bind _ _
        (Keeps-modify
          (λ db. record db {
            key_versions = update_rows (version_is k old) mark_rotated db.key_versions;
          })
          w₁)
        λ _. Keeps-bind _ _ (insert_version-Keeps kv w₂) λ _.
          Keeps-modify
            (λ db. record db {
              managed_keys =
                  update_rows (key_is k) (λ r. record r { current_version = new }) db.managed_keys;
            })
            w₃)

  pub use-Keeps_if :
      (k : String) (v limit : ℕ)
      → ((db : Db)
          → P db
          → P (record db {
            key_versions =
                update_rows
                  (λ r. version_is k v r && ltb r.usage_count limit)
                  (λ r. record r { usage_count = r.usage_count + 1 })
                  db.key_versions;
          }))
      → Keeps P (increment_usage_if_below k v limit)
  unfolding increment_usage_if_below
  use-Keeps_if k v limit w = record {
    at = λ db h.
        found_or_not P (find_row _ db.key_versions) none (λ r. some (r.usage_count + 1)) db _ h
          (λ r _. w db h);
  }

  pub destroy-Keeps_if :
      (k : String)
      → ((db : Db)
          → P db
          → P (record db {
            grants = delete_rows (grant_on_key k) db.grants;
            key_versions = delete_rows (version_of k) db.key_versions;
            managed_keys = delete_rows (key_is k) db.managed_keys;
          }))
      → Keeps P (destroy_key k)
  unfolding destroy_key
  destroy-Keeps_if k w = record {
    at = λ db h. either_write P (not (any_row _ db.managed_keys)) false true db _ h (w db h);
  }
