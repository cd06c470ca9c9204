-- ===== src/Storage/Repository/Meta/Rows.antt =====
-- What the methods on kms_meta leave under a key.
use kmsqr.Base.{
  Bool, Bool-cases, Bytes, List, Option-cases, Result, String, any_row, any_row_mono,
  any_row_of_find, ap, arith, eq_of_str_eq, false, find_of_any, find_row, find_row-insert_hit,
  find_row-insert_miss, find_row-update, find_row_sound, if◌then◌else◌, inl, inr, insert_row, none,
  ok, refl, some, str_eq, str_eq_refl, subst, sym, true, update_rows, updated, ◌∙◌, ◌∷◌, ◌≡◌,
}
use kmsqr.Storage.Schema.{Db, MetaRow}
use kmsqr.Storage.Repository.Meta.{
  get_meta, insert_meta, meta_exists_any, meta_is, or_false, put_meta, set_meta,
}

-- What put_meta with if_absent did: it stored the value under the key, or it found another one.
pub record Settled (k : String) (v : Bytes) (db : Db) (b : Bool) (db' : Db) : Type 0 where
  pub stored : b ≡ true → get_meta k db' ≡ some v
  pub found : b ≡ false → (db' ≡ db) × ((w : Bytes) × (get_meta k db' ≡ some w))

abbrev meta_row : String → Bytes → MetaRow
meta_row k v = record { k = k; v = v }

pub get_meta-inserted :
    (k : String) (v : Bytes) (db : Db)
    → any_row (meta_is k) db.kms_meta ≡ false
    → get_meta k (record db { kms_meta = insert_row (meta_row k v) db.kms_meta }) ≡ some v
unfolding get_meta
get_meta-inserted k v db e =
    rw (get_meta, find_row-insert_hit (meta_is k) (meta_row k v) db.kms_meta e (str_eq_refl k)) refl

get_meta-hit :
    (k : String) (db : Db)
    → any_row (meta_is k) db.kms_meta ≡ true
    → (w : Bytes) × (get_meta k db ≡ some w)
unfolding get_meta
get_meta-hit k db e =
    let (r, found) = find_of_any (meta_is k) db.kms_meta e in (r.v, rw (get_meta, found) refl)

put_meta-hit :
    (k : String) (v : Bytes) (db : Db)
    → any_row (meta_is k) db.kms_meta ≡ true
    → put_meta k v true db ≡ (ok false, db)
unfolding put_meta insert_meta or_false
put_meta-hit k v db e = ground arith

put_meta-miss :
    (k : String) (v : Bytes) (db : Db)
    → any_row (meta_is k) db.kms_meta ≡ false
    → put_meta k v true db
      ≡ (ok true, record db { kms_meta = insert_row (meta_row k v) db.kms_meta })
unfolding put_meta insert_meta or_false
put_meta-miss k v db e = ground arith

pub put_meta-Settled :
    (k : String) (v : Bytes) (db db' : Db) (b : Bool)
    → put_meta k v true db ≡ (ok b, db')
    → Settled k v db b db'
put_meta-Settled k v db db' b h = elim (Bool-cases (any_row (meta_is k) db.kms_meta)) [
  | inl hit ↦ lost hit (sym (put_meta-hit k v db hit) ∙ h)
  | inr miss ↦ won miss (sym (put_meta-miss k v db miss) ∙ h)
]
  where
    lost :
        any_row (meta_is k) db.kms_meta ≡ true
        → ◌≡◌ {A = Result Bool × Db} (ok false, db) (ok b, db')
        → Settled k v db b db'
    lost hit e =
        let same : db ≡ db' = ap (λ (x : Result Bool × Db). x.1) e in
        let (w, there) = get_meta-hit k db hit in
        record {
          stored = λ q. absurd (ground arith);
          found = λ q. (sym same, (w, subst (λ x. get_meta k x ≡ some w) same there));
        }

    won :
        any_row (meta_is k) db.kms_meta ≡ false
        → ◌≡◌ {A = Result Bool × Db}
            (ok true, record db { kms_meta = insert_row (meta_row k v) db.kms_meta })
            (ok b, db')
        → Settled k v db b db'
    won miss e = record {
      stored = λ q.
          subst (λ x. get_meta k x ≡ some v) (ap (λ (x : Result Bool × Db). x.1) e)
            (get_meta-inserted k v db miss);
      found = λ q. absurd (ground arith);
    }

abbrev replace : Bytes → MetaRow → MetaRow
replace v r = record r { v = v }

get_meta-replaced :
    (k : String) (v : Bytes) (db : Db)
    → any_row (meta_is k) db.kms_meta ≡ true
    → get_meta k (record db { kms_meta = update_rows (meta_is k) (replace v) db.kms_meta }) ≡ some v
unfolding get_meta
get_meta-replaced k v db e =
    let (r, found) = find_of_any (meta_is k) db.kms_meta e in
    rw
      (
        get_meta,
        find_row-update (meta_is k) (meta_is k) (replace v) db.kms_meta (λ r. kept (meta_is k r) r),
        found,
        find_row_sound (meta_is k) db.kms_meta r found,
      )
      refl
  where
    kept : (b : Bool) (r : MetaRow) → meta_is k (if b then replace v r else r) ≡ meta_is k r
    kept true r = refl
    kept false r = refl

set_meta-hit :
    (k : String) (v : Bytes) (db : Db)
    → any_row (meta_is k) db.kms_meta ≡ true
    → set_meta k v db
      ≡ (ok tt, record db { kms_meta = update_rows (meta_is k) (replace v) db.kms_meta })
unfolding set_meta
set_meta-hit k v db e = ground arith

set_meta-miss :
    (k : String) (v : Bytes) (db : Db)
    → any_row (meta_is k) db.kms_meta ≡ false
    → set_meta k v db ≡ (ok tt, record db { kms_meta = insert_row (meta_row k v) db.kms_meta })
unfolding set_meta insert_meta
set_meta-miss k v db e = ground arith

-- What set_meta did.
pub record Replaced (k : String) (v : Bytes) (db : Db) (q : Result (Unit {0}) × Db) : Type 0 where
  pub returned : q.0 ≡ ok tt
  pub stored : get_meta k q.1 ≡ some v
  pub others : (j : String) → str_eq k j ≡ false → get_meta j q.1 ≡ get_meta j db
  pub tables : q.1 ≡ record db { kms_meta = q.1.kms_meta }

miss_other :
    (k j : String) (r : MetaRow) → str_eq k j ≡ false → meta_is k r ≡ true → meta_is j r ≡ false
miss_other k j r ne h = rw (eq_of_str_eq r.k k h) ne

get_meta-update_other :
    (k j : String) (v : Bytes) (db : Db)
    → str_eq k j ≡ false
    → get_meta j (record db { kms_meta = update_rows (meta_is k) (replace v) db.kms_meta })
      ≡ get_meta j db
unfolding get_meta
get_meta-update_other k j v db ne = elim (Option-cases (find_row (meta_is j) db.kms_meta)) [
  | inl missing ↦ rw (get_meta, moved, missing) refl
  | inr (r, found) ↦
      let other : meta_is k r ≡ false = elim (Bool-cases (meta_is k r)) [
        | inr e ↦ e
        | inl e ↦
            absurd (
              ground (arith, find_row_sound (meta_is j) db.kms_meta r found, miss_other k j r ne e))
      ] in
      rw (get_meta, moved, found, other) refl
]
  where
    kept : (b : Bool) (r : MetaRow) → meta_is j (if b then replace v r else r) ≡ meta_is j r
    kept true r = refl
    kept false r = refl

    moved :
        find_row (meta_is j) (update_rows (meta_is k) (replace v) db.kms_meta)
        ≡ (elim (find_row (meta_is j) db.kms_meta) [
          | none ↦ none
          | some r ↦ some (updated (meta_is k) (replace v) r)
        ])
    moved =
        find_row-update (meta_is j) (meta_is k) (replace v) db.kms_meta (λ r. kept (meta_is k r) r)

pub set_meta-Replaced : (k : String) (v : Bytes) (db : Db) → Replaced k v db (set_meta k v db)
set_meta-Replaced k v db = elim (Bool-cases (any_row (meta_is k) db.kms_meta)) [
  | inl hit ↦ rw (set_meta-hit k v db hit) (record {
    returned = refl;
    stored = get_meta-replaced k v db hit;
    others = λ j. get_meta-update_other k j v db;
    tables = refl;
  })
  | inr miss ↦ rw (set_meta-miss k v db miss) (record {
    returned = refl;
    stored = get_meta-inserted k v db miss;
    others = λ j ne.
        unfold get_meta in
        rw (get_meta, find_row-insert_miss (meta_is j) (meta_row k v) db.kms_meta ne) refl;
    tables = refl;
  })
]

-- a stored key shows that one of the keys exists
pub stored_any :
    (ks : List String) (k : String) (v : Bytes) (db : Db)
    → ((r : MetaRow) → meta_is k r ≡ true → any_row (λ j. str_eq r.k j) ks ≡ true)
    → get_meta k db ≡ some v
    → meta_exists_any ks db ≡ true
unfolding get_meta meta_exists_any
stored_any ks k v db w h = elim (Option-cases (find_row (meta_is k) db.kms_meta)) [
  | inl missing ↦ absurd (ground arith)
  | inr (r, found) ↦
      any_row_mono (meta_is k) (λ r. any_row (λ j. str_eq r.k j) ks) db.kms_meta w
        (any_row_of_find (meta_is k) db.kms_meta r found)
]

pub is_stored :
    (ks : List String) (k : String) (v : Bytes) (db : Db)
    → get_meta k db ≡ some v
    → meta_exists_any (k ∷ ks) db ≡ true
is_stored ks k v db h = stored_any (k ∷ ks) k v db (λ r e. ground arith) h
