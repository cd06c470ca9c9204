-- ===== src/Storage/Repository/Meta.antt =====
-- The kms_meta methods of Repository.
pub mod Rows
use kmsqr.Base.{
  Bool, Bytes, Exec, List, Option, Result, String, any_row, err, false, find_row, if◌then◌else◌,
  insert_row, integrity_error, none, ok, some, str_eq, transaction, true, update_rows,
}
use kmsqr.Storage.Schema.{Db, MetaRow}

abbrev pub meta_is : String → MetaRow → Bool
meta_is k r = str_eq r.k k

-- INSERT INTO kms_meta, whose primary key is k
unfoldable insert_meta : String → Bytes → Exec Db (Unit {0})
insert_meta k v db =
    if any_row (meta_is k) db.kms_meta
    then (err integrity_error, db)
    else (ok tt, record db { kms_meta = insert_row (record { k = k; v = v }) db.kms_meta })

unfoldable pub get_meta : String → Db → Option Bytes
get_meta k db = elim (find_row (meta_is k) db.kms_meta) [ none ↦ none | some r ↦ some r.v ]

-- `except IntegrityError` of put_meta: the transaction was rolled back
unfoldable or_false : Bool → Result (Unit {0}) → Result Bool
or_false if_absent (ok _) = ok true
or_false if_absent (err integrity_error) = if if_absent then ok false else err integrity_error
or_false if_absent (err e) = err e

unfoldable pub put_meta : String → Bytes → Bool → Exec Db Bool
unfolding insert_meta or_false
put_meta k v if_absent db =
    let (r, db') = transaction (insert_meta k v) db in (or_false if_absent r, db')

unfoldable pub set_meta : String → Bytes → Exec Db (Unit {0})
unfolding insert_meta
set_meta k v = transaction λ db.
    if any_row (meta_is k) db.kms_meta
    then (
      ok tt,
      record db { kms_meta = update_rows (meta_is k) (λ r. record r { v = v }) db.kms_meta },
    )
    else insert_meta k v db

unfoldable pub meta_exists_any : List String → Db → Bool
meta_exists_any keys db = any_row (λ r. any_row (λ k. str_eq r.k k) keys) db.kms_meta
