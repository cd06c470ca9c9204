-- ===== src/Storage/Repository/Grants.antt =====
-- The grants methods of Repository.
use kmsqr.Base.{
  Bool, Exec, List, String, any_row, delete_rows, err, find_row, if◌then◌else◌, insert_row,
  integrity_error, newest_first, none, ok, page, pure, select_rows, some, sort_by, str_eq,
  transaction, update_rows, ℕ, ◌&&◌, ◌>>=◌, ◌||◌,
}
use kmsqr.Storage.Schema.{Db, GrantRow}

abbrev pub grant_is : String → GrantRow → Bool
grant_is grant_id g = str_eq g.id grant_id

-- the triple under the unique constraint uq_grants_principal_resource
abbrev pub same_target : GrantRow → GrantRow → Bool
same_target row g =
    str_eq g.principal_id row.principal_id
    && str_eq g.resource_type row.resource_type
    && str_eq g.resource_id row.resource_id

-- `id` is the primary key, the triple is unique
insert_grant : GrantRow → Exec Db (Unit {0})
insert_grant row db =
    if any_row (λ g. grant_is row.id g || same_target row g) db.grants
    then (err integrity_error, db)
    else (ok tt, record db { grants = insert_row row db.grants })

abbrev replace_operations : GrantRow → GrantRow → GrantRow
replace_operations row g = record g {
  operations = row.operations;
  created_at = row.created_at;
  created_by = row.created_by;
}

unfoldable pub upsert_grant : GrantRow → Exec Db String
unfolding insert_grant
upsert_grant row = transaction λ db. elim (find_row (same_target row) db.grants) [
  | some g ↦ (
    ok g.id,
    record db { grants = update_rows (grant_is g.id) (replace_operations row) db.grants },
  )
  | none ↦ (insert_grant row >>= λ _. pure row.id) db
]

unfoldable pub get_grants_for_principal : String → Db → List GrantRow
get_grants_for_principal principal_id db =
    select_rows (λ g. str_eq g.principal_id principal_id) db.grants

pub list_grants : ℕ → ℕ → Db → List GrantRow
list_grants limit offset db =
    page limit offset
      (sort_by (newest_first (λ (g : GrantRow). g.created_at) (λ g. g.id)) db.grants)

unfoldable pub delete_grant : String → Exec Db Bool
delete_grant grant_id db = (
  ok (any_row (grant_is grant_id) db.grants),
  record db { grants = delete_rows (grant_is grant_id) db.grants },
)
