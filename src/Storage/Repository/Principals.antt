-- ===== src/Storage/Repository/Principals.antt =====
-- The principals methods of Repository.
use kmsqr.Base.{
  Bool, Exec, List, Option, String, any_row, delete_rows, err, false, find_row, if◌then◌else◌,
  insert_row, integrity_error, newest_first, none, not, ok, page, some, sort_by, str_eq, true,
  update_rows, ℕ,
}
use kmsqr.Storage.Schema.{Db, PrincipalRow, TokenRow}
use kmsqr.Storage.Repository.Tokens.{principal_is, revoke}

-- `id` is the primary key
unfoldable pub insert_principal : PrincipalRow → Exec Db (Unit {0})
insert_principal row db =
    if any_row (principal_is row.id) db.principals
    then (err integrity_error, db)
    else (ok tt, record db { principals = insert_row row db.principals })

unfoldable pub get_principal : String → Db → Option PrincipalRow
get_principal principal_id db = find_row (principal_is principal_id) db.principals

pub list_principals : ℕ → ℕ → Db → List PrincipalRow
list_principals limit offset db =
    page limit offset
      (sort_by (newest_first (λ (r : PrincipalRow). r.created_at) (λ r. r.id)) db.principals)

unfoldable pub set_principal_disabled : String → Bool → Exec Db Bool
set_principal_disabled principal_id is_disabled db = (
  ok (any_row (principal_is principal_id) db.principals),
  record db {
    principals =
        update_rows (principal_is principal_id) (λ r. record r { is_disabled = is_disabled })
          db.principals;
  },
)

abbrev pub token_of : String → TokenRow → Bool
token_of principal_id t = elim t.principal_id [ none ↦ false | some p ↦ str_eq p principal_id ]

-- the tokens of the principal are revoked in the same transaction
unfoldable pub delete_principal : String → Exec Db Bool
delete_principal principal_id db =
    if not (any_row (principal_is principal_id) db.principals) then (ok false, db) else (
      ok true,
      record db {
        api_tokens = update_rows (token_of principal_id) revoke db.api_tokens;
        principals = delete_rows (principal_is principal_id) db.principals;
      },
    )
