-- ===== src/Storage/Repository/Tokens.antt =====
-- The api_tokens methods of Repository.
use kmsqr.Base.{
  Bool, Exec, List, Option, String, any_row, err, find_row, if◌then◌else◌, insert_row,
  integrity_error, map, modify, newest_first, none, not, ok, page, select_rows, some, sort_by,
  str_eq, true, update_rows, ℕ, ◌&&◌,
}
use kmsqr.Storage.Schema.{Db, PrincipalRow, TokenRow}

abbrev pub token_is : String → TokenRow → Bool
token_is token_id r = str_eq r.id token_id

unfoldable pub has_any_token : Db → Bool
has_any_token db = any_row (λ r. not r.revoked) db.api_tokens

-- `id` is the primary key
unfoldable pub insert_token : TokenRow → Exec Db (Unit {0})
insert_token row db =
    if any_row (token_is row.id) db.api_tokens
    then (err integrity_error, db)
    else (ok tt, record db { api_tokens = insert_row row db.api_tokens })

abbrev pub revoke : TokenRow → TokenRow
revoke r = record r { revoked = true }

unfoldable pub revoke_token : String → Exec Db (Unit {0})
revoke_token token_id =
    modify λ db. record db { api_tokens = update_rows (token_is token_id) revoke db.api_tokens }

-- a row of api_tokens LEFT JOIN principals
pub record TokenMatch : Type 0 where
  pub token : TokenRow
  pub display_name : Option String
  pub principal_disabled : Option Bool

abbrev pub principal_is : String → PrincipalRow → Bool
principal_is principal_id r = str_eq r.id principal_id

unfoldable pub join_principal : List PrincipalRow → TokenRow → TokenMatch
join_principal ps t =
    let p : Option PrincipalRow = elim t.principal_id [
      | none ↦ none
      | some pid ↦ find_row (principal_is pid) ps
    ] in
    elim p [
      | none ↦ record { token = t; display_name = none; principal_disabled = none }
      | some r ↦ record {
        token = t;
        display_name = some r.display_name;
        principal_disabled = some r.is_disabled;
      }
    ]

-- `like prefix id` is the engine's `id LIKE prefix || '%'`
unfoldable pub find_active_tokens_by_id_prefix :
    (List ℕ → String → Bool) → List ℕ → Db → List TokenMatch
find_active_tokens_by_id_prefix like prefix db =
    map (join_principal db.principals)
      (select_rows (λ t. not t.revoked && like prefix t.id) db.api_tokens)

-- the listing methods order by created_at, newest first, and then by id
pub list_tokens : ℕ → ℕ → Db → List TokenRow
list_tokens limit offset db =
    page limit offset
      (sort_by (newest_first (λ (t : TokenRow). t.created_at) (λ t. t.id)) db.api_tokens)
