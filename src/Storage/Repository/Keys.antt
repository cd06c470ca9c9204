-- ===== src/Storage/Repository/Keys.antt =====
-- The methods of Repository on managed_keys and key_versions.
pub mod Writes
use kmsqr.Base.{
  Bool, Bytes, Exec, List, Option, String, [], any_row, delete_rows, err, false, find_row,
  if◌then◌else◌, insert_row, integrity_error, ltb, modify, newest_first, none, not, ok, page,
  select_rows, some, sort_by, str_eq, transaction, true, update_rows, ℕ, ◌&&◌, ◌+◌, ◌==◌, ◌>>=◌,
  ◌>>◌, ◌||◌, ◌∷◌,
}
use kmsqr.Storage.Schema.{Db, GrantRow, KeyRow, KeyState, VersionRow, enabled, rotated}

abbrev pub key_is : String → KeyRow → Bool
key_is key_id r = str_eq r.id key_id

abbrev pub version_of : String → VersionRow → Bool
version_of key_id r = str_eq r.key_id key_id

abbrev pub version_is : String → ℕ → VersionRow → Bool
version_is key_id version r = str_eq r.key_id key_id && r.version == version

-- INSERT INTO managed_keys: `id` is the primary key, `name` is unique
unfoldable insert_key : KeyRow → Exec Db (Unit {0})
insert_key mk db =
    if any_row (λ r. str_eq r.id mk.id || str_eq r.name mk.name) db.managed_keys
    then (err integrity_error, db)
    else (ok tt, record db { managed_keys = insert_row mk db.managed_keys })

-- INSERT INTO key_versions: the pair (key_id, version) is unique and key_id refers to a key
unfoldable insert_version : VersionRow → Exec Db (Unit {0})
insert_version kv db =
    if any_row (version_is kv.key_id kv.version) db.key_versions
      || not (any_row (key_is kv.key_id) db.managed_keys)
    then (err integrity_error, db)
    else (ok tt, record db { key_versions = insert_row kv db.key_versions })

unfoldable pub create_key_with_version : KeyRow → VersionRow → Exec Db (Unit {0})
unfolding insert_key insert_version
create_key_with_version mk kv = transaction (do insert_key mk; insert_version kv)

-- UPDATE managed_keys ... WHERE id = key_id; the result tells whether a row was updated
abbrev update_key : String → (KeyRow → KeyRow) → Exec Db Bool
update_key key_id f db = (
  ok (any_row (key_is key_id) db.managed_keys),
  record db { managed_keys = update_rows (key_is key_id) f db.managed_keys },
)

unfoldable pub set_key_state : String → KeyState → Option ℕ → Exec Db Bool
set_key_state key_id state deletion_at =
    update_key key_id (λ r. record r { state = state; deletion_at = deletion_at })

unfoldable pub set_rotation_policy : String → Option ℕ → Exec Db Bool
set_rotation_policy key_id period_days =
    update_key key_id (λ r. record r { rotation_period_days = period_days })

unfoldable pub get_key_state : String → Db → Option (KeyState × Option ℕ)
get_key_state key_id db = elim (find_row (key_is key_id) db.managed_keys) [
  | none ↦ none
  | some r ↦ some (r.state, r.deletion_at)
]

abbrev pub grant_on_key : String → GrantRow → Bool
grant_on_key key_id g = str_eq g.resource_type "key" && str_eq g.resource_id key_id

unfoldable pub destroy_key : String → Exec Db Bool
destroy_key key_id db = if not (any_row (key_is key_id) db.managed_keys) then (ok false, db) else (
  ok true,
  record db {
    grants = delete_rows (grant_on_key key_id) db.grants;
    key_versions = delete_rows (version_of key_id) db.key_versions;
    managed_keys = delete_rows (key_is key_id) db.managed_keys;
  },
)

abbrev pub mark_rotated : VersionRow → VersionRow
mark_rotated r = record r { state = rotated }

unfoldable pub rotate_key : String → ℕ → VersionRow → ℕ → Exec Db (Unit {0})
unfolding insert_version
rotate_key key_id old_version kv new_version = transaction do
  modify λ db. record db {
    key_versions = update_rows (version_is key_id old_version) mark_rotated db.key_versions;
  }
  insert_version kv
  modify λ db. record db {
    managed_keys =
        update_rows (key_is key_id) (λ r. record r { current_version = new_version })
          db.managed_keys;
  }

-- a row of the join of a key with its current version (_CURRENT_COLS)
pub record CurrentRow : Type 0 where
  pub key : KeyRow
  pub suite : ℕ
  pub public_material : Option Bytes
  pub version_created_at : ℕ

abbrev pub current_row : KeyRow → VersionRow → CurrentRow
current_row k v = record {
  key = k;
  suite = v.suite;
  public_material = v.public_material;
  version_created_at = v.created_at;
}

-- _current_join for one key: no row if the current version is missing
unfoldable pub join_current : List VersionRow → KeyRow → Option CurrentRow
join_current versions k = elim (find_row (version_is k.id k.current_version) versions) [
  | none ↦ none
  | some v ↦ some (current_row k v)
]

unfoldable pub get_key_current : String → Db → Option CurrentRow
unfolding join_current
get_key_current key_id db = elim (find_row (key_is key_id) db.managed_keys) [
  | none ↦ none
  | some k ↦ join_current db.key_versions k
]

-- the join over a list of keys
join_all : List VersionRow → List KeyRow → List CurrentRow
join_all versions [] = []
join_all versions (k ∷ ks) = elim (join_current versions k) [
  | none ↦ join_all versions ks
  | some r ↦ r ∷ join_all versions ks
]

abbrev pub has_policy : KeyRow → Bool
has_policy k = elim k.rotation_period_days [ none ↦ false | some n ↦ true ]

abbrev pub is_enabled : KeyState → Bool
is_enabled enabled = true
is_enabled _ = false

unfoldable pub list_rotation_candidates : Db → List CurrentRow
unfolding join_all join_current
list_rotation_candidates db =
    join_all db.key_versions (select_rows (λ k. has_policy k && is_enabled k.state) db.managed_keys)

unfoldable pub get_version : String → ℕ → Db → Option VersionRow
get_version key_id version db = find_row (version_is key_id version) db.key_versions

-- UPDATE ... SET usage_count = usage_count + 1 WHERE ... AND usage_count < hard_limit RETURNING
unfoldable pub increment_usage_if_below : String → ℕ → ℕ → Exec Db (Option ℕ)
increment_usage_if_below key_id version hard_limit db =
    let below = λ (r : VersionRow). version_is key_id version r && ltb r.usage_count hard_limit in
    elim (find_row below db.key_versions) [
      | none ↦ (ok none, db)
      | some r ↦ (
        ok (some (r.usage_count + 1)),
        record db {
          key_versions =
              update_rows below (λ v. record v { usage_count = v.usage_count + 1 }) db.key_versions;
        },
      )
    ]

unfoldable pub version_exists : String → ℕ → Db → Bool
version_exists key_id version db = any_row (version_is key_id version) db.key_versions

-- the namespace_id column of a key; none too if the key does not exist
unfoldable pub get_key_namespace : String → Db → Option String
get_key_namespace key_id db = elim (find_row (key_is key_id) db.managed_keys) [
  | none ↦ none
  | some k ↦ k.namespace_id
]

pub list_keys_current : ℕ → ℕ → Db → List CurrentRow
unfolding join_all join_current
list_keys_current limit offset db = page limit offset (
    join_all db.key_versions
      (sort_by (newest_first (λ (k : KeyRow). k.created_at) (λ k. k.id)) db.managed_keys))
