-- ===== src/Api/Authz.antt =====
-- pqkms/app/api/authz.py: which keys a caller may operate on.
pub mod Grants
use kmsqr.Base.{
  Bool, List, Option, Result, String, [], any_row, bytes_eq, codes, err, false, find_row, http,
  if◌then◌else◌, map, none, not, ok, runtime_error, select_rows, some, str_eq, true, value_error,
  ◌&&◌, ◌||◌, ◌∷◌,
}
use kmsqr.Api.Texts.{Text, has, is_empty, lower, split, strip}
use kmsqr.Api.Auth.{Caller, is_admin}
use kmsqr.Storage.Schema.{Db, GrantRow}
use kmsqr.Storage.Repository.Keys.{get_key_namespace}
use kmsqr.Storage.Repository.Grants.{get_grants_for_principal}
use kmsqr.Storage.KeyStore.Material.{ManagedKey}

abbrev pub all_ops : List Text
all_ops =
    codes "encrypt"
    ∷ codes "decrypt"
    ∷ codes "sign"
    ∷ codes "verify"
    ∷ codes "read"
    ∷ codes "manage"
    ∷ []

pub data Mode : Type 0 where
  legacy strict : Mode

-- resolve_mode, of the argument or else of the environment's value
unfoldable pub resolve_mode : Option Text → Option Text → Result Mode
resolve_mode value environment =
    let chosen : Text = elim value [
      | some v ↦ v
      | none ↦ elim environment [ some v ↦ v | none ↦ codes "legacy" ]
    ] in
    let mode = lower (strip chosen) in
    if bytes_eq mode (codes "legacy")
    then ok legacy
    else if bytes_eq mode (codes "strict")
    then ok strict
    else err runtime_error

-- the set of a csv's or a list's items
known_operations : List Text → Result (List Text)
known_operations [] = err value_error
known_operations (o ∷ os) =
    if any_row (λ x. not (has x all_ops)) (o ∷ os) then err value_error else ok (o ∷ os)

-- parse_operations of a text, and of a list
pub parse_operations_csv : Text → Result (List Text)
unfolding known_operations
parse_operations_csv raw =
    known_operations (select_rows (λ o. not (is_empty o)) (map strip (split b',' raw)))

pub parse_operations : List Text → Result (List Text)
unfolding known_operations
parse_operations raw = known_operations (map strip raw)

-- the dictionary of _principal_ops, an entry for each target
pub record Entry : Type 0 where
  pub resource_type : String
  pub resource_id : String
  pub ops : List Text

abbrev pub entry_for : String → String → Entry → Bool
entry_for rtype rid e = str_eq e.resource_type rtype && str_eq e.resource_id rid

-- `out[key] = ops`
abbrev pub put : Entry → List Entry → List Entry
put e [] = e ∷ []
put e (x ∷ xs) =
    let rest = put e xs in if entry_for e.resource_type e.resource_id x then e ∷ xs else x ∷ rest

-- `{o for o in operations.split(",") if o}`
abbrev pub grant_ops : GrantRow → List Text
grant_ops g = select_rows (λ o. not (is_empty o)) (split b',' (codes g.operations))

abbrev pub collect : List Entry → List GrantRow → List Entry
collect out [] = out
collect out (g ∷ gs) =
    collect
      (put
        (record { resource_type = g.resource_type; resource_id = g.resource_id; ops = grant_ops g })
        out)
      gs

-- `if not principal_id`
abbrev pub no_principal : Option String → Bool
no_principal none = true
no_principal (some s) = str_eq s ""

-- _principal_ops
unfoldable pub principal_ops : Option String → Db → List Entry
principal_ops none db = []
principal_ops (some pid) db =
    if str_eq pid "" then [] else collect [] (get_grants_for_principal pid db)

-- `op in grants.get((rtype, rid), set())`
abbrev pub granted_on : String → String → Text → List Entry → Bool
granted_on rtype rid op entries = elim (find_row (entry_for rtype rid) entries) [
  | none ↦ false
  | some e ↦ has op e.ops
]

abbrev pub granted_on_some : String → Option String → Text → List Entry → Bool
granted_on_some rtype none op entries = false
granted_on_some rtype (some rid) op entries = granted_on rtype rid op entries

-- _allows
unfoldable pub allows : Option String → Text → Option String → Option String → Db → Bool
allows principal_id op key_id namespace_id db =
    let grants = principal_ops principal_id db in
    granted_on_some "key" key_id op grants || granted_on_some "namespace" namespace_id op grants

abbrev pub bypasses : Mode → Caller → Bool
bypasses legacy caller = true
bypasses strict caller = is_admin caller

unfoldable pub authorize_key_op : Mode → Caller → Text → String → Db → Result (Unit {0})
authorize_key_op mode caller op key_id db =
    if bypasses mode caller
    then ok tt
    else if not (allows caller.principal_id op (some key_id) (get_key_namespace key_id db) db)
    then err (http 403)
    else ok tt

unfoldable pub authorize_namespace_op : Mode → Caller → Text → String → Db → Result (Unit {0})
authorize_namespace_op mode caller op namespace_id db =
    if bypasses mode caller
    then ok tt
    else if not (allows caller.principal_id op none (some namespace_id) db)
    then err (http 403)
    else ok tt

-- `rid in {rid for (t, rid), ops in grants.items() if t == rtype and "read" in ops}`
abbrev pub readable : String → List Entry → String → Bool
readable rtype entries rid =
    any_row
      (λ (e : Entry).
        str_eq e.resource_type rtype && has (codes "read") e.ops && str_eq e.resource_id rid)
      entries

abbrev pub readable_some : String → List Entry → Option String → Bool
readable_some rtype entries none = false
readable_some rtype entries (some rid) = readable rtype entries rid

unfoldable pub filter_visible_keys : Mode → Caller → List ManagedKey → Db → List ManagedKey
filter_visible_keys mode caller keys db =
    let grants = principal_ops caller.principal_id db in
    if bypasses mode caller
    then keys
    else select_rows
        (λ (k : ManagedKey).
          readable "key" grants k.id || readable_some "namespace" grants k.namespace_id)
        keys
