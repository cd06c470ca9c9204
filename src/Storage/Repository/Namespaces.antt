-- ===== src/Storage/Repository/Namespaces.antt =====
-- The namespaces methods of Repository.
use kmsqr.Base.{
  Bool, Exec, List, Option, String, any_row, err, find_row, if◌then◌else◌, insert_row,
  integrity_error, leb, ok, sort_by, str_eq, ◌||◌,
}
use kmsqr.Storage.Schema.{Db, NamespaceRow}

abbrev pub namespace_is : String → NamespaceRow → Bool
namespace_is namespace_id r = str_eq r.id namespace_id

abbrev pub namespace_named : String → NamespaceRow → Bool
namespace_named name r = str_eq r.name name

-- `id` is the primary key and `name` is unique
unfoldable pub insert_namespace : NamespaceRow → Exec Db (Unit {0})
insert_namespace row db =
    if any_row (λ r. namespace_is row.id r || namespace_named row.name r) db.namespaces
    then (err integrity_error, db)
    else (ok tt, record db { namespaces = insert_row row db.namespaces })

unfoldable pub get_namespace_by_id : String → Db → Option NamespaceRow
get_namespace_by_id namespace_id db = find_row (namespace_is namespace_id) db.namespaces

unfoldable pub get_namespace_by_name : String → Db → Option NamespaceRow
get_namespace_by_name name db = find_row (namespace_named name) db.namespaces

-- ORDER BY created_at ASC
pub list_namespaces : Db → List NamespaceRow
list_namespaces db = sort_by (λ x y. leb x.created_at y.created_at) db.namespaces
