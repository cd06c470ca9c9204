-- ===== src/Api/Routes/Admin.antt =====
-- pqkms/app/api/routes.py: status, the log, namespaces, grants, principals and tokens.
use kmsqr.Base.{
  Bool, Error, Exec, List, Option, Result, String, [], err, false, gets, http, if◌then◌else◌, lift,
  ltb, map, none, not, ok, page, pure, raise_if, some, str_eq, true, ℕ, ◌>>=◌, ◌>>◌, ◌||◌, ◌∷◌,
}
use kmsqr.Storage.Schema.{AuditRow, Db, GrantRow, NamespaceRow, PrincipalRow, TokenRow}
use kmsqr.Storage.Repository.Log.{list_audit_desc}
use kmsqr.Storage.Repository.Namespaces
use kmsqr.Storage.Repository.Grants
use kmsqr.Storage.Repository.Principals
use kmsqr.Storage.Repository.Tokens
use kmsqr.Storage.Repository.Keys.{get_key_namespace}
use kmsqr.Storage.KeyStore.Material.{is_unlocked, on_db}
use kmsqr.Storage.KeyStore.Bootstrap.{is_initialized}
use kmsqr.Storage.Audit.{verify_chain}
use kmsqr.Api.Texts.{Text, sorted}
use kmsqr.Api.Auth.{Request}
use kmsqr.Api.Auth
use kmsqr.Api.Authz.{grant_ops, parse_operations}
use kmsqr.Api.Routes.{
  Service, Site, Value, audit, catch, null, number, pagination, repo, text, texts, value_status,
  with_scope,
}

pub record Status : Type 0 where
  pub initialized : Bool
  pub unlocked : Bool
  pub pq_available : Bool

-- the bodies of the requests, as their models validate them
pub record GrantRequest : Type 0 where
  pub principal_id : String
  pub resource_type : String
  pub resource_id : String
  pub operations : List Text

pub record TokenRequest : Type 0 where
  pub name : String
  pub scopes : List Text
  pub ttl_seconds : Option ℕ
  pub principal_id : Option String

-- `row is not None`
abbrev pub is_some : {A : Type 0} → Option A → Bool
is_some none = false
is_some (some a) = true

-- `if row is None: raise HTTPException(...)`
abbrev pub present : {A : Type 0} → Option A → Error → Exec Service (Unit {0})
present none e s = (err e, s)
present (some a) e s = (ok tt, s)

abbrev pub operations_or_400 : List Text → Result (List Text)
operations_or_400 raw = elim (parse_operations raw) [ ok ops ↦ ok ops | err e ↦ err (http 400) ]

-- the resource of a grant exists; a key without a namespace counts as unknown
unfoldable pub resource_exists : String → String → Exec Service (Unit {0})
resource_exists resource_type resource_id s =
    if str_eq resource_type "namespace"
    then present (Namespaces.get_namespace_by_id resource_id s.store.db) (http 400) s
    else present (get_key_namespace resource_id s.store.db) (http 400) s

module _ (site : Site) where
  unfoldable pub status : Request → Exec Service Status
  status request = with_scope site "read" request λ caller. gets λ s. record {
    initialized = is_initialized s.store.db;
    unlocked = is_unlocked s.store;
    pq_available = site.primitives.oqs_available;
  }

  unfoldable pub audit_list : Request → ℕ → Exec Service (List AuditRow)
  audit_list request limit = with_scope site "read" request λ caller. do
    raise_if (ltb limit 1 || ltb 1000 limit) (http 400)
    gets λ s. list_audit_desc limit s.store.db

  unfoldable pub audit_verify : Request → Exec Service (Bool × Option ℕ)
  audit_verify request =
      with_scope site "admin" request
        λ caller s. (verify_chain site.primitives site.audit_key s.store.db, s)

  unfoldable pub create_namespace : Request → String → Option String → Exec Service String
  create_namespace request name description = with_scope site "admin" request λ caller. do
    found ← gets (λ (s : Service). Namespaces.get_namespace_by_name name s.store.db)
    raise_if (is_some found) (http 409)
    repo (
        Namespaces.insert_namespace (record {
          id = site.draw.uuid;
          name = name;
          created_at = site.now;
          description = description;
        }))
    audit site caller "namespace.create" site.draw.uuid (("name", text name) ∷ [])
    pure site.draw.uuid

  unfoldable pub list_namespaces : Request → Exec Service (List NamespaceRow)
  list_namespaces request =
      with_scope site "read" request λ caller. gets λ s. Namespaces.list_namespaces s.store.db

  unfoldable pub create_grant : Request → GrantRequest → Exec Service (String × List Text)
  create_grant request req = with_scope site "admin" request λ caller. do
    ops ← lift (operations_or_400 req.operations)
    found ← gets (λ (s : Service). Principals.get_principal req.principal_id s.store.db)
    present found (http 400)
    resource_exists req.resource_type req.resource_id
    authoritative ← repo (
        Grants.upsert_grant (record {
          id = site.draw.uuid;
          principal_id = req.principal_id;
          resource_type = req.resource_type;
          resource_id = req.resource_id;
          operations = site.join_sorted ops;
          created_at = site.now;
          created_by = caller.principal_id;
        }))
    audit site caller "grant.create" authoritative (
        ("principal_id", text req.principal_id)
        ∷ ("resource_type", text req.resource_type)
        ∷ ("resource_id", text req.resource_id)
        ∷ ("operations", texts (sorted ops))
        ∷ [])
    pure (authoritative, sorted ops)

  -- `get_grants_for_principal(principal_id) if principal_id else list_grants(...)`
  abbrev pub grants_listed : Option String → ℕ × ℕ → Db → List GrantRow
  grants_listed none page db = Grants.list_grants page.0 page.1 db
  grants_listed (some pid) page db =
      if str_eq pid ""
      then Grants.list_grants page.0 page.1 db
      else Grants.get_grants_for_principal pid db

  unfoldable pub list_grants :
      Request → Option String → ℕ → ℕ → Exec Service (List (GrantRow × List Text))
  list_grants request principal_id limit offset = do
    page ← lift (pagination limit offset)
    with_scope site "admin" request λ caller.
        gets λ s. map (λ g. (g, sorted (grant_ops g))) (grants_listed principal_id page s.store.db)

  unfoldable pub delete_grant : Request → String → Exec Service Bool
  delete_grant request grant_id = with_scope site "admin" request λ caller. do
    deleted ← repo (Grants.delete_grant grant_id)
    raise_if (not deleted) (http 404)
    audit site caller "grant.delete" grant_id []
    pure true

  unfoldable pub create_principal : Request → String → String → Exec Service String
  create_principal request display_name ptype = with_scope site "admin" request λ caller. do
    pid ←
        catch value_status
          (on_db (Auth.create_principal site.draw.uuid site.now display_name ptype))
    audit site caller "principal.create" pid
        (("display_name", text display_name) ∷ ("ptype", text ptype) ∷ [])
    pure pid

  unfoldable pub list_principals : Request → ℕ → ℕ → Exec Service (List PrincipalRow)
  list_principals request limit offset = do
    page ← lift (pagination limit offset)
    with_scope site "admin" request
        λ caller. gets λ s. Principals.list_principals page.0 page.1 s.store.db

  unfoldable pub delete_principal : Request → String → Exec Service Bool
  delete_principal request principal_id = with_scope site "admin" request λ caller. do
    deleted ← repo (Principals.delete_principal principal_id)
    raise_if (not deleted) (http 404)
    audit site caller "principal.delete" principal_id []
    pure true

  abbrev pub ttl_value : Option ℕ → Value
  ttl_value none = null
  ttl_value (some n) = number n

  unfoldable pub create_token : Request → TokenRequest → Exec Service (String × Text × String)
  create_token request req = with_scope site "admin" request λ caller. do
    created ← catch value_status (
        on_db (
          Auth.create_token site.primitives site.token_draw req.name req.scopes req.ttl_seconds
            req.principal_id))
    audit site caller "token.create" created.0 (
        ("scopes", texts req.scopes)
        ∷ ("name", text req.name)
        ∷ ("ttl_seconds", ttl_value req.ttl_seconds)
        ∷ ("principal_id", text created.2)
        ∷ [])
    pure created

  unfoldable pub list_tokens : Request → ℕ → ℕ → Exec Service (List TokenRow)
  list_tokens request limit offset = do
    page ← lift (pagination limit offset)
    with_scope site "admin" request λ caller. gets λ s. Tokens.list_tokens page.0 page.1 s.store.db

  unfoldable pub revoke_token : Request → String → Exec Service Bool
  revoke_token request token_id = with_scope site "admin" request λ caller. do
    repo (Tokens.revoke_token token_id)
    audit site caller "token.revoke" token_id []
    pure true
