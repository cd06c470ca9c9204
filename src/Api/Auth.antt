-- ===== src/Api/Auth.antt =====
-- pqkms/app/api/auth.py: principals, tokens and callers. Drawn identifiers, the time and the random
-- text of a token are arguments; a set is a list.
pub mod Tokens
pub mod Bound
pub mod Gone
pub mod Deleted
pub mod Created
use kmsqr.Base.{
  Bool, Bytes, Exec, List, Option, Result, String, [], any_row, bytes_eq, codes, drop, err, false,
  http, if◌then◌else◌, leb, none, not, ok, pure, raise_if, some, str_eq, take, value_error, ℕ, ◌++◌,
  ◌+◌, ◌==◌, ◌>>=◌, ◌>>◌, ◌||◌, ◌∷◌,
}
use kmsqr.Api.Texts.{join, sorted, Text, encode_text, has, is_empty, split, starts_with, strip}
use kmsqr.Api.Sessions.{Python, SessionClaims, SessionManager, verify}
use kmsqr.Custody.Json.{Json, is_true}
use kmsqr.Crypto.Primitives.{Primitives}
use kmsqr.Storage.Schema.{Db}
use kmsqr.Storage.Repository.Tokens.{TokenMatch, find_active_tokens_by_id_prefix, insert_token}
use kmsqr.Storage.Repository.Principals.{get_principal, insert_principal}

pub record Caller : Type 0 where
  pub principal_id : Option String
  pub display_name : Option String
  pub scopes : List Text

abbrev pub all_scopes : List Text
all_scopes =
    codes "admin"
    ∷ codes "encrypt"
    ∷ codes "decrypt"
    ∷ codes "sign"
    ∷ codes "verify"
    ∷ codes "read"
    ∷ codes "manage"
    ∷ []

-- Caller.is_admin
abbrev pub is_admin : Caller → Bool
is_admin c = has (codes "admin") c.scopes

-- TokenAuth.create_principal
unfoldable pub create_principal : String → ℕ → String → String → Exec Db String
create_principal pid now display_name ptype = do
  raise_if (not (str_eq ptype "service" || str_eq ptype "human")) value_error
  insert_principal (record {
    id = pid;
    ptype = ptype;
    display_name = display_name;
    created_at = now;
    is_disabled = false;
  })
  pure pid

-- what create_token draws: the ids, the time, and secrets.token_urlsafe
pub record TokenDraw : Type 0 where
  pub principal_uuid : String
  pub token_uuid : String
  pub raw : Text
  pub now : ℕ

abbrev pub bad_ttl : Option ℕ → Bool
bad_ttl none = false
bad_ttl (some n) = n == 0

abbrev pub expiry : ℕ → Option ℕ → Option ℕ
expiry now none = none
expiry now (some ttl) = some (now + ttl)

-- f"pqkms_{tid[:8]}_{raw}"
abbrev pub formatted : TokenDraw → Text
formatted d = codes "pqkms_" ++ (take 8 (codes d.token_uuid) ++ (codes "_" ++ d.raw))

-- the principal that a new token is bound to
unfoldable pub bound_principal : TokenDraw → String → Option String → Exec Db String
bound_principal d name none = create_principal d.principal_uuid d.now name "service"
bound_principal d name (some pid) =
    λ db. elim (get_principal pid db) [ none ↦ (err value_error, db) | some r ↦ (ok pid, db) ]

-- the part of a request that resolve_caller reads: the bearer token and the session cookie
pub record Request : Type 0 where
  pub bearer : Option Text
  pub cookie : Option Text

-- a session manager, and how a value of its claims becomes a field of a caller (none for None)
pub record Sessions : Type 0 where
  pub python : Python
  pub manager : SessionManager
  pub field_of : Json → Option String

abbrev pub session_caller : Sessions → SessionClaims → Caller
session_caller sessions sess = record {
  principal_id = sessions.field_of sess.principal_id;
  display_name = sessions.field_of sess.sub;
  scopes = sess.scopes;
}

-- `if sess and sess.get("principal_id")`
abbrev pub named : Sessions → Result (Option SessionClaims) → Result (Option Caller)
named sessions (err e) = err e
named sessions (ok none) = ok none
named sessions (ok (some sess)) =
    if is_true sess.principal_id then ok (some (session_caller sessions sess)) else ok none

-- the second half of resolve_caller
unfoldable pub by_cookie : Option Sessions → ℕ → Option Text → Result (Option Caller)
by_cookie none now cookie = ok none
by_cookie (some sessions) now none = ok none
by_cookie (some sessions) now (some cookie) =
    if is_empty cookie
    then ok none
    else named sessions (verify sessions.python sessions.manager cookie now)

-- the test that the dependency of require_scope makes of a caller
unfoldable pub dep : Text → Result (Option Caller) → Result Caller
dep required (err e) = err e
dep required (ok none) = err (http 401)
dep required (ok (some c)) =
    if is_admin c then ok c else if not (has required c.scopes) then err (http 403) else ok c

module _ (p : Primitives) where
  -- _hash_token
  abbrev pub hash_token : Text → Bytes
  hash_token t = p.sha384 (encode_text t)

  -- TokenAuth.create_token
  unfoldable pub create_token :
      TokenDraw → String → List Text → Option ℕ → Option String → Exec Db (String × Text × String)
  unfolding bound_principal
  create_token d name scopes ttl_seconds principal_id = do
    raise_if (any_row (λ s. not (has s all_scopes)) scopes) value_error
    raise_if (bad_ttl ttl_seconds) value_error
    pid ← bound_principal d name principal_id
    insert_token (record {
      id = d.token_uuid;
      token_hash = hash_token (formatted d);
      name = name;
      scopes = join b',' (sorted scopes);
      created_at = d.now;
      revoked = false;
      expires_at = expiry d.now ttl_seconds;
      principal_id = some pid;
    })
    pure (d.token_uuid, formatted d, pid)

  -- `exp is not None and now >= exp`
  abbrev pub is_expired : ℕ → Option ℕ → Bool
  is_expired now none = false
  is_expired now (some at) = leb at now

  -- a missing principal counts as not disabled
  abbrev pub is_off : Option Bool → Bool
  is_off none = false
  is_off (some b) = b

  -- the loop of authenticate over the candidates
  unfoldable pub first_match : ℕ → Bytes → List TokenMatch → Option Caller
  first_match now h [] = none
  first_match now h (r ∷ rs) =
      let rest = first_match now h rs in
      if not (bytes_eq r.token.token_hash h)
      then rest
      else if is_expired now r.token.expires_at
      then none
      else if is_off r.principal_disabled
      then none
      else some (record {
        principal_id = r.token.principal_id;
        display_name = r.display_name;
        scopes = split b',' r.token.scopes;
      })

  -- `raw_token.split("_", 2)` gives three parts: the first ends at the first bar, the second at the
  -- next
  abbrev until_bar : Text → Option (Text × Text)
  until_bar [] = none
  until_bar (c ∷ cs) =
      let rest = until_bar cs in
      if c == b'_' then some ([], cs) else elim rest [ none ↦ none | some q ↦ some (c ∷ q.0, q.1) ]

  -- the second part, if it and the third are not empty
  unfoldable pub token_prefix : Text → Option Text
  token_prefix raw_token =
      if not (starts_with (codes "pqkms_") raw_token)
      then none
      else elim (until_bar (drop 6 raw_token)) [
        | none ↦ none
        | some q ↦ if is_empty q.0 || is_empty q.1 then none else some q.0
      ]

  -- TokenAuth.authenticate; `like prefix id` is the database's LIKE, the prefix being given as text
  unfoldable pub authenticate : (Text → String → Bool) → ℕ → Text → Db → Option Caller
  authenticate like now raw_token db = elim (token_prefix raw_token) [
    | none ↦ none
    | some prefix ↦
        first_match now (hash_token raw_token) (find_active_tokens_by_id_prefix like prefix db)
  ]

  -- resolve_caller: a bearer token takes precedence, also when it is refused
  unfoldable pub resolve_caller :
      Option Sessions → (Text → String → Bool) → ℕ → Request → Db → Result (Option Caller)
  resolve_caller sessions like now request db = elim request.bearer [
    | some token ↦ ok (authenticate like now (strip token) db)
    | none ↦ by_cookie sessions now request.cookie
  ]

  -- the dependency that require_scope makes
  unfoldable pub require_scope :
      Option Sessions → (Text → String → Bool) → ℕ → Text → Request → Db → Result Caller
  require_scope sessions like now required request db =
      dep required (resolve_caller sessions like now request db)
