-- ===== src/Api/Routes.antt =====
-- pqkms/app/api/routes.py: the handlers of the routes on keys. A handler's body arrives validated,
-- and the rate limit was passed.
pub mod Keys
pub mod Admin
pub mod Recorded
pub mod Accountable
pub mod Served
pub mod Uses
pub mod Access
use kmsqr.Base.{
  Bool, Bytes, Error, Exec, List, Option, Result, String, [], codes, err, http, if◌then◌else◌,
  key_error, key_state_error, ltb, nonce_budget_exceeded, none, ok, some, str_eq, true, value_error,
  ℕ, ◌||◌, ◌∷◌,
}
use kmsqr.Encoding.Base64.{b64decode}
use kmsqr.Crypto.Primitives.{Primitives}
use kmsqr.Policy.{NonceBudgetPolicy}
use kmsqr.Storage.Schema.{AuditRow, Db}
use kmsqr.Storage.Repository.Namespaces.{get_namespace_by_name}
use kmsqr.Storage.KeyStore.Material.{Draw, KeyStore, on_db}
use kmsqr.Storage.Audit.{LogState, SigningKey, append}
use kmsqr.Api.Texts.{Text}
use kmsqr.Api.Auth.{Sessions, Caller, Request, TokenDraw, require_scope}
use kmsqr.Api.Authz.{Mode, authorize_key_op, authorize_namespace_op}

-- the key store and the audit sink behind the handlers
pub record Service : Type 0 where
  pub store : KeyStore
  pub sink : List AuditRow

-- a value of an audit entry's detail
pub data Value : Type 0 where
  text : String → Value
  texts : List Text → Value
  number : ℕ → Value
  flag : Bool → Value
  null : Value

-- what build_router closes over, and what a request draws
pub record Site : Type 0 where
  pub primitives : Primitives
  pub policy : NonceBudgetPolicy
  pub mode : Mode
  pub audit_key : SigningKey
  pub emit : AuditRow → List AuditRow → Result (List AuditRow)
  -- the commits of other processes between the attempts of an append
  pub others : ℕ → Db → Db
  pub dumps : List (String × Value) → String
  -- `','.join(sorted(scopes))`
  pub join_sorted : List Text → String
  pub like : Text → String → Bool
  pub sessions : Option Sessions
  pub now : ℕ
  pub ts : String
  pub draw : Draw
  pub token_draw : TokenDraw

text_append : String → String → String
text_append String.[] t = t
text_append (String.◌∷◌ c s) t = String.◌∷◌ c (text_append s t)

-- Caller.actor
unfoldable pub actor : Site → Caller → String
unfolding text_append
actor site c = elim c.principal_id [
  | none ↦ text_append "token[" (text_append (site.join_sorted c.scopes) "]")
  | some pid ↦
      if str_eq pid ""
      then text_append "token[" (text_append (site.join_sorted c.scopes) "]")
      else text_append "principal:" pid
]

-- the status that _safe_call gives an exception
abbrev pub status_of : Error → Error
status_of (http n) = http n
status_of key_state_error = http 409
status_of value_error = http 400
status_of key_error = http 400
status_of _ = http 500

-- the handler of encrypt tells the exhausted budget apart
abbrev pub encrypt_status : Error → Error
encrypt_status nonce_budget_exceeded = http 409
encrypt_status e = status_of e

-- the handler of rotate knows only a missing key
abbrev pub rotate_status : Error → Error
rotate_status key_error = http 404
rotate_status _ = http 500

-- `try: ... except`; what was written before the exception stays
abbrev pub catch : {A : Type 0} → (Error → Error) → Exec KeyStore A → Exec Service A
catch f m s =
    let (r, store') = m s.store in
    let s' : Service = record s { store = store' } in
    elim r [ ok a ↦ (ok a, s') | err e ↦ (err (f e), s') ]

-- a method of the repository; what it raises is not caught
abbrev pub repo : {A : Type 0} → Exec Db A → Exec Service A
repo m = catch (λ e. e) (on_db m)

-- `except ValueError` of the handlers that create principals and tokens
abbrev pub value_status : Error → Error
value_status value_error = http 400
value_status e = e

-- _safe_call
abbrev pub safe_call : {A : Type 0} → Exec KeyStore A → Exec Service A
safe_call m = catch status_of m

-- _b64decode and _b64decode_optional
abbrev pub decoded : List ℕ → Result Bytes
decoded s = elim (b64decode true s) [ ok b ↦ ok b | err e ↦ err (http 400) ]

abbrev pub decoded_optional : Option (List ℕ) → Result Bytes
decoded_optional none = ok []
decoded_optional (some []) = ok []
decoded_optional (some (c ∷ cs)) = decoded (c ∷ cs)

-- _pagination; `offset` is a natural number here
unfoldable pub pagination : ℕ → ℕ → Result (ℕ × ℕ)
pagination limit offset =
    if ltb limit 1 || ltb 1000 limit then err (http 400) else ok (limit, offset)

-- `name or "default"`
abbrev pub name_or_default : Option String → String
name_or_default none = "default"
name_or_default (some n) = if str_eq n "" then "default" else n

module _ (site : Site) where
  -- audit.append, run by a handler
  unfoldable pub audit : Caller → String → String → List (String × Value) → Exec Service ℕ
  audit caller action target detail s =
      let log : LogState = record { db = s.store.db; sink = s.sink } in
      let (r, log') =
        append site.primitives site.audit_key site.emit site.others site.ts (actor site caller)
          action (some target) (site.dumps detail) log in
      (r, record { store = record s.store { db = log'.db }; sink = log'.sink })

  -- the dependency of a route on a scope
  unfoldable pub with_scope :
      {A : Type 0} → String → Request → (Caller → Exec Service A) → Exec Service A
  with_scope required request handler s =
      elim (require_scope site.primitives site.sessions site.like site.now (codes required) request
        s.store.db) [ err e ↦ (err e, s) | ok caller ↦ handler caller s ]

  -- `authz.authorize_key_op` before the rest of a handler
  unfoldable pub on_key : {A : Type 0} → Caller → String → String → Exec Service A → Exec Service A
  on_key caller op key_id rest s =
      elim (authorize_key_op site.mode caller (codes op) key_id s.store.db) [
        | err e ↦ (err e, s)
        | ok done ↦ rest s
      ]

  -- _namespace_id_for, with the default name, and the authorization on the namespace
  unfoldable pub in_namespace :
      {A : Type 0} → Caller → Option String → (String → Exec Service A) → Exec Service A
  in_namespace caller name rest s = elim (get_namespace_by_name (name_or_default name) s.store.db) [
    | none ↦ (err (http 400), s)
    | some ns ↦ elim (authorize_namespace_op site.mode caller (codes "manage") ns.id s.store.db) [
      | err e ↦ (err e, s)
      | ok done ↦ rest ns.id s
    ]
  ]
