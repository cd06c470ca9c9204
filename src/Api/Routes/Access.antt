-- ===== src/Api/Routes/Access.antt =====
-- Who gets a result from a route on a key.
use kmsqr.Base.{
  [], ◌∷◌, Bool-cases, Exec, List, Option, Result, String, ap, arith, codes, err, http, inl, inr,
  none, ok, refl, some, sym, true, ℕ, ◌∙◌, ◌≡◌, ◌⊎◌,
}
use kmsqr.Storage.Schema.{Db}
use kmsqr.Api.Texts.{Text, has, strip}
use kmsqr.Api.Auth.{
  Sessions, by_cookie, dep, named, session_caller, Caller, Request, is_admin, require_scope,
  resolve_caller,
}
use kmsqr.Api.Sessions.{SessionClaims, verify}
use kmsqr.Api.Sessions.Forged.{IsGenuine, verify-IsGenuine}
use kmsqr.Custody.Json.{is_true}
use kmsqr.Api.Auth.Tokens.{IsLive, authenticate-IsLive}
use kmsqr.Api.Authz.{Mode, authorize_key_op, legacy, strict}
use kmsqr.Api.Authz.Grants.{KeyGrant, authorize_key_op-KeyGrant}
use kmsqr.Api.Routes.Uses.{decrypt}
use kmsqr.Api.Routes.{Service, Site, on_key, with_scope}

-- A session that the manager signed, that is not over, and that names the caller.
pub record HasSession (configured : Option Sessions) (now : ℕ) (cookie : Option Text)
    (caller : Caller) : Type 0 where
  pub sessions : Sessions
  pub is_configured : configured ≡ some sessions
  pub value : Text
  pub presented : cookie ≡ some value
  pub claims : SessionClaims
  pub genuine : IsGenuine sessions.python sessions.manager now value claims
  pub names : is_true claims.principal_id ≡ true
  pub resolves : caller ≡ session_caller sessions claims

-- Who a request's credentials name: the holder of a live token, or without a bearer token the
-- caller of the session.
abbrev pub Identified : Site → Option Text → Option Text → Db → Caller → Type 0
Identified site (some token) cookie db caller =
    IsLive site.primitives site.now (strip token) db caller
Identified site none cookie db caller = HasSession site.sessions site.now cookie caller

named-claims :
    (sessions : Sessions) (r : Result (Option SessionClaims)) (caller : Caller)
    → named sessions r ≡ ok (some caller)
    → (c : SessionClaims) × (r ≡ ok (some c))
      × (is_true c.principal_id ≡ true)
      × (caller ≡ session_caller sessions c)
named-claims sessions (err e) caller h = absurd (ground arith)
named-claims sessions (ok none) caller h = absurd (ground arith)
named-claims sessions (ok (some c)) caller h = elim (Bool-cases (is_true c.principal_id)) [
  | inl there ↦ (c, refl, there, same (rw there at h))
  | inr blank ↦ absurd (nobody (rw blank at h))
]
  where
    same :
        ok (some (session_caller sessions c)) ≡ ok (some caller)
        → caller ≡ session_caller sessions c
    same e = cc

    nobody : ◌≡◌ {A = Result (Option Caller)} (ok none) (ok (some caller)) → ⊥
    nobody e = ground arith

by_cookie-HasSession :
    (configured : Option Sessions) (now : ℕ) (cookie : Option Text) (caller : Caller)
    → by_cookie configured now cookie ≡ ok (some caller)
    → HasSession configured now cookie caller
unfolding by_cookie
by_cookie-HasSession none now cookie caller h = absurd (ground arith)
by_cookie-HasSession (some sessions) now none caller h = absurd (ground arith)
by_cookie-HasSession (some sessions) now (some []) caller h = absurd (ground arith)
by_cookie-HasSession (some sessions) now (some (x ∷ xs)) caller h =
    let (c, accepted, there, same) =
      named-claims sessions (verify sessions.python sessions.manager (x ∷ xs) now) caller h in
    record {
      sessions = sessions;
      is_configured = refl;
      value = x ∷ xs;
      presented = refl;
      claims = c;
      genuine = verify-IsGenuine sessions.python sessions.manager (x ∷ xs) now c accepted;
      names = there;
      resolves = same;
    }

-- The caller of a request has the scope, and may operate on the key.
pub record IsAuthorized (site : Site) (request : Request) (required op key_id : String) (db : Db)
    : Type 0 where
  pub caller : Caller
  pub identified : Identified site request.bearer request.cookie db caller
  pub in_scope : (is_admin caller ≡ true) ⊎ (has (codes required) caller.scopes ≡ true)
  pub may :
      (site.mode ≡ legacy)
      ⊎ ((is_admin caller ≡ true)
          ⊎ ((pid : String) × (caller.principal_id ≡ some pid) × KeyGrant pid key_id (codes op) db))

module _ (site : Site) (request : Request) (db : Db) where
  resolves-Identified :
      (caller : Caller) (bearer : Option Text)
      → request.bearer ≡ bearer
      → resolve_caller site.primitives site.sessions site.like site.now request db
        ≡ ok (some caller)
      → Identified site bearer request.cookie db caller
  unfolding resolve_caller
  resolves-Identified caller none b h =
      by_cookie-HasSession site.sessions site.now request.cookie caller
        (rw (resolve_caller, b) at h)
  resolves-Identified caller (some token) b h =
      authenticate-IsLive site.primitives site.like site.now (strip token) db caller
        (inner (rw (resolve_caller, b) at h))
    where
      inner : {o : Option Caller} → ok o ≡ ok (some caller) → o ≡ some caller
      inner e = cc

  -- a caller that passes require_scope
  scope_passed :
      (required : Text) (caller : Caller)
      → require_scope site.primitives site.sessions site.like site.now required request db
        ≡ ok caller
      → (resolve_caller site.primitives site.sessions site.like site.now request db
          ≡ ok (some caller))
        × ((is_admin caller ≡ true) ⊎ (has required caller.scopes ≡ true))
  unfolding require_scope dep
  scope_passed required caller h =
      by_caller (resolve_caller site.primitives site.sessions site.like site.now request db) h
    where
      by_caller :
          (o : Result (Option Caller))
          → dep required o ≡ ok caller
          → (o ≡ ok (some caller))
            × ((is_admin caller ≡ true) ⊎ (has required caller.scopes ≡ true))
      by_caller (err e) q = absurd (ground arith)
      by_caller (ok none) q = absurd (ground arith)
      by_caller (ok (some c)) q = elim (Bool-cases (is_admin c)) [
        | inl admin ↦
            let same : c ≡ caller = ok_same (rw admin at q) in
            (ap (λ x. ok (some x)) same, inl (ap is_admin (sym same) ∙ admin))
        | inr plain ↦ elim (Bool-cases (has required c.scopes)) [
          | inl member ↦
              let same : c ≡ caller = ok_same (rw member at (rw plain at q)) in
              (
                ap (λ x. ok (some x)) same,
                inr (ap (λ x. has required x.scopes) (sym same) ∙ member),
              )
          | inr absent ↦ absurd (refused (rw absent at (rw plain at q)))
        ]
      ]
        where
          ok_same : ok c ≡ ok caller → c ≡ caller
          ok_same e = cc

          refused : ◌≡◌ {A = Result Caller} (err (http 403)) (ok caller) → ⊥
          refused e = ground arith

  grant_passed :
      (caller : Caller) (op key_id : String)
      → authorize_key_op site.mode caller (codes op) key_id db ≡ ok tt
      → (site.mode ≡ legacy)
        ⊎ ((is_admin caller ≡ true)
            ⊎ ((pid : String) × (caller.principal_id ≡ some pid)
                × KeyGrant pid key_id (codes op) db))
  grant_passed caller op key_id h = by_mode site.mode refl
    where
      by_mode :
          (m : Mode)
          → site.mode ≡ m
          → (site.mode ≡ legacy)
            ⊎ ((is_admin caller ≡ true)
                ⊎ ((pid : String) × (caller.principal_id ≡ some pid)
                    × KeyGrant pid key_id (codes op) db))
      by_mode legacy e = inl e
      by_mode strict e = inr (elim (Bool-cases (is_admin caller)) [
        | inl admin ↦ inl admin
        | inr plain ↦ inr (authorize_key_op-KeyGrant caller (codes op) key_id db plain (rw e at h))
      ])

module _ (site : Site) (request : Request) {A : Type 0} (required op key_id : String)
    (body : Caller → Exec Service A) (s t : Service) (a : A) where
  key_passed :
      (caller : Caller)
      → on_key site caller op key_id (body caller) s ≡ (ok a, t)
      → authorize_key_op site.mode caller (codes op) key_id s.store.db ≡ ok tt
  unfolding on_key
  key_passed caller h =
      by_answer (authorize_key_op site.mode caller (codes op) key_id s.store.db) refl
    where
      by_answer :
          (r : Result (Unit {0}))
          → authorize_key_op site.mode caller (codes op) key_id s.store.db ≡ r
          → authorize_key_op site.mode caller (codes op) key_id s.store.db ≡ ok tt
      by_answer (ok tt) e = e
      by_answer (err x) e = absurd (refused (rw (on_key, e) at h))
        where
          refused : ◌≡◌ {A = Result A × Service} (err x, s) (ok a, t) → ⊥
          refused q = ground arith

  -- the frame of every route on a key
  framed-IsAuthorized :
      with_scope site required request (λ c. on_key site c op key_id (body c)) s ≡ (ok a, t)
      → IsAuthorized site request required op key_id s.store.db
  unfolding with_scope
  framed-IsAuthorized h =
      by_answer
        (require_scope site.primitives site.sessions site.like site.now (codes required) request
          s.store.db)
        refl
    where
      by_answer :
          (r : Result Caller)
          → require_scope site.primitives site.sessions site.like site.now
              (codes required)
              request
              s.store.db
            ≡ r
          → IsAuthorized site request required op key_id s.store.db
      by_answer (err x) e = absurd (refused (rw (with_scope, e) at h))
        where
          refused : ◌≡◌ {A = Result A × Service} (err x, s) (ok a, t) → ⊥
          refused q = ground arith
      by_answer (ok caller) e =
          let (resolved, in_scope) =
            scope_passed site request s.store.db (codes required) caller e in
          record {
            caller = caller;
            identified =
                resolves-Identified site request s.store.db caller request.bearer refl resolved;
            in_scope = in_scope;
            may =
                grant_passed site request s.store.db caller op key_id
                  (key_passed caller (rw (with_scope, e) at h));
          }

module _ (site : Site) (request : Request) (key_id : String) (s t : Service) where
  -- Whoever gets a plaintext from the route decrypt was authorized before: the bearer token that
  -- was presented is live (in the table, not revoked, not expired, its principal not disabled), or
  -- without one the session cookie is one that the manager signed, is not over and names the caller;
  -- the caller has the scope decrypt or admin; and in strict mode it is an admin, or its principal
  -- holds a grant of decrypt on the key or on the key's namespace.
  pub decrypt-IsAuthorized :
      (ciphertext : List ℕ) (aad : Option (List ℕ)) (plaintext : List ℕ)
      → decrypt site request key_id ciphertext aad s ≡ (ok plaintext, t)
      → IsAuthorized site request "decrypt" "decrypt" key_id s.store.db
  unfolding decrypt
  decrypt-IsAuthorized ciphertext aad plaintext h =
      framed-IsAuthorized site request "decrypt" "decrypt" key_id _ s t plaintext h
