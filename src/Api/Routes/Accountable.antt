-- ===== src/Api/Routes/Accountable.antt =====
-- Every change through the routes is accounted for in the log.
use kmsqr.Base.{
  Error, Exec, List, Option, Ran, Result, String, ap, arith, bind-Ran, codes, err, http, none, ok,
  pure, refl, some, subst, ◌>>=◌, ◌≡◌,
}
use kmsqr.Storage.Schema.{NamespaceRow}
use kmsqr.Api.Auth.{Caller, Request, require_scope}
use kmsqr.Api.Authz.{authorize_key_op, authorize_namespace_op}
use kmsqr.Storage.Repository.Namespaces.{get_namespace_by_name}
use kmsqr.Api.Routes.{
  Service, Site, Value, audit, in_namespace, name_or_default, on_key, with_scope,
}
use kmsqr.Api.Routes.Recorded.{IsRecorded, audit-IsRecorded}

-- a part of a handler that leaves an entry whenever it returns; the target may be read off what it
-- returns
pub record Records (site : Site) (caller : Caller) (action : String) {A : Type 0}
    (target : A → String) (m : Exec Service A) : Type 0 where
  at :
      (s t : Service) (a : A)
      → m s ≡ (ok a, t)
      → IsRecorded site caller action (target a) t.store.db

module _ {site : Site} {caller : Caller} {action : String} {A : Type 0} {target : A → String} where
  -- steps before the entry
  pub Records-after :
      {B : Type 0} (m : Exec Service B) (f : B → Exec Service A)
      → ((b : B) → Records site caller action target (f b))
      → Records site caller action target (m >>= f)
  Records-after m f rf = record {
    at = λ s t a h. let r = bind-Ran m f s t a h in (rf r.value).at r.between t a r.rest;
  }

  -- the entry, and the result
  Records-audit :
      (a : A) (detail : List (String × Value))
      → Records site caller action target
          (audit site caller action (target a) detail >>= λ _. pure a)
  Records-audit a detail = record {
    at = λ s t b h.
        let r = bind-Ran (audit site caller action (target a) detail) (λ _. pure a) s t b h in
        finished s t b r;
  }
    where
      finished :
          (s t : Service) (b : A)
          → Ran (audit site caller action (target a) detail) (λ _. pure a) s t b
          → IsRecorded site caller action (target b) t.store.db
      finished s t b r =
          let same : r.between ≡ t = ap (λ (q : Result A × Service). q.1) r.rest in
          let result : a ≡ b = inner (ap (λ (q : Result A × Service). q.0) r.rest) in
          subst (λ x. IsRecorded site caller action (target x) t.store.db) result
            (subst (λ (x : Service). IsRecorded site caller action (target a) x.store.db) same
              (audit-IsRecorded site caller action (target a) detail r.value s r.between r.first))
        where
          inner : {x y : A} → ok x ≡ ok y → x ≡ y
          inner q = cc

  pub Records-on_key :
      (op key_id : String) (rest : Exec Service A)
      → Records site caller action target rest
      → Records site caller action target (on_key site caller op key_id rest)
  unfolding on_key
  Records-on_key op key_id rest rr = record {
    at = λ s t a h.
        by_answer s t a (authorize_key_op site.mode caller (codes op) key_id s.store.db) refl h;
  }
    where
      by_answer :
          (s t : Service) (a : A) (r : Result (Unit {0}))
          → authorize_key_op site.mode caller (codes op) key_id s.store.db ≡ r
          → on_key site caller op key_id rest s ≡ (ok a, t)
          → IsRecorded site caller action (target a) t.store.db
      by_answer s t a (ok tt) e h = rr.at s t a (rw (on_key, e) at h)
      by_answer s t a (err x) e h = absurd (refused (rw (on_key, e) at h))
        where
          refused : ◌≡◌ {A = Result A × Service} (err x, s) (ok a, t) → ⊥
          refused q = ground arith

  pub Records-entry :
      (a : A) (on : String) (detail : List (String × Value))
      → target a ≡ on
      → Records site caller action target (audit site caller action on detail >>= λ _. pure a)
  Records-entry a on detail e =
      subst
        (λ x. Records site caller action target (audit site caller action x detail >>= λ _. pure a))
        e (Records-audit a detail)

  pub Records-in_namespace :
      (name : Option String) (rest : String → Exec Service A)
      → ((ns : String) → Records site caller action target (rest ns))
      → Records site caller action target (in_namespace site caller name rest)
  unfolding in_namespace
  Records-in_namespace name rest rr = record {
    at = λ s t a h. by_name s t a (get_namespace_by_name (name_or_default name) s.store.db) refl h;
  }
    where
      refused :
          {s t : Service} {a : A} (x : Error)
          → ◌≡◌ {A = Result A × Service} (err x, s) (ok a, t)
          → ⊥
      refused x q = ground arith

      by_answer :
          (s t : Service) (a : A) (ns : NamespaceRow) (r : Result (Unit {0}))
          → authorize_namespace_op site.mode caller (codes "manage") ns.id s.store.db ≡ r
          → get_namespace_by_name (name_or_default name) s.store.db ≡ some ns
          → in_namespace site caller name rest s ≡ (ok a, t)
          → IsRecorded site caller action (target a) t.store.db
      by_answer s t a ns (ok tt) e found h = (rr ns.id).at s t a (rw (in_namespace, found, e) at h)
      by_answer s t a ns (err x) e found h = absurd (refused x (rw (in_namespace, found, e) at h))

      by_name :
          (s t : Service) (a : A) (o : Option NamespaceRow)
          → get_namespace_by_name (name_or_default name) s.store.db ≡ o
          → in_namespace site caller name rest s ≡ (ok a, t)
          → IsRecorded site caller action (target a) t.store.db
      by_name s t a none e h = absurd (refused (http 400) (rw (in_namespace, e) at h))
      by_name s t a (some ns) e h =
          by_answer s t a ns
            (authorize_namespace_op site.mode caller (codes "manage") ns.id s.store.db) refl e h

-- The change that a request made is accounted for: the caller passed the scope's test, and the log
-- has an entry of it for the action and the target.
pub record IsAccounted (site : Site) (request : Request) (scope action target : String)
    (s t : Service) : Type 0 where
  pub caller : Caller
  pub passed :
      require_scope site.primitives site.sessions site.like site.now
        (codes scope)
        request
        s.store.db
      ≡ ok caller
  pub recorded : IsRecorded site caller action target t.store.db

module _ (site : Site) (request : Request) where
  pub accounted :
      {A : Type 0} (scope action : String) (target : A → String) (handler : Caller → Exec Service A)
      (s t : Service) (a : A)
      → ((caller : Caller) → Records site caller action target (handler caller))
      → with_scope site scope request handler s ≡ (ok a, t)
      → IsAccounted site request scope action (target a) s t
  unfolding with_scope
  accounted {A} scope action target handler s t a rh h =
      by_answer
        (require_scope site.primitives site.sessions site.like site.now (codes scope) request
          s.store.db)
        refl
    where
      by_answer :
          (r : Result Caller)
          → require_scope site.primitives site.sessions site.like site.now
              (codes scope)
              request
              s.store.db
            ≡ r
          → IsAccounted site request scope action (target a) s t
      by_answer (ok caller) e = record {
        caller = caller;
        passed = e;
        recorded = (rh caller).at s t a (rw (with_scope, e) at h);
      }
      by_answer (err x) e = absurd (refused (rw (with_scope, e) at h))
        where
          refused : ◌≡◌ {A = Result A × Service} (err x, s) (ok a, t) → ⊥
          refused q = ground arith

pub ruleset records_rules = (Records-on_key, Records-in_namespace, Records-entry, Records-after)
