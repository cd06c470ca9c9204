-- ===== src/Api/Auth/Bound.antt =====
-- The principal that create_token binds a new token to.
use kmsqr.Base.{
  any_row, Option-cases, str_eq_refl, find_row-insert_hit, Option, String, ok, none, Bool-cases,
  inl, inr, arith, false, insert_row, refl, some, ℕ, ◌≡◌,
}
use kmsqr.Api.Auth.{bound_principal, create_principal, TokenDraw}
use kmsqr.Storage.Schema.{Db, PrincipalRow}
use kmsqr.Storage.Repository.Tokens.{principal_is}
use kmsqr.Storage.Repository.Principals.{insert_principal, get_principal}

create_principal-tokens :
    (pid : String) (now : ℕ) (name ptype : String) (s t : Db) (x : String)
    → create_principal pid now name ptype s ≡ (ok x, t)
    → t.api_tokens ≡ s.api_tokens
unfolding create_principal insert_principal
create_principal-tokens pid now name ptype s t x h = ground arith

pub bound_principal-tokens :
    (d : TokenDraw) (name : String) (pid : Option String) (s t : Db) (x : String)
    → bound_principal d name pid s ≡ (ok x, t)
    → t.api_tokens ≡ s.api_tokens
unfolding bound_principal
bound_principal-tokens d name none s t x h =
    create_principal-tokens d.principal_uuid d.now name "service" s t x h
bound_principal-tokens d name (some pid) s t x h = ground arith

abbrev pub new_principal : TokenDraw → String → PrincipalRow
new_principal d name = record {
  id = d.principal_uuid;
  ptype = "service";
  display_name = name;
  created_at = d.now;
  is_disabled = false;
}

-- the principal that a new token is for: a new one, or the one that was asked for
abbrev pub owner : TokenDraw → String → Option String → Db → Option PrincipalRow
owner d name none db = some (new_principal d name)
owner d name (some pid) db = get_principal pid db

bound_principal-new :
    (d : TokenDraw) (name : String) (s t : Db) (x : String)
    → bound_principal d name none s ≡ (ok x, t)
    → get_principal x t ≡ owner d name none s
unfolding bound_principal create_principal insert_principal get_principal
bound_principal-new d name s t x h =
    elim (Bool-cases (any_row (principal_is d.principal_uuid) s.principals)) [
      | inl taken ↦ absurd (ground arith)
      | inr unused ↦
          (let same : x ≡ d.principal_uuid = ground arith in
            let rows : t.principals ≡ insert_row (new_principal d name) s.principals =
              ground arith in
            rw (same, rows)
              (find_row-insert_hit (principal_is d.principal_uuid) (new_principal d name)
                s.principals unused (str_eq_refl d.principal_uuid)))
    ]

bound_principal-old :
    (d : TokenDraw) (name pid : String) (s t : Db) (x : String)
    → bound_principal d name (some pid) s ≡ (ok x, t)
    → (r : PrincipalRow) × (get_principal pid s ≡ some r) × (get_principal x t ≡ some r)
unfolding bound_principal
bound_principal-old d name pid s t x h = elim (Option-cases (get_principal pid s)) [
  | inl missing ↦ absurd (ground arith)
  | inr found ↦
      (let same : x ≡ pid = ground arith in
        let kept : t ≡ s = ground arith in (found.0, found.1, rw (same, kept) found.1))
]

pub bound_principal-owner :
    (d : TokenDraw) (name : String) (pid : Option String) (s t : Db) (x : String)
    → bound_principal d name pid s ≡ (ok x, t)
    → (r : PrincipalRow) × (owner d name pid s ≡ some r) × (get_principal x t ≡ some r)
bound_principal-owner d name none s t x h =
    (new_principal d name, refl, bound_principal-new d name s t x h)
bound_principal-owner d name (some pid) s t x h = bound_principal-old d name pid s t x h
