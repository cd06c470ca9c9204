-- ===== src/Api/Auth/Gone.antt =====
-- Tables without a principal: the methods on principals and tokens keep them so.
use kmsqr.Base.{
  value_error, find_none_of_any, All-append, Error, err, subst, ◌>>=◌, All-update, eq_of_str_eq,
  str_eq, insert_row, delete_rows, Option, Option-cases, Exec, none, All, Bool, Bool-cases, IsIn,
  List, Result, String, [], any_row, ap, arith, false, if◌then◌else◌, inl, inr, not, ok, refl, some,
  str_eq_refl, sym, true, update_rows, ℕ, ◌&&◌, ◌∙◌, ◌∷◌, ◌≡◌, ◌≢◌,
}
use kmsqr.Api.Texts.{has, Text}
use kmsqr.Api.Auth.{
  formatted, all_scopes, bad_ttl, TokenDraw, bound_principal, create_principal, create_token,
}
use kmsqr.Base.Keeps.{Keeps, Keeps-bind, Keeps-pure, Keeps-raise_if}
use kmsqr.Api.Auth.Created.{new_row, store_token}
use kmsqr.Crypto.Primitives.{Primitives}
use kmsqr.Storage.Schema.{Db, PrincipalRow, TokenRow}
use kmsqr.Storage.Repository.Tokens.{insert_token, revoke_token, token_is, principal_is, revoke}
use kmsqr.Storage.Repository.Principals.{
  get_principal, insert_principal, set_principal_disabled, delete_principal, token_of,
}

module _ (pid : String) where
  -- not both a token of the principal and in force
  abbrev pub IsSpent : TokenRow → Type 0
  IsSpent t = (token_of pid t && not t.revoked) ≡ false

  revoked-IsSpent :
      (b : Bool) (t : TokenRow) → token_of pid t ≡ b → IsSpent (if b then revoke t else t)
  revoked-IsSpent true t e = ground arith
  revoked-IsSpent false t e = ground arith

  pub update_rows-IsSpent :
      (ts : List TokenRow) → All IsSpent (update_rows (token_of pid) revoke ts)
  update_rows-IsSpent [] = tt
  update_rows-IsSpent (t ∷ ts) = (revoked-IsSpent (token_of pid t) t refl, update_rows-IsSpent ts)

  pub All-IsIn : (t : TokenRow) (ts : List TokenRow) → All IsSpent ts → IsIn t ts → IsSpent t
  All-IsIn t [] a i = absurd i
  All-IsIn t (x ∷ xs) a (inl e) = rw e a.0
  All-IsIn t (x ∷ xs) a (inr i) = All-IsIn t xs a.1 i

  pub token_of-owner : (t : TokenRow) → t.principal_id ≡ some pid → token_of pid t ≡ true
  token_of-owner t e = rw (token_of, e) (str_eq_refl pid)

  pub deleted_principals :
      (db db' : Db)
      → delete_principal pid db ≡ (ok true, db')
      → db'.principals ≡ delete_rows (principal_is pid) db.principals
  unfolding delete_principal
  deleted_principals db db' h = ground arith

  pub deleted_tokens :
      (db db' : Db)
      → delete_principal pid db ≡ (ok true, db')
      → db'.api_tokens ≡ update_rows (token_of pid) revoke db.api_tokens
  unfolding delete_principal
  deleted_tokens db db' h = elim (Bool-cases (any_row (principal_is pid) db.principals)) [
    | inl there ↦ sym (ap (λ q. q.1.api_tokens) (rw there at h))
    | inr missing ↦ absurd (refused (ap (λ q. q.0) (rw missing at h)))
  ]
    where
      refused : ◌≡◌ {A = Result Bool} (ok false) (ok true) → ⊥
      refused q = ground arith

  -- the principal is not in the table, and has no token in force
  pub record IsGone (db : Db) : Type 0 where
    pub missing : any_row (principal_is pid) db.principals ≡ false
    pub spent : All IsSpent db.api_tokens

  str_eq-other : (x : String) → x ≢ pid → str_eq x pid ≡ false
  str_eq-other x ne = elim (Bool-cases (str_eq x pid)) [
    | inl same ↦ absurd (ne (eq_of_str_eq x pid same))
    | inr other ↦ other
  ]

  any_row-insert_other :
      (r : PrincipalRow) (rs : List PrincipalRow)
      → r.id ≢ pid
      → any_row (principal_is pid) rs ≡ false
      → any_row (principal_is pid) (insert_row r rs) ≡ false
  any_row-insert_other r [] ne h = ground (arith, str_eq-other r.id ne)
  any_row-insert_other r (x ∷ xs) ne h = ground (arith, any_row-insert_other r xs ne)

  any_row-update_same :
      (q : PrincipalRow → Bool) (f : PrincipalRow → PrincipalRow) (rs : List PrincipalRow)
      → ((r : PrincipalRow) → principal_is pid (f r) ≡ principal_is pid r)
      → any_row (principal_is pid) rs ≡ false
      → any_row (principal_is pid) (update_rows q f rs) ≡ false
  any_row-update_same q f [] same h = h
  any_row-update_same q f (x ∷ xs) same h = ground (arith, same x, any_row-update_same q f xs same)

  any_row-delete_none :
      (q p : PrincipalRow → Bool) (rs : List PrincipalRow)
      → any_row p rs ≡ false
      → any_row p (delete_rows q rs) ≡ false
  any_row-delete_none q p [] h = h
  any_row-delete_none q p (x ∷ xs) h = ground (arith, any_row-delete_none q p xs)

  pub any_row-delete_hit :
      (p : PrincipalRow → Bool) (rs : List PrincipalRow) → any_row p (delete_rows p rs) ≡ false
  any_row-delete_hit p [] = refl
  any_row-delete_hit p (x ∷ xs) = ground (arith, any_row-delete_hit p xs)

  revoked-stays : (t : TokenRow) → IsSpent t → IsSpent (revoke t)
  revoked-stays t h = ground arith

  insert_principal-Keeps : (r : PrincipalRow) → r.id ≢ pid → Keeps IsGone (insert_principal r)
  unfolding insert_principal
  insert_principal-Keeps r ne = record { at = λ db g. inserted db g }
    where
      inserted : (db : Db) → IsGone db → IsGone (insert_principal r db).1
      inserted db g = elim (Bool-cases (any_row (principal_is r.id) db.principals)) [
        | inl taken ↦ rw taken g
        | inr unused ↦ rw unused (record {
          missing = any_row-insert_other r db.principals ne g.missing;
          spent = g.spent;
        })
      ]

  pub create_principal-Keeps :
      (id : String) (now : ℕ) (name ptype : String)
      → id ≢ pid
      → Keeps IsGone (create_principal id now name ptype)
  unfolding create_principal
  create_principal-Keeps id now name ptype ne =
      Keeps-bind _ _ (Keeps-raise_if _ _)
        λ _. Keeps-bind _ _ (insert_principal-Keeps _ ne) λ _. Keeps-pure id

  insert_token-Keeps : (t : TokenRow) → token_of pid t ≡ false → Keeps IsGone (insert_token t)
  unfolding insert_token
  insert_token-Keeps t other = record { at = λ db g. inserted db g }
    where
      inserted : (db : Db) → IsGone db → IsGone (insert_token t db).1
      inserted db g = elim (Bool-cases (any_row (token_is t.id) db.api_tokens)) [
        | inl taken ↦ rw taken g
        | inr unused ↦ rw unused (record {
          missing = g.missing;
          spent = All-append IsSpent db.api_tokens (t ∷ []) g.spent (rw other refl, tt);
        })
      ]

  -- a bind whose second action sees what the first returned
  bind-after :
      {A B : Type 0} (m : Exec Db A) (f : A → Exec Db B) (db : Db)
      → ((e : Error) (t : Db) → m db ≡ (err e, t) → IsGone t)
      → ((a : A) (t : Db) → m db ≡ (ok a, t) → IsGone (f a t).1)
      → IsGone ((m >>= f) db).1
  bind-after {A} {B} m f db raised returned = go (m db) refl
    where
      go :
          (q : Result A × Db)
          → m db ≡ q
          → IsGone
              (let z : Result B × Db = elim q.0 [ ok a ↦ f a q.1 | err e ↦ (err e, q.1) ] in z).1
      go (ok a, t) e = returned a t e
      go (err x, t) e = raised x t e

  -- a new token is never for the principal
  bound_principal-IsGone :
      (d : TokenDraw) (name : String) (asked : Option String)
      → d.principal_uuid ≢ pid
      → Keeps IsGone (bound_principal d name asked)
  unfolding bound_principal
  bound_principal-IsGone d name none ne =
      create_principal-Keeps d.principal_uuid d.now name "service" ne
  bound_principal-IsGone d name (some q) ne = record { at = λ db g. kept db g }
    where
      same : (db : Db) → (bound_principal d name (some q) db).1 ≡ db
      same db = elim (Option-cases (get_principal q db)) [
        | inl missing ↦ ground arith
        | inr found ↦ ground arith
      ]

      kept : (db : Db) → IsGone db → IsGone (bound_principal d name (some q) db).1
      kept db g = subst IsGone (sym (same db)) g

  bound_principal-new :
      (d : TokenDraw) (name : String) (db t : Db) (x : String)
      → bound_principal d name none db ≡ (ok x, t)
      → x ≡ d.principal_uuid
  unfolding bound_principal create_principal insert_principal
  bound_principal-new d name db t x h = ground arith

  bound_principal-old :
      (d : TokenDraw) (name q : String) (db t : Db) (x : String)
      → bound_principal d name (some q) db ≡ (ok x, t)
      → (x ≡ q) × (get_principal q db ≢ none)
  unfolding bound_principal
  bound_principal-old d name q db t x h = elim (Option-cases (get_principal q db)) [
    | inl missing ↦ absurd (ground arith)
    | inr found ↦ (ground arith, λ missing. ground arith)
  ]

  bound_principal-other :
      (d : TokenDraw) (name : String) (asked : Option String) (db t : Db) (x : String)
      → d.principal_uuid ≢ pid
      → IsGone db
      → bound_principal d name asked db ≡ (ok x, t)
      → x ≢ pid
  bound_principal-other d name none db t x ne g h same =
      ne (sym (bound_principal-new d name db t x h) ∙ same)
  bound_principal-other d name (some q) db t x ne g h same =
      let (asked, there) = bound_principal-old d name q db t x h in
      let gone : get_principal pid db ≡ none =
        unfold get_principal in find_none_of_any (principal_is pid) db.principals g.missing in
      there (subst (λ y. get_principal y db ≡ none) (sym same ∙ asked) gone)

  bound-Keeps :
      {B : Type 0} (d : TokenDraw) (name : String) (asked : Option String) (f : String → Exec Db B)
      → d.principal_uuid ≢ pid
      → ((x : String) → x ≢ pid → Keeps IsGone (f x))
      → Keeps IsGone (bound_principal d name asked >>= f)
  bound-Keeps d name asked f ne kept = record { at = λ db g. after db g }
    where
      after : (db : Db) → IsGone db → IsGone ((bound_principal d name asked >>= f) db).1
      after db g =
          let there = (bound_principal-IsGone d name asked ne).at db g in
          bind-after (bound_principal d name asked) f db
            (λ e t h. subst IsGone (ap (λ q. q.1) h) there)
            (λ x t h.
              (kept x (bound_principal-other d name asked db t x ne g h)).at t
                (subst IsGone (ap (λ q. q.1) h) there))

  pub create_token-Keeps :
      (p : Primitives) (d : TokenDraw) (name : String) (scopes : List Text) (ttl : Option ℕ)
      (asked : Option String)
      → d.principal_uuid ≢ pid
      → Keeps IsGone (create_token p d name scopes ttl asked)
  unfolding create_token
  create_token-Keeps p d name scopes ttl asked ne =
      Keeps-bind _ _ (Keeps-raise_if (any_row (λ s. not (has s all_scopes)) scopes) value_error)
        λ _. Keeps-bind _ _ (Keeps-raise_if (bad_ttl ttl) value_error) λ _.
          bound-Keeps d name asked (store_token p (new_row p d name scopes ttl) d) ne (λ x other.
            Keeps-bind _ _
              (insert_token-Keeps (new_row p d name scopes ttl x) (str_eq-other x other))
              λ _. Keeps-pure (d.token_uuid, formatted d, x))

  pub revoke_token-IsGone : (id : String) (db : Db) → IsGone db → IsGone (revoke_token id db).1
  unfolding revoke_token
  revoke_token-IsGone id db g = record {
    missing = g.missing;
    spent =
        All-update IsSpent (token_is id) revoke db.api_tokens (λ t _ h. revoked-stays t h) g.spent;
  }

  pub disabled-IsGone :
      (id : String) (b : Bool) (db : Db) → IsGone db → IsGone (set_principal_disabled id b db).1
  unfolding set_principal_disabled
  disabled-IsGone id b db g = record {
    missing = any_row-update_same _ _ db.principals (λ r. refl) g.missing;
    spent = g.spent;
  }

  pub delete_principal-IsGone :
      (id : String) (db : Db) → IsGone db → IsGone (delete_principal id db).1
  unfolding delete_principal
  delete_principal-IsGone id db g = elim (Bool-cases (any_row (principal_is id) db.principals)) [
    | inr missing ↦ rw missing g
    | inl there ↦ rw there (record {
      missing = any_row-delete_none (principal_is id) (principal_is pid) db.principals g.missing;
      spent =
          All-update IsSpent (token_of id) revoke db.api_tokens (λ t _ h. revoked-stays t h)
            g.spent;
    })
  ]
