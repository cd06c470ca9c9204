-- ===== src/Api/Auth/Deleted.antt =====
-- The credentials of a deleted principal.
use kmsqr.Api.Auth.Gone.{
  IsSpent, All-IsIn, token_of-owner, update_rows-IsSpent, IsGone, any_row-delete_hit,
  create_principal-Keeps, create_token-Keeps, revoke_token-IsGone, disabled-IsGone,
  delete_principal-IsGone, deleted_principals, deleted_tokens,
}
use kmsqr.Base.{
  Option, Bool, List, String, ap, arith, false, not, ok, some, sym, true, ℕ, ◌&&◌, ◌∙◌, ◌≡◌, ◌≢◌,
}
use kmsqr.Api.Texts.{Text}
use kmsqr.Api.Auth.{TokenDraw, create_principal, create_token, Caller, authenticate}
use kmsqr.Api.Auth.Tokens.{authenticate-IsLive, join-token}
use kmsqr.Crypto.Primitives.{Primitives}
use kmsqr.Storage.Schema.{Db}
use kmsqr.Storage.Repository.Tokens.{revoke_token, principal_is}
use kmsqr.Storage.Repository.Principals.{set_principal_disabled, delete_principal, token_of}

module _ (pid : String) where
  -- the tables after calls of the methods on principals and tokens, each of which may raise; no new
  -- principal gets the identifier
  pub data Later (p : Primitives) (s : Db) : Db → Type 0 where
    unchanged : Later p s s
    token_created :
        {t : Db} (d : TokenDraw) (name : String) (scopes : List Text) (ttl : Option ℕ)
        (asked : Option String)
        → d.principal_uuid ≢ pid
        → Later p s t
        → Later p s (create_token p d name scopes ttl asked t).1
    principal_created :
        {t : Db} (id : String) (at : ℕ) (name ptype : String)
        → id ≢ pid
        → Later p s t
        → Later p s (create_principal id at name ptype t).1
    token_revoked : {t : Db} (id : String) → Later p s t → Later p s (revoke_token id t).1
    principal_deleted : {t : Db} (id : String) → Later p s t → Later p s (delete_principal id t).1
    principal_switched :
        {t : Db} (id : String) (off : Bool)
        → Later p s t
        → Later p s (set_principal_disabled id off t).1

  Later-IsGone : (p : Primitives) (s t : Db) → IsGone pid s → Later p s t → IsGone pid t
  Later-IsGone p s t g unchanged = g
  Later-IsGone p s t g (token_created d name scopes ttl asked ne l) =
      (create_token-Keeps pid p d name scopes ttl asked ne).at _ (Later-IsGone p s _ g l)
  Later-IsGone p s t g (principal_created id at name ptype ne l) =
      (create_principal-Keeps pid id at name ptype ne).at _ (Later-IsGone p s _ g l)
  Later-IsGone p s t g (token_revoked id l) = revoke_token-IsGone pid id _ (Later-IsGone p s _ g l)
  Later-IsGone p s t g (principal_deleted id l) =
      delete_principal-IsGone pid id _ (Later-IsGone p s _ g l)
  Later-IsGone p s t g (principal_switched id off l) =
      disabled-IsGone pid id off _ (Later-IsGone p s _ g l)

  deleted-IsGone : (db db' : Db) → delete_principal pid db ≡ (ok true, db') → IsGone pid db'
  deleted-IsGone db db' h = record {
    missing =
        rw (deleted_principals pid db db' h)
          (any_row-delete_hit pid (principal_is pid) db.principals);
    spent = rw (deleted_tokens pid db db' h) (update_rows-IsSpent pid db.api_tokens);
  }

  -- After delete_principal has deleted a principal, no token authenticates as this principal, now
  -- or after any calls of create_token, create_principal, revoke_token, delete_principal and
  -- set_principal_disabled, whether they return or raise, as long as no new principal is given the
  -- same identifier. A call counts as one step, so that no deletion falls between the test and the
  -- insertion of create_token.
  pub authenticate-delete_principal :
      (p : Primitives) (like : Text → String → Bool) (now : ℕ) (raw : Text) (db db' later : Db)
      (c : Caller)
      → delete_principal pid db ≡ (ok true, db')
      → Later p db' later
      → authenticate p like now raw later ≡ some c
      → c.principal_id ≢ some pid
  authenticate-delete_principal p like now raw db db' later c deleted l h same =
      let live = authenticate-IsLive p like now raw later c h in
      let t = live.token in
      let gone = Later-IsGone p db' later (deleted-IsGone db db' deleted) l in
      let spent : IsSpent pid t = All-IsIn pid t later.api_tokens gone.spent live.is_in in
      let owner : t.principal_id ≡ some pid =
        sym (
          ap (λ x. x.principal_id) live.resolves
          ∙ ap (λ x. x.principal_id) (join-token later.principals t))
        ∙ same in
      let mine : token_of pid t ≡ true = token_of-owner pid t owner in
      clash (token_of pid t) t.revoked mine live.not_revoked spent
    where
      clash : (a b : Bool) → a ≡ true → b ≡ false → (a && not b) ≡ false → ⊥
      clash a b x y z = ground arith
