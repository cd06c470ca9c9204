-- ===== src/Api/Auth/Tokens.antt =====
-- Which credentials authenticate.
use kmsqr.Base.{
  Bool, Bool-cases, Bytes, IsIn, IsIn-map, IsIn-select, List, Option, Option-cases, String, [],
  arith, bytes_eq, eq_of_bytes_eq, false, inl, inr, map, none, not, refl, select_rows, some, sym, ℕ,
  ◌&&◌, ◌∷◌, ◌≡◌,
}
use kmsqr.Api.Texts.{Text, split}
use kmsqr.Api.Auth.{Caller, authenticate, first_match, hash_token, is_expired, is_off, token_prefix}
use kmsqr.Crypto.Primitives.{Primitives}
use kmsqr.Storage.Schema.{Db, PrincipalRow, TokenRow}
use kmsqr.Storage.Repository.Tokens.{TokenMatch, find_active_tokens_by_id_prefix, join_principal}

-- the caller of a token
abbrev pub caller_of : TokenMatch → Caller
caller_of r = record {
  principal_id = r.token.principal_id;
  display_name = r.display_name;
  scopes = split b',' r.token.scopes;
}

pub join-token : (ps : List PrincipalRow) (t : TokenRow) → (join_principal ps t).token ≡ t
unfolding join_principal
join-token ps t = ground arith

module _ (p : Primitives) where
  -- a candidate that matches, is not expired and not switched off
  record IsMatch (now : ℕ) (h : Bytes) (rs : List TokenMatch) (c : Caller) : Type 0 where
    row : TokenMatch
    is_in : IsIn row rs
    same_hash : row.token.token_hash ≡ h
    fresh : is_expired p now row.token.expires_at ≡ false
    on : is_off p row.principal_disabled ≡ false
    resolves : c ≡ caller_of row

  later :
      {now : ℕ} {h : Bytes} {r : TokenMatch} {rs : List TokenMatch} {c : Caller}
      → IsMatch now h rs c
      → IsMatch now h (r ∷ rs) c
  later m = record {
    row = m.row;
    is_in = inr m.is_in;
    same_hash = m.same_hash;
    fresh = m.fresh;
    on = m.on;
    resolves = m.resolves;
  }

  first_match-IsMatch :
      (now : ℕ) (h : Bytes) (rs : List TokenMatch) (c : Caller)
      → first_match p now h rs ≡ some c
      → IsMatch now h rs c
  unfolding first_match
  first_match-IsMatch now h [] c e = ground arith
  first_match-IsMatch now h (r ∷ rs) c e = elim (Bool-cases (bytes_eq r.token.token_hash h)) [
    | inr miss ↦ later (first_match-IsMatch now h rs c (rw miss at e))
    | inl hit ↦
        (let e' = rw hit at e in
          record {
            row = r;
            is_in = inl refl;
            same_hash = eq_of_bytes_eq r.token.token_hash h hit;
            fresh = ground arith;
            on = ground arith;
            resolves = ground arith;
          })
  ]

  -- A live token: in the table, not revoked, not expired, with this hash, and of this caller.
  pub record IsLive (now : ℕ) (raw : Text) (db : Db) (c : Caller) : Type 0 where
    pub token : TokenRow
    pub is_in : IsIn token db.api_tokens
    pub same_hash : token.token_hash ≡ hash_token p raw
    pub not_revoked : token.revoked ≡ false
    pub not_expired : is_expired p now token.expires_at ≡ false
    -- the token's principal, if the table has it, is not disabled
    pub not_disabled : is_off p (join_principal db.principals token).principal_disabled ≡ false
    pub resolves : c ≡ caller_of (join_principal db.principals token)

  -- A caller that authenticate returns holds a live token: one of the table that is not revoked and
  -- not expired, whose hash is that of the text presented and whose principal is not disabled; the
  -- caller's identity and scopes are the token's.
  pub authenticate-IsLive :
      (like : Text → String → Bool) (now : ℕ) (raw : Text) (db : Db) (c : Caller)
      → authenticate p like now raw db ≡ some c
      → IsLive now raw db c
  unfolding authenticate find_active_tokens_by_id_prefix token_prefix
  authenticate-IsLive like now raw db c e = elim (Option-cases (token_prefix p raw)) [
    | inl none_found ↦ absurd (no_caller (rw none_found at e))
    | inr found ↦ live found.0 (rw found.1 at e)
  ]
    where
      no_caller : ◌≡◌ {A = Option Caller} none (some c) → ⊥
      no_caller h = ground arith

      live :
          (prefix : Text)
          → first_match p now (hash_token p raw) (
              map
                (join_principal db.principals)
                (select_rows (λ t. not t.revoked && like prefix t.id) db.api_tokens))
            ≡ some c
          → IsLive now raw db c
      live prefix e =
          let m = first_match-IsMatch now (hash_token p raw) _ c e in
          let (t, i, q) = IsIn-map (join_principal db.principals) m.row _ m.is_in in
          let (table, passes) =
            IsIn-select (λ t. not t.revoked && like prefix t.id) t db.api_tokens i in
          record {
            token = t;
            is_in = table;
            same_hash = rw (sym (join-token db.principals t)) (rw q at m.same_hash);
            not_revoked = ground arith;
            not_expired = rw (sym (join-token db.principals t)) (rw q at m.fresh);
            not_disabled = rw q at m.on;
            resolves = rw q at m.resolves;
          }
