-- ===== src/Api/Auth/Created.antt =====
-- The credentials of a token that was just created.
use kmsqr.Api.Auth.Bound.{bound_principal-owner, bound_principal-tokens, owner}
use kmsqr.Base.{
  if◌then◌else◌, any_row, find_row, Exec, pure, raise_if, value_error, ◌>>=◌, ◌>>◌, ◌∙◌, Option,
  String, bind-Ran, raise_if-Ran, not, ok, none, bytes_eq_refl, ◌&&◌, Bool-cases, inl, inr, arith,
  All, Bool, Bytes, List, [], bytes_eq, codes, false, insert_row, map, refl, select_rows, some,
  take, true, ℕ, ◌++◌, ◌==◌, ◌∷◌, ◌≡◌,
}
use kmsqr.Api.Texts.{has, join, sorted, split, Text, is_empty}
use kmsqr.Api.Texts.Pieces.{All-known, All-sorted, or_blank, split-join}
use kmsqr.Encoding.Base64.Urlsafe.{HasNo}
use kmsqr.Api.Auth.{
  all_scopes, bad_ttl, bound_principal, create_token, authenticate, expiry, hash_token, is_expired,
  Caller, TokenDraw, first_match, formatted, token_prefix, until_bar,
}
use kmsqr.Crypto.Primitives.{Primitives}
use kmsqr.Storage.Schema.{Db, PrincipalRow, TokenRow}
use kmsqr.Storage.Repository.Tokens.{
  principal_is, insert_token, find_active_tokens_by_id_prefix, TokenMatch, join_principal,
}
use kmsqr.Api.Auth.Tokens.{join-token}
use kmsqr.Storage.Repository.Principals.{get_principal}

-- no bar in a text
abbrev HasNoBar : Text → Type 0
HasNoBar cs = All (λ c. (c == b'_') ≡ false) cs

module _ (p : Primitives) where
  until_bar_lem : (xs ys : Text) → HasNoBar xs → until_bar p (xs ++ b'_' ∷ ys) ≡ some (xs, ys)
  until_bar_lem [] ys h = refl
  until_bar_lem (x ∷ xs) ys h = rw (h.0, until_bar_lem xs ys h.1) refl

  token_prefix-formatted :
      (d : TokenDraw)
      → HasNoBar (take 8 (codes d.token_uuid))
      → is_empty (take 8 (codes d.token_uuid)) ≡ false
      → is_empty d.raw ≡ false
      → token_prefix p (formatted d) ≡ some (take 8 (codes d.token_uuid))
  unfolding token_prefix
  token_prefix-formatted d bare filled secret =
      rw (until_bar_lem (take 8 (codes d.token_uuid)) d.raw bare, filled, secret) refl

  -- a row that has another hash
  abbrev HasOtherHash : Bytes → TokenRow → Type 0
  HasOtherHash h t = bytes_eq t.token_hash h ≡ false

  -- a candidate with another hash is passed over
  first_match-other :
      (now : ℕ) (h : Bytes) (ps : List PrincipalRow) (t : TokenRow) (rs : List TokenMatch)
      → HasOtherHash h t
      → first_match p now h (join_principal ps t ∷ rs) ≡ first_match p now h rs
  unfolding first_match
  first_match-other now h ps t rs a = rw (join-token ps t, a) refl

  -- the new row is the first candidate with its hash
  first_match-inserted :
      (now : ℕ) (h : Bytes) (ps : List PrincipalRow) (q : TokenRow → Bool) (t : TokenRow)
      (ts : List TokenRow) (c : Option Caller)
      → All (HasOtherHash h) ts
      → q t ≡ true
      → first_match p now h (join_principal ps t ∷ []) ≡ c
      → first_match p now h (map (join_principal ps) (select_rows q (insert_row t ts))) ≡ c
  first_match-inserted now h ps q t [] c a e m = rw e m
  first_match-inserted now h ps q t (x ∷ xs) c a e m =
      let rec = first_match-inserted now h ps q t xs c a.1 e m in
      elim (Bool-cases (q x)) [
        | inr skipped ↦ rw skipped rec
        | inl kept ↦ rw kept (first_match-other now h ps x _ a.0 ∙ rec)
      ]

  -- the row of a new token
  abbrev pub new_row : TokenDraw → String → List Text → Option ℕ → String → TokenRow
  new_row d name scopes ttl_seconds pid = record {
    id = d.token_uuid;
    token_hash = hash_token p (formatted d);
    name = name;
    scopes = join b',' (sorted scopes);
    created_at = d.now;
    revoked = false;
    expires_at = expiry d.now ttl_seconds;
    principal_id = some pid;
  }

  -- what create_token does with the principal
  abbrev pub store_token :
      (String → TokenRow) → TokenDraw → String → Exec Db (String × Text × String)
  store_token row d pid = do insert_token (row pid); pure (d.token_uuid, formatted d, pid)

  store_token-Stores :
      (row : String → TokenRow) (d : TokenDraw) (pid : String) (s t : Db)
      (out : String × Text × String)
      → store_token row d pid s ≡ (ok out, t)
      → (out ≡ (d.token_uuid, formatted d, pid))
        × (t.api_tokens ≡ insert_row (row pid) s.api_tokens)
        × (t.principals ≡ s.principals)
  unfolding insert_token
  store_token-Stores row d pid s t out h = (ground arith, ground arith, ground arith)

  -- what create_token has done when it returns
  record IsCreated (row : String → TokenRow) (d : TokenDraw) (name : String) (scopes : List Text)
      (principal_id : Option String) (db db' : Db) (out : String × Text × String) : Type 0 where
    text : out.1 ≡ formatted d
    rows : db'.api_tokens ≡ insert_row (row out.2) db.api_tokens
    of : PrincipalRow
    owns : owner d name principal_id db ≡ some of
    there : get_principal out.2 db' ≡ some of
    known : any_row (λ s. not (has s all_scopes)) scopes ≡ false

  create_token-IsCreated :
      (d : TokenDraw) (name : String) (scopes : List Text) (ttl_seconds : Option ℕ)
      (principal_id : Option String) (db db' : Db) (out : String × Text × String)
      → create_token p d name scopes ttl_seconds principal_id db ≡ (ok out, db')
      → IsCreated (new_row d name scopes ttl_seconds) d name scopes principal_id db db' out
  unfolding create_token
  create_token-IsCreated d name scopes ttl_seconds principal_id db db' out h =
      let row = new_row d name scopes ttl_seconds in
      let bind = bound_principal d name principal_id in
      let (known, h1) =
        raise_if-Ran _ value_error
          (λ _. raise_if (bad_ttl ttl_seconds) value_error >> (bind >>= store_token row d)) db db'
          out h in
      let (_, h2) = raise_if-Ran _ value_error (λ _. bind >>= store_token row d) db db' out h1 in
      let b = bind-Ran bind (store_token row d) db db' out h2 in
      let (e, rows, principals) = store_token-Stores row d b.value b.between db' out b.rest in
      let kept = bound_principal-tokens d name principal_id db b.between b.value b.first in
      let (r, owns, there) =
        bound_principal-owner d name principal_id db b.between b.value b.first in
      record {
        text = rw e refl;
        rows = rw (e, rows, kept) refl;
        of = r;
        owns = owns;
        there = unfold get_principal in rw (e, principals) there;
        known = known;
      }

  join-bound :
      (ps : List PrincipalRow) (t : TokenRow) (pid : String) (r : PrincipalRow)
      → t.principal_id ≡ some pid
      → find_row (principal_is pid) ps ≡ some r
      → join_principal ps t ≡ record {
        token = t;
        display_name = some r.display_name;
        principal_disabled = some r.is_disabled;
      }
  unfolding join_principal
  join-bound ps t pid r e found = ground (arith, e, found)

  authenticate-at :
      (like : Text → String → Bool) (now : ℕ) (raw prefix : Text) (db : Db)
      → token_prefix p raw ≡ some prefix
      → authenticate p like now raw db
        ≡ first_match p now (hash_token p raw) (
            map
              (join_principal db.principals)
              (select_rows (λ t. not t.revoked && like prefix t.id) db.api_tokens))
  unfolding authenticate find_active_tokens_by_id_prefix
  authenticate-at like now raw prefix db e = ground arith

  -- the caller of a new token
  abbrev caller_for : List Text → String → PrincipalRow → Caller
  caller_for scopes pid r = record {
    principal_id = some pid;
    display_name = some r.display_name;
    scopes = or_blank (sorted scopes);
  }

  all_scopes-HasNo : All (HasNo b',') all_scopes
  all_scopes-HasNo = (
    (refl, (refl, (refl, (refl, (refl, tt))))),
    (
      (refl, (refl, (refl, (refl, (refl, (refl, (refl, tt))))))),
      (
        (refl, (refl, (refl, (refl, (refl, (refl, (refl, tt))))))),
        (
          (refl, (refl, (refl, (refl, tt)))),
          (
            (refl, (refl, (refl, (refl, (refl, (refl, tt)))))),
            (
              (refl, (refl, (refl, (refl, tt)))),
              ((refl, (refl, (refl, (refl, (refl, (refl, tt)))))), tt),
            ),
          ),
        ),
      ),
    ),
  )

  -- the scopes that create_token lets through come back from the column
  split-column :
      (scopes : List Text)
      → any_row (λ s. not (has s all_scopes)) scopes ≡ false
      → split b',' (join b',' (sorted scopes)) ≡ or_blank (sorted scopes)
  split-column scopes known = split-join b',' (sorted scopes) (
      All-sorted (HasNo b',') scopes
        (All-known (HasNo b',') scopes all_scopes all_scopes-HasNo known))

  -- the new row, with its principal, is a match unless the principal is disabled
  first_match-new :
      (d : TokenDraw) (name : String) (scopes : List Text) (ttl_seconds : Option ℕ) (pid : String)
      (now : ℕ) (db : Db) (r : PrincipalRow)
      → is_expired p now (expiry d.now ttl_seconds) ≡ false
      → get_principal pid db ≡ some r
      → any_row (λ s. not (has s all_scopes)) scopes ≡ false
      → first_match p now
          (hash_token p (formatted d))
          (join_principal db.principals (new_row d name scopes ttl_seconds pid) ∷ [])
        ≡ (if r.is_disabled then none else some (caller_for scopes pid r))
  unfolding first_match get_principal
  first_match-new d name scopes ttl_seconds pid now db r fresh found known =
      rw
        (
          join-bound db.principals (new_row d name scopes ttl_seconds pid) pid r refl found,
          bytes_eq_refl (hash_token p (formatted d)),
          fresh,
          split-column scopes known,
        )
        refl

  pub authenticate-create_token :
      (like : Text → String → Bool) (now : ℕ) (d : TokenDraw) (name : String) (scopes : List Text)
      (ttl_seconds : Option ℕ) (principal_id : Option String) (db db' : Db)
      (out : String × Text × String)
      → create_token p d name scopes ttl_seconds principal_id db ≡ (ok out, db')
      → is_expired p now (expiry d.now ttl_seconds) ≡ false
      → is_empty d.raw ≡ false
      → is_empty (take 8 (codes d.token_uuid)) ≡ false
      → HasNoBar (take 8 (codes d.token_uuid))
      → like (take 8 (codes d.token_uuid)) d.token_uuid ≡ true
      → All (HasOtherHash (hash_token p (formatted d))) db.api_tokens
      → (r : PrincipalRow) × (owner d name principal_id db ≡ some r)
        × (authenticate p like now out.1 db'
            ≡ (if r.is_disabled then none else some (caller_for scopes out.2 r)))
  authenticate-create_token like now d name scopes ttl_seconds principal_id db db' out h fresh
        secret filled bare liked others =
      let c = create_token-IsCreated d name scopes ttl_seconds principal_id db db' out h in
      let q = λ (t : TokenRow). not t.revoked && like (take 8 (codes d.token_uuid)) t.id in
      let m = first_match-new d name scopes ttl_seconds out.2 now db' c.of fresh c.there c.known in
      let prefix = token_prefix-formatted d bare filled secret in
      (
        c.of,
        c.owns,
        rw (c.text, authenticate-at like now (formatted d) _ db' prefix, c.rows)
            (first_match-inserted now _ db'.principals q _ db.api_tokens _ others liked m),
      )
