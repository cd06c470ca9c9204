-- ===== src/Api/Sessions/Forged.antt =====
-- Which values verify accepts.
use kmsqr.Base.{
  ◌<◌, value_error, if◌then◌else◌, ap, sym, ◌∙◌, Bool-cases, Bytes, Option, Result, [], arith,
  bytes_eq, eq_of_bytes_eq, inl, inr, none, not, ok, refl, some, ℕ, ◌≡◌,
}
use kmsqr.Base.Results.{◌>>=◌, bind-eq-ok, or_none-some, or_raise, or_raise-ok, or_return-some}
use kmsqr.Encoding.Base64.Urlsafe.{b64u_decode}
use kmsqr.Api.Texts.{Text}
use kmsqr.Api.Sessions.{
  Python, SessionClaims, SessionManager, cut_at, get_key, is_over, read_session, unsign, verify,
}
use kmsqr.Custody.Json.{boolean, number, str, unread, Fields, Json, dict, lookup, null, strs}

module _ (py : Python) (m : SessionManager) where
  no_payload : {payload : Bytes} → ◌≡◌ {A = Result (Option Bytes)} (ok none) (ok (some payload)) → ⊥
  no_payload e = ground arith

  -- the comparison of the MACs
  tagged :
      (b sig payload : Bytes)
      → (if not (bytes_eq (py.hmac_sha256 m.secret b) sig) then ok none else ok (some b))
        ≡ ok (some payload)
      → (b ≡ payload) × (sig ≡ py.hmac_sha256 m.secret payload)
  tagged b sig payload h = elim (Bool-cases (bytes_eq (py.hmac_sha256 m.secret b) sig)) [
    | inr miss ↦ absurd (no_payload (rw miss at h))
    | inl hit ↦
        (let e = eq_of_bytes_eq (py.hmac_sha256 m.secret b) sig hit in
          let h' = rw hit at h in
          let same : b ≡ payload = cc in (same, sym e ∙ ap (py.hmac_sha256 m.secret) same))
  ]

  -- the two parts of the value are a payload and its MAC under the manager's secret
  pub record IsSigned (value : Text) (payload : Bytes) : Type 0 where
    pub parts : Text × Text
    pub cut : cut_at b'.' value ≡ some parts
    pub first : b64u_decode parts.0 ≡ ok payload
    pub second : b64u_decode parts.1 ≡ ok (py.hmac_sha256 m.secret payload)

  unsign-IsSigned :
      (value : Text) (payload : Bytes) → unsign py m value ≡ some payload → IsSigned value payload
  unfolding unsign
  unsign-IsSigned value payload h =
      let (parts, cut, h1) =
        bind-eq-ok (or_raise (cut_at b'.' value) value_error) _ (or_none-some _ payload h) in
      let (b, first, h2) = bind-eq-ok (b64u_decode parts.0) _ h1 in
      let (sig, second, h3) = bind-eq-ok (b64u_decode parts.1) _ h2 in
      let (same, tag) = tagged b sig payload h3 in
      record {
        parts = parts;
        cut = or_raise-ok (cut_at b'.' value) value_error parts cut;
        first = first ∙ ap (λ x. ok x) same;
        second = second ∙ ap (λ x. ok x) tag;
      }

  -- A genuine session at a time: signed under the manager's secret, expiring later, and with these
  -- claims in its payload.
  pub record IsGenuine (now : ℕ) (value : Text) (c : SessionClaims) : Type 0 where
    pub payload_b : Bytes
    pub signed : IsSigned value payload_b
    pub payload : Fields
    pub loaded : py.json.loads payload_b ≡ some (dict payload)
    pub at : Json
    pub with_expiry : lookup "exp" payload ≡ some at
    pub exp : ℕ
    pub expires : py.int at ≡ ok exp
    pub in_time : now < exp
    pub of_principal : c.principal_id ≡ get_key "pid" null payload
    pub with_scopes : py.set (get_key "scopes" (strs []) payload) ≡ ok c.scopes
    pub of_subject : c.sub ≡ get_key "sub" null payload

  -- what read_session has found in a payload
  record Found (now : ℕ) (c : SessionClaims) (v : Json) : Type 0 where
    payload : Fields
    is_dict : v ≡ dict payload
    at : Json
    with_expiry : lookup "exp" payload ≡ some at
    exp : ℕ
    expires : py.int at ≡ ok exp
    in_time : now < exp
    of_principal : c.principal_id ≡ get_key "pid" null payload
    with_scopes : py.set (get_key "scopes" (strs []) payload) ≡ ok c.scopes
    of_subject : c.sub ≡ get_key "sub" null payload

  module _ (now : ℕ) (c : SessionClaims) where
    none_read : ◌≡◌ {A = Result (Option SessionClaims)} (ok none) (ok (some c)) → ⊥
    none_read e = ground arith

    -- the payload after the test of "exp"
    abbrev claims_of : Fields → ℕ → Result (Option SessionClaims)
    claims_of payload exp = if is_over now exp then ok none else do
      scopes ← py.set (get_key "scopes" (strs []) payload)
      ok (
          some (record {
            principal_id = get_key "pid" null payload;
            scopes = scopes;
            sub = get_key "sub" null payload;
          }))

    claims_of-Found :
        (payload : Fields) (at : Json) (exp : ℕ)
        → lookup "exp" payload ≡ some at
        → py.int at ≡ ok exp
        → claims_of payload exp ≡ ok (some c)
        → Found now c (dict payload)
    claims_of-Found payload at exp found int h = elim (Bool-cases (is_over now exp)) [
      | inl over ↦ absurd (none_read (rw over at h))
      | inr live ↦
          (let (scopes, got, e) =
              bind-eq-ok (py.set (get_key "scopes" (strs []) payload)) _ (rw live at h) in
            record {
              payload = payload;
              is_dict = refl;
              at = at;
              with_expiry = found;
              exp = exp;
              expires = int;
              in_time = ground arith;
              of_principal = ground arith;
              with_scopes = got ∙ ground arith;
              of_subject = ground arith;
            })
    ]

    read_session-Found : (v : Json) → read_session py now v ≡ ok (some c) → Found now c v
    unfolding read_session
    read_session-Found (dict payload) h =
        let (at, found, h1) = or_return-some (lookup "exp" payload) _ c h in
        let (exp, int, h2) = bind-eq-ok (py.int at) _ h1 in
        claims_of-Found payload at exp found int h2
    read_session-Found null h = absurd (none_read h)
    read_session-Found (boolean b) h = absurd (none_read h)
    read_session-Found (number n) h = absurd (none_read h)
    read_session-Found (str s) h = absurd (none_read h)
    read_session-Found (strs ts) h = absurd (none_read h)
    read_session-Found unread h = absurd (none_read h)

  -- Whatever value verify accepts is a session that the manager's secret signed: its first part is a
  -- payload and its second the payload's MAC under the secret, the payload's expiry lies in the
  -- future, and the claims are the payload's.
  pub verify-IsGenuine :
      (value : Text) (now : ℕ) (c : SessionClaims)
      → verify py m value now ≡ ok (some c)
      → IsGenuine now value c
  unfolding verify
  verify-IsGenuine value now c h =
      let (payload_b, unsigned, h1) = or_return-some (unsign py m value) _ c h in
      let (v, loaded, h2) = or_return-some (py.json.loads payload_b) _ c h1 in
      let f = read_session-Found now c v h2 in
      record {
        payload_b = payload_b;
        signed = unsign-IsSigned value payload_b unsigned;
        payload = f.payload;
        loaded = loaded ∙ ap (λ x. some x) f.is_dict;
        at = f.at;
        with_expiry = f.with_expiry;
        exp = f.exp;
        expires = f.expires;
        in_time = f.in_time;
        of_principal = f.of_principal;
        with_scopes = f.with_scopes;
        of_subject = f.of_subject;
      }
