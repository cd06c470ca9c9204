-- ===== src/Api/Sessions/Issued.antt =====
-- What becomes of a value that was signed.
use kmsqr.Base.{
  Bytes, IsBytes, List, [], arith, bytes_eq, bytes_eq_refl, Bool-cases, inl, inr, if◌then◌else◌,
  none, ok, refl, some, true, ℕ, ◌++◌, ◌+◌, ◌∙◌, ◌∷◌, ◌≡◌,
}
use kmsqr.Encoding.Base64.Urlsafe.{HasNo, b64u, b64u-HasNo, b64u_decode, b64u_decode-b64u}
use kmsqr.Api.Texts.{Text, sorted}
use kmsqr.Api.Sessions.{
  Python, SessionManager, cut_at, get_key, is_over, issue, read_session, read_tx, session_payload,
  sign, sign_tx, unsign, verify, verify_tx,
}
use kmsqr.Custody.Json.{
  Fields, Json, JsonLaws, dict, end, field, is_sorted, is_sorted_dict, lookup, number, put, str,
  strs,
}

cut_at-append :
    (sep : ℕ) (xs ys : Text) → HasNo sep xs → cut_at sep (xs ++ sep ∷ ys) ≡ some (xs, ys)
cut_at-append sep [] ys h = ground arith
cut_at-append sep (x ∷ xs) ys h = rw (h.0, cut_at-append sep xs ys h.1) refl

lookup-put : (v : Json) (fs : Fields) → lookup "exp" (put "exp" v fs) ≡ some v
unfolding bytes_eq
lookup-put v end = refl
lookup-put v (field j w fs) = ground (arith, lookup-put v fs)

get_key-put : (default v : Json) (fs : Fields) → get_key "exp" default (put "exp" v fs) ≡ v
get_key-put default v fs = ground (arith, lookup-put v fs)

-- What the code relies on: a MAC is a byte string, json.loads undoes json.dumps, int of a natural
-- number is that number, and the set of a list of texts has these texts.
pub record PythonLaws (py : Python) : Type 0 where
  pub hmac-IsBytes : (key m : Bytes) → IsBytes (py.hmac_sha256 key m)
  pub json_laws : JsonLaws py.json
  pub int-number : (n : ℕ) → py.int (number n) ≡ ok n
  pub set-strs : (ts : List Text) → py.set (strs ts) ≡ ok ts

module _ (py : Python) (laws : PythonLaws py) (m : SessionManager) where
  unsign-tag :
      (value a c : Text) (payload : Bytes)
      → cut_at b'.' value ≡ some (a, c)
      → b64u_decode a ≡ ok payload
      → b64u_decode c ≡ ok (py.hmac_sha256 m.secret payload)
      → unsign py m value ≡ some payload
  unfolding unsign
  unsign-tag value a c payload cut first second =
      rw (cut, first, second, bytes_eq_refl (py.hmac_sha256 m.secret payload)) refl

  unsign-sign : (payload : Bytes) → IsBytes payload → unsign py m (sign py m payload) ≡ some payload
  unfolding sign
  unsign-sign payload h =
      let sig = py.hmac_sha256 m.secret payload in
      unsign-tag (sign py m payload) (b64u payload) (b64u sig) payload
        (cut_at-append b'.' (b64u payload) (b64u sig) (b64u-HasNo payload h))
        (b64u_decode-b64u payload h) (b64u_decode-b64u sig (laws.hmac-IsBytes m.secret payload))

  module _ (v : Json) (sort : is_sorted v ≡ true) (h : IsBytes (py.json.dumps v)) (now : ℕ) where
    verify-sign : verify py m (sign py m (py.json.dumps v)) now ≡ read_session py now v
    unfolding verify
    verify-sign = ground (arith, unsign-sign (py.json.dumps v) h, laws.json_laws.loads-dumps v sort)

    verify_tx-sign : verify_tx py m (sign py m (py.json.dumps v)) now ≡ read_tx py now v
    unfolding verify_tx
    verify_tx-sign =
        ground (arith, unsign-sign (py.json.dumps v) h, laws.json_laws.loads-dumps v sort)

  session_payload-sorted :
      (principal_id : Text) (scopes : List Text) (sub : Text) (now : ℕ)
      → is_sorted (session_payload py m principal_id scopes sub now) ≡ true
  unfolding is_sorted is_sorted_dict
  session_payload-sorted principal_id scopes sub now = refl

  read_session-payload :
      (principal_id : Text) (scopes : List Text) (sub : Text) (now later : ℕ)
      → read_session py later (session_payload py m principal_id scopes sub now)
        ≡ ok (
            if is_over later (now + m.ttl_seconds)
            then none
            else some
                (record { principal_id = str principal_id; scopes = sorted scopes; sub = str sub }))
  unfolding read_session bytes_eq
  read_session-payload principal_id scopes sub now later =
      elim (Bool-cases (is_over later (now + m.ttl_seconds))) [
        | inl over ↦ rw (laws.int-number (now + m.ttl_seconds), over) refl
        | inr live ↦
            rw (laws.int-number (now + m.ttl_seconds), live, laws.set-strs (sorted scopes)) refl
      ]

  read_tx-put :
      (tx : Fields) (exp later : ℕ)
      → read_tx py later (dict (put "exp" (number exp) tx))
        ≡ ok (if is_over later exp then none else some (put "exp" (number exp) tx))
  unfolding read_tx
  read_tx-put tx exp later = elim (Bool-cases (is_over later exp)) [
    | inl over ↦ rw (get_key-put (number 0) (number exp) tx, laws.int-number exp, over) refl
    | inr live ↦ rw (get_key-put (number 0) (number exp) tx, laws.int-number exp, live) refl
  ]

  -- A session that issue made is honoured until its expiry, with the principal, the scopes in order
  -- and the subject that it was issued for, and from its expiry on verify returns None; the
  -- session's JSON text consists of bytes.
  pub verify-issue :
      (principal_id : Text) (scopes : List Text) (sub : Text) (now later : ℕ)
      → IsBytes (py.json.dumps (session_payload py m principal_id scopes sub now))
      → verify py m (issue py m principal_id scopes sub now) later
        ≡ ok (
            if is_over later (now + m.ttl_seconds)
            then none
            else some
                (record { principal_id = str principal_id; scopes = sorted scopes; sub = str sub }))
  unfolding issue
  verify-issue principal_id scopes sub now later h =
      verify-sign (session_payload py m principal_id scopes sub now)
        (session_payload-sorted principal_id scopes sub now) h later
      ∙ read_session-payload principal_id scopes sub now later

  -- A login's transaction that sign_tx signed is returned, with its expiry, for ten minutes, and
  -- from then on verify_tx returns None; the keys of the transaction are in order and its JSON text
  -- consists of bytes.
  pub verify_tx-sign_tx :
      (tx : Fields) (now later : ℕ)
      → is_sorted (dict (put "exp" (number (now + 600)) tx)) ≡ true
      → IsBytes (py.json.dumps (dict (put "exp" (number (now + 600)) tx)))
      → verify_tx py m (sign_tx py m tx now) later
        ≡ ok (if is_over later (now + 600) then none else some (put "exp" (number (now + 600)) tx))
  unfolding sign_tx
  verify_tx-sign_tx tx now later order h =
      verify_tx-sign (dict (put "exp" (number (now + 600)) tx)) order h later
      ∙ read_tx-put tx (now + 600) later
