-- ===== src/Api/Sessions.antt =====
-- pqkms/app/api/sessions.py: signed session cookies. A random key and the time are arguments.
pub mod Issued
pub mod Forged
use kmsqr.Base.{
  codes, Bool, Bytes, List, Option, Result, String, [], bytes_eq, err, if◌then◌else◌, leb, none,
  not, ok, some, value_error, ℕ, ◌++◌, ◌+◌, ◌==◌, ◌∷◌,
}
use kmsqr.Base.Results.{or_none, or_raise, or_return, ◌>>=◌}
use kmsqr.Encoding.Base64.Urlsafe.{b64u, b64u_decode}
use kmsqr.Api.Texts.{Text, encode_text, is_empty, sorted}
use kmsqr.Custody.Json.{
  Fields, Json, JsonModule, dict, end, field, lookup, null, number, put, str, strs,
}

-- what the code uses of Python and its library
pub record Python : Type 0 where
  -- hmac.new(key, message, hashlib.sha256).digest()
  pub hmac_sha256 : Bytes → Bytes → Bytes
  pub sha256 : Bytes → Bytes
  -- json with the separators "," and ":"
  pub json : JsonModule
  -- int(v), where a negative number counts as 0
  pub int : Json → Result ℕ
  -- the texts in set(v)
  pub set : Json → Result (List Text)

pub record SessionManager : Type 0 where
  pub secret : Bytes
  pub ttl_seconds : ℕ

-- what verify returns of a session
pub record SessionClaims : Type 0 where
  pub principal_id : Json
  pub scopes : List Text
  pub sub : Json

-- SessionManager.__init__
unfoldable pub session_manager : Bytes → ℕ → Result SessionManager
session_manager secret ttl_seconds =
    if is_empty secret
    then err value_error
    else ok (record { secret = secret; ttl_seconds = ttl_seconds })

-- `value.split(sep, 1)`, where it gives two parts
abbrev pub cut_at : ℕ → Text → Option (Text × Text)
cut_at sep [] = none
cut_at sep (c ∷ cs) =
    let rest = cut_at sep cs in
    if c == sep then some ([], cs) else elim rest [ none ↦ none | some q ↦ some (c ∷ q.0, q.1) ]

-- `payload.get(key, default)` of a dictionary
abbrev pub get_key : String → Json → Fields → Json
get_key key default payload = elim (lookup key payload) [ none ↦ default | some v ↦ v ]

abbrev pub is_over : ℕ → ℕ → Bool
is_over now exp = leb exp now

module _ (py : Python) where
  -- `draw` is what secrets.token_bytes returns
  unfoldable pub from_secret_str : Bytes → Option Text → ℕ → Result SessionManager
  from_secret_str draw none ttl_seconds = session_manager draw ttl_seconds
  from_secret_str draw (some secret) ttl_seconds =
      let key = if is_empty secret then draw else py.sha256 (encode_text secret) in
      session_manager key ttl_seconds

  unfoldable pub sign : SessionManager → Bytes → Text
  sign m payload_b = b64u payload_b ++ b'.' ∷ b64u (py.hmac_sha256 m.secret payload_b)

  -- `_unsign`: None for every exception, a value without a dot included
  unfoldable pub unsign : SessionManager → Text → Option Bytes
  unsign m value = or_none do
    parts ← or_raise (cut_at b'.' value) value_error
    payload_b ← b64u_decode parts.0
    sig ← b64u_decode parts.1
    if not (bytes_eq (py.hmac_sha256 m.secret payload_b) sig) then ok none else ok (some payload_b)

  -- the payload of a session
  abbrev pub session_payload : SessionManager → Text → List Text → Text → ℕ → Json
  session_payload m principal_id scopes sub now = dict (
      field (codes "exp") (number (now + m.ttl_seconds)) (
        field (codes "pid") (str principal_id)
          (field (codes "scopes") (strs (sorted scopes)) (field (codes "sub") (str sub) end))))

  unfoldable pub issue : SessionManager → Text → List Text → Text → ℕ → Text
  issue m principal_id scopes sub now =
      sign m (py.json.dumps (session_payload m principal_id scopes sub now))

  -- the second half of verify
  unfoldable pub read_session : ℕ → Json → Result (Option SessionClaims)
  read_session now (dict payload) = or_return (lookup "exp" payload) λ at. do
    exp ← py.int at
    if is_over now exp then ok none else do
      scopes ← py.set (get_key "scopes" (strs []) payload)
      ok (
          some (record {
            principal_id = get_key "pid" null payload;
            scopes = scopes;
            sub = get_key "sub" null payload;
          }))
  read_session now _ = ok none

  unfoldable pub verify : SessionManager → Text → ℕ → Result (Option SessionClaims)
  verify m value now =
      or_return (unsign m value)
        λ payload_b. or_return (py.json.loads payload_b) λ payload. read_session now payload

  -- the transaction of a login
  unfoldable pub sign_tx : SessionManager → Fields → ℕ → Text
  sign_tx m tx now = sign m (py.json.dumps (dict (put "exp" (number (now + 600)) tx)))

  unfoldable pub read_tx : ℕ → Json → Result (Option Fields)
  read_tx now (dict tx) = do
    exp ← py.int (get_key "exp" (number 0) tx)
    if is_over now exp then ok none else ok (some tx)
  read_tx now _ = ok none

  unfoldable pub verify_tx : SessionManager → Text → ℕ → Result (Option Fields)
  verify_tx m value now =
      or_return (unsign m value)
        λ payload_b. or_return (py.json.loads payload_b) λ tx. read_tx now tx
