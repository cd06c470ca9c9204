-- ===== src/Custody/Envelope.antt =====
-- pqkms/app/custody/base.py: the envelope of the root key, and the interface of a custodian.
use kmsqr.Base.{
  Bytes, IsBytes, List, Result, bytes_eq, codes, err, false, length, not, ok, refl, runtime_error,
  true, type_error, value_error, ℕ, ◌≡◌,
}
use kmsqr.Base.Results.{or_raise, raise_if, ◌>>=◌, ◌>>◌}
use kmsqr.Encoding.Base64.{b64decode, b64encode}
use kmsqr.Encoding.Base64.RoundTrip.{b64decode-b64encode}
use kmsqr.Custody.Json.{
  Json, JsonLaws, JsonModule, dict, end, field, get_or, is_one, is_sorted, is_sorted_dict, is_str,
  item, null, number, str,
}

-- what json.loads gave for the backend is not tested to be a text
pub record CustodyEnvelope : Type 0 where
  pub backend_id : Json
  pub wrapped_root_kek : Bytes
  pub metadata : Json

abbrev pub serialization_version : ℕ
serialization_version = 1

-- the dictionary that to_bytes dumps, its keys sorted
abbrev pub envelope_dict : CustodyEnvelope → Json
envelope_dict e = dict (
    field (codes "backend") e.backend_id (
      field (codes "metadata") e.metadata (
        field (codes "v") (number serialization_version)
          (field (codes "wrapped_b64") (str (b64encode e.wrapped_root_kek)) end))))

-- base64.b64decode of a value, which must be a text
abbrev pub b64_value_of : Json → Result Bytes
b64_value_of (str s) = b64decode false s
b64_value_of _ = err type_error

module _ (j : JsonModule) where
  unfoldable pub to_bytes : CustodyEnvelope → Bytes
  to_bytes e = j.dumps (envelope_dict e)

  unfoldable pub from_bytes : Bytes → Result CustodyEnvelope
  from_bytes raw = do
    d ← or_raise (j.loads raw) value_error
    v ← get_or "v" null d
    raise_if (not (is_one v)) value_error
    backend ← item "backend" d
    wrapped_text ← item "wrapped_b64" d
    wrapped ← b64_value_of wrapped_text
    metadata ← get_or "metadata" (dict end) d
    ok (record { backend_id = backend; wrapped_root_kek = wrapped; metadata = metadata })

-- what a custodian draws
pub record CustodyDraw : Type 0 where
  pub salt : Bytes
  pub nonce : Bytes

-- RootKeyCustodian
pub record Custodian : Type 0 where
  pub backend_id : List ℕ
  pub healthcheck : Result (Unit {0})
  pub initialize : CustodyDraw → Bytes → Result CustodyEnvelope
  pub unwrap : CustodyEnvelope → Result Bytes

-- RootKeyCustodian.ensure_backend
abbrev pub ensure_backend : List ℕ → CustodyEnvelope → Result (Unit {0})
ensure_backend own e = raise_if (not (is_str own e.backend_id)) runtime_error

-- An envelope that can be stored: JSON values with their keys in order, and bytes.
pub record IsStorable (e : CustodyEnvelope) : Type 0 where
  pub sorted_backend : is_sorted e.backend_id ≡ true
  pub sorted_metadata : is_sorted e.metadata ≡ true
  pub bytes : IsBytes e.wrapped_root_kek

-- What a key store relies on: an envelope that a custodian made can be stored, and the custodian
-- recovers the root key from it; it refuses an envelope of another backend. Nonces are 12 bytes,
-- and draws and root keys are bytes.
pub record CustodianLaws (c : Custodian) : Type 0 where
  pub unwrap-initialize :
      (d : CustodyDraw) (root : Bytes) (e : CustodyEnvelope)
      → length d.nonce ≡ 12
      → IsBytes d.salt
      → IsBytes d.nonce
      → IsBytes root
      → c.initialize d root ≡ ok e
      → IsStorable e × (c.unwrap e ≡ ok root)
  pub unwrap_other :
      (e : CustodyEnvelope)
      → is_str c.backend_id e.backend_id ≡ false
      → c.unwrap e ≡ err runtime_error

envelope_dict-sorted : (e : CustodyEnvelope) → IsStorable e → is_sorted (envelope_dict e) ≡ true
unfolding is_sorted is_sorted_dict
envelope_dict-sorted e h = rw (h.sorted_backend, h.sorted_metadata) refl

module _ (j : JsonModule) (laws : JsonLaws j) where
  -- An envelope that can be stored is read back from its serialization as it was written.
  pub from_bytes-to_bytes :
      (e : CustodyEnvelope) → IsStorable e → from_bytes j (to_bytes j e) ≡ ok e
  unfolding from_bytes to_bytes bytes_eq
  from_bytes-to_bytes e h =
      rw
        (
          laws.loads-dumps (envelope_dict e) (envelope_dict-sorted e h),
          b64decode-b64encode false e.wrapped_root_kek h.bytes,
        )
        refl
