-- ===== src/Custody/Passphrase.antt =====
-- pqkms/app/custody/passphrase.py and the Argon2id part of crypto/kdf.py.
use kmsqr.Base.{
  Bool-cases, Bytes, IsBytes, List, Option, Result, String, arith, bytes_eq, codes, encode, err,
  false, hashing_error, if◌then◌else◌, inl, inr, key_error, length, none, ok, refl, runtime_error,
  some, str_eq, sym, true, value_error, ℕ, ◌≡◌, ◌⊎◌,
}
use kmsqr.Base.Results.{bind-eq-ok, or_raise, ◌>>=◌, ◌>>◌}
use kmsqr.Encoding.Base64.{b64encode}
use kmsqr.Encoding.Base64.RoundTrip.{b64decode-b64encode}
use kmsqr.Crypto.Primitives.{AeadLaws, Primitives}
use kmsqr.Crypto.Aead.{aead_decrypt, aead_encrypt, blob-IsBytes, decrypts_again, nonce_len}
use kmsqr.Custody.Json.{
  Fields, Json, as_int, dict, end, field, get_or, is_sorted, is_sorted_dict, is_str, item, number,
  str,
}
use kmsqr.Custody.Envelope.{
  Custodian, CustodianLaws, CustodyDraw, CustodyEnvelope, IsStorable, b64_value_of, ensure_backend,
}

abbrev pub root_kek_aad : Bytes
root_kek_aad = encode "pqkms/root-kek/v1"

-- DEFAULT_ARGON2_PARAMS, in the order of its keys
abbrev pub default_argon2_params : Fields
default_argon2_params = field (codes "hash_len") (number 32) (
    field (codes "memory_cost") (number 65536)
      (field (codes "parallelism") (number 4) (field (codes "time_cost") (number 3) end)))

-- `argon2_params or DEFAULT_ARGON2_PARAMS`
abbrev pub params_or_default : Option Fields → Fields
params_or_default none = default_argon2_params
params_or_default (some end) = default_argon2_params
params_or_default (some (field k v fs)) = field k v fs

abbrev pub passphrase_backend : List ℕ
passphrase_backend = codes "passphrase"

-- `envelope.metadata["salt_b64"]`, decoded, whose KeyError and ValueError are a ValueError
abbrev malformed : Result Bytes → Result Bytes
malformed (ok salt) = ok salt
malformed (err key_error) = err value_error
malformed (err e) = err e

-- `except Exception`
abbrev pub invalid_passphrase : Result Bytes → Result Bytes
invalid_passphrase (ok root) = ok root
invalid_passphrase (err e) = err value_error

module _ (p : Primitives) where
  unfoldable pub derive_from_passphrase : String → Bytes → ℕ → ℕ → ℕ → ℕ → Result Bytes
  derive_from_passphrase passphrase salt length time_cost memory_cost parallelism =
      or_raise (p.argon2id (encode passphrase) salt time_cost memory_cost parallelism length)
        hashing_error

  -- PassphraseCustodian._wrapping_key
  unfoldable pub wrapping_key : String → Bytes → Json → Result Bytes
  wrapping_key passphrase salt params = do
    len ← get_or "hash_len" (number 32) params
    time_cost ← item "time_cost" params
    memory_cost ← item "memory_cost" params
    parallelism ← item "parallelism" params
    t ← as_int time_cost
    m ← as_int memory_cost
    l ← as_int parallelism
    n ← as_int len
    derive_from_passphrase passphrase salt n t m l

  -- PassphraseCustodian.initialize
  unfoldable pub initialize : String → Fields → CustodyDraw → Bytes → Result CustodyEnvelope
  initialize passphrase params d root = do
    key ← wrapping_key passphrase d.salt (dict params)
    wrapped ← aead_encrypt p d.nonce key root root_kek_aad
    ok (record {
      backend_id = str passphrase_backend;
      wrapped_root_kek = wrapped;
      metadata = dict (
          field (codes "argon2") (dict params)
            (field (codes "salt_b64") (str (b64encode d.salt)) end));
    })

  -- PassphraseCustodian.unwrap
  unfoldable pub unwrap : String → CustodyEnvelope → Result Bytes
  unwrap passphrase e = do
    ensure_backend passphrase_backend e
    salt ← malformed (item "salt_b64" e.metadata >>= b64_value_of)
    params ← get_or "argon2" (dict default_argon2_params) e.metadata
    key ← wrapping_key passphrase salt params
    invalid_passphrase (aead_decrypt p key e.wrapped_root_kek root_kek_aad)

  -- PassphraseCustodian.__init__
  unfoldable pub passphrase_custodian : String → Option Fields → Result Custodian
  passphrase_custodian passphrase params =
      if str_eq passphrase ""
      then err value_error
      else ok (record {
        backend_id = passphrase_backend;
        healthcheck = ok tt;
        initialize = initialize passphrase (params_or_default params);
        unwrap = unwrap passphrase;
      })

module _ (p : Primitives) (laws : AeadLaws p) where
  -- what a successful initialize went through
  record Sealed (passphrase : String) (params : Fields) (d : CustodyDraw) (root : Bytes)
      (e : CustodyEnvelope) : Type 0 where
    key : Bytes
    wrapped : Bytes
    derives : wrapping_key p passphrase d.salt (dict params) ≡ ok key
    seals : aead_encrypt p d.nonce key root root_kek_aad ≡ ok wrapped
    shows : e ≡ record {
      backend_id = str passphrase_backend;
      wrapped_root_kek = wrapped;
      metadata = dict (
          field
            (codes "argon2")
            (dict params)
            (field (codes "salt_b64") (str (b64encode d.salt)) end));
    }

  initialize-Sealed :
      (passphrase : String) (params : Fields) (d : CustodyDraw) (root : Bytes) (e : CustodyEnvelope)
      → initialize p passphrase params d root ≡ ok e
      → Sealed passphrase params d root e
  unfolding initialize
  initialize-Sealed passphrase params d root e h =
      let (key, derives, h₁) = bind-eq-ok (wrapping_key p passphrase d.salt (dict params)) _ h in
      let (wrapped, seals, h₂) = bind-eq-ok (aead_encrypt p d.nonce key root root_kek_aad) _ h₁ in
      record { key = key; wrapped = wrapped; derives = derives; seals = seals; shows = shown h₂ }
    where
      shown : {x y : CustodyEnvelope} → ok x ≡ ok y → y ≡ x
      shown q = cc

  -- The passphrase custodian recovers a root key from the envelope that it made of it, and the
  -- envelope can be stored, for all parameters that are written with their keys in order.
  pub unwrap-initialize :
      (passphrase : String) (params : Fields) (d : CustodyDraw) (root : Bytes) (e : CustodyEnvelope)
      → is_sorted_dict params ≡ true
      → length d.nonce ≡ nonce_len
      → IsBytes d.salt
      → IsBytes d.nonce
      → IsBytes root
      → initialize p passphrase params d root ≡ ok e
      → IsStorable e × (unwrap p passphrase e ≡ ok root)
  unfolding unwrap is_sorted is_sorted_dict bytes_eq
  unwrap-initialize passphrase params d root e sorted n bs bn br h =
      let z = initialize-Sealed passphrase params d root e h in
      rw z.shows (
        record {
          sorted_backend = refl;
          sorted_metadata = rw sorted refl;
          bytes = blob-IsBytes p laws d.nonce z.key root root_kek_aad z.wrapped bn br z.seals;
        },
        rw
            (
              b64decode-b64encode false d.salt bs,
              z.derives,
              decrypts_again p laws d.nonce z.key root root_kek_aad z.wrapped n z.seals,
            )
            refl,
      )

  -- the envelope that initialize made, written out
  pub initialize-shows :
      (passphrase : String) (params : Fields) (d : CustodyDraw) (root : Bytes) (e : CustodyEnvelope)
      → initialize p passphrase params d root ≡ ok e
      → e ≡ record {
        backend_id = str passphrase_backend;
        wrapped_root_kek = e.wrapped_root_kek;
        metadata = dict (
            field
              (codes "argon2")
              (dict params)
              (field (codes "salt_b64") (str (b64encode d.salt)) end));
      }
  initialize-shows passphrase params d root e h =
      let z = initialize-Sealed passphrase params d root e h in rw z.shows refl

  unwrap_other :
      (passphrase : String) (e : CustodyEnvelope)
      → is_str passphrase_backend e.backend_id ≡ false
      → unwrap p passphrase e ≡ err runtime_error
  unfolding unwrap
  unwrap_other passphrase e h = rw (unwrap, h) refl

  -- A passphrase that is not empty makes a custodian as the key store relies on it: for all
  -- Argon2id parameters that are written with their keys in order, it recovers every root key from
  -- the envelope that it made, the envelope can be stored, and the envelopes of other backends are
  -- refused with a RuntimeError.
  pub passphrase_custodian-CustodianLaws :
      (passphrase : String) (params : Option Fields) (c : Custodian)
      → is_sorted_dict (params_or_default params) ≡ true
      → passphrase_custodian p passphrase params ≡ ok c
      → CustodianLaws c
  unfolding passphrase_custodian
  passphrase_custodian-CustodianLaws passphrase params c sorted h =
      rw (sym (made (Bool-cases (str_eq passphrase "")))) (record {
        unwrap-initialize = λ d root e n bs bn br q.
            unwrap-initialize passphrase (params_or_default params) d root e sorted n bs bn br q;
        unwrap_other = unwrap_other passphrase;
      })
    where
      built : Custodian
      built = record {
        backend_id = passphrase_backend;
        healthcheck = ok tt;
        initialize = initialize p passphrase (params_or_default params);
        unwrap = unwrap p passphrase;
      }

      made : (str_eq passphrase "" ≡ true) ⊎ (str_eq passphrase "" ≡ false) → built ≡ c
      made (inl e) = absurd (ground arith)
      made (inr e) = inner (rw e at h)
        where
          inner : ok built ≡ ok c → built ≡ c
          inner q = cc
