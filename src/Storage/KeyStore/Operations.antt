-- ===== src/Storage/KeyStore/Operations.antt =====
-- KeyStore: encryption, signatures and data keys.
use kmsqr.Base.{
  Bool, Bytes, Exec, List, Option, String, drop, encode, false, gets, key_error, length, lift, ltb,
  none, not, or_raise, pure, raise_if, some, str_eq, suc, take, type_error, value_error, zero, ℕ,
  ◌++◌, ◌>>=◌, ◌>>◌,
}
use kmsqr.Encoding.Base64.{b64decode, b64encode}
use kmsqr.Encoding.Struct.{pack_bi, unpack_bi}
use kmsqr.Crypto.Primitives.{Primitives}
use kmsqr.Crypto.Suites.{Suite, suite_id, suite_name, suite_of}
use kmsqr.Crypto.Aead.{aead_decrypt, aead_encrypt}
use kmsqr.Crypto.Kem
use kmsqr.Crypto.Signatures
use kmsqr.Policy.{NonceBudgetPolicy, reserve}
use kmsqr.Storage.Repository.Keys.{get_version}
use kmsqr.Storage.KeyStore.Material.{Draw, KeyStore, get_key, on_db, unwrap, version_aad}
use kmsqr.Storage.KeyStore.Lifecycle.{require_enabled}

pub record Ciphertext : Type 0 where
  pub key_id : String
  pub version : ℕ
  pub suite : String
  pub ciphertext : List ℕ

pub record Signature : Type 0 where
  pub key_id : String
  pub version : ℕ
  pub suite : String
  pub signature : List ℕ
  pub public_key : List ℕ

pub record WrappedKey : Type 0 where
  pub key_id : String
  pub version : ℕ
  pub suite : String
  pub encapsulation : List ℕ
  pub wrapped_key : List ℕ

-- a version's suite, unwrapped secret and public half
pub record Loaded : Type 0 where
  pub suite : Suite
  pub secret : Bytes
  pub public : Option Bytes

-- `version or mk.current_version`
abbrev pub version_or : Option ℕ → ℕ → ℕ
version_or none current = current
version_or (some zero) current = current
version_or (some (suc n)) current = suc n

abbrev pub wrap_aad : Bytes
wrap_aad = encode "pqkms/wrap/v1"

module _ (p : Primitives) where
  unfoldable pub load_version : String → ℕ → Exec KeyStore Loaded
  load_version key_id version = do
    found ← gets (λ s. get_version key_id version s.db)
    r ← or_raise found key_error
    secret ← unwrap p r.wrapped_secret (version_aad key_id version)
    suite ← lift (suite_of r.suite)
    pure (record { suite = suite; secret = secret; public = r.public_material })

  unfoldable pub encrypt :
      NonceBudgetPolicy → Draw → String → Bytes → Bytes → Exec KeyStore Ciphertext
  encrypt policy d key_id plaintext aad = do
    mk ← require_enabled key_id
    raise_if (not (str_eq mk.key_type "aead")) value_error
    v ← load_version key_id mk.current_version
    on_db (reserve policy key_id mk.current_version)
    blob ← lift (aead_encrypt p d.nonce v.secret plaintext aad)
    header ← lift (pack_bi (suite_id v.suite) mk.current_version)
    pure (record {
      key_id = key_id;
      version = mk.current_version;
      suite = suite_name v.suite;
      ciphertext = b64encode (header ++ blob);
    })

  unfoldable pub decrypt : String → List ℕ → Bytes → Exec KeyStore Bytes
  decrypt key_id ciphertext_b64 aad = do
    require_enabled key_id
    raw ← lift (b64decode false ciphertext_b64)
    raise_if (ltb (length raw) 5) value_error
    (suite, version) ← lift (unpack_bi (take 5 raw))
    v ← load_version key_id version
    lift (aead_decrypt p v.secret (drop 5 raw) aad)

  unfoldable pub sign : String → Bytes → Exec KeyStore Signature
  sign key_id message = do
    mk ← require_enabled key_id
    raise_if (not (str_eq mk.key_type "sig")) value_error
    v ← load_version key_id mk.current_version
    sig ← lift (Signatures.sign p v.secret message v.suite)
    public ← or_raise v.public type_error
    pure (record {
      key_id = key_id;
      version = mk.current_version;
      suite = suite_name v.suite;
      signature = b64encode sig;
      public_key = b64encode public;
    })

  -- no test of the lifecycle state; a missing key is a ValueError here
  unfoldable pub verify : String → Bytes → List ℕ → Option ℕ → Exec KeyStore Bool
  verify key_id message signature_b64 version = do
    found ← gets (λ s. get_key key_id s.db)
    mk ← or_raise found value_error
    raise_if (not (str_eq mk.key_type "sig")) value_error
    v ← load_version key_id (version_or version mk.current_version)
    public ← or_raise v.public type_error
    sig ← lift (b64decode false signature_b64)
    lift (Signatures.verify p public message sig (some v.suite))

  unfoldable pub wrap_data_key : Draw → String → Bytes → Exec KeyStore WrappedKey
  wrap_data_key d key_id data_key = do
    mk ← require_enabled key_id
    raise_if (not (str_eq mk.key_type "kem")) value_error
    v ← load_version key_id mk.current_version
    public ← or_raise v.public type_error
    (shared, encap) ← lift (Kem.encapsulate p d.encap public v.suite)
    wrapped ← lift (aead_encrypt p d.nonce shared data_key wrap_aad)
    pure (record {
      key_id = key_id;
      version = mk.current_version;
      suite = suite_name v.suite;
      encapsulation = b64encode encap;
      wrapped_key = b64encode wrapped;
    })

  unfoldable pub unwrap_data_key : String → List ℕ → List ℕ → Option ℕ → Exec KeyStore Bytes
  unwrap_data_key key_id encapsulation_b64 wrapped_b64 version = do
    mk ← require_enabled key_id
    raise_if (not (str_eq mk.key_type "kem")) value_error
    v ← load_version key_id (version_or version mk.current_version)
    encap ← lift (b64decode false encapsulation_b64)
    shared ← lift (Kem.decapsulate p v.secret encap)
    wrapped ← lift (b64decode false wrapped_b64)
    lift (aead_decrypt p shared wrapped wrap_aad)
