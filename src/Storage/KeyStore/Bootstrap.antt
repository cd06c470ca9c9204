-- ===== src/Storage/KeyStore/Bootstrap.antt =====
-- KeyStore: initialize, unlock, _load_envelope and rewrap_root_kek, over the custodian that
-- _resolve_custodian gives.
use kmsqr.Base.{
  Bool, Bytes, Exec, Option, Result, String, [], bytes_eq, codes, err, gets, if◌then◌else◌, lift,
  modify, none, not, ok, raise_if, runtime_error, some, true, ◌>>=◌, ◌>>◌, ◌∷◌,
}
use kmsqr.Encoding.Base64.{b64encode}
use kmsqr.Custody.Json.{JsonModule, dict, end, field, str}
use kmsqr.Custody.Envelope.{Custodian, CustodyDraw, CustodyEnvelope, from_bytes, to_bytes}
use kmsqr.Custody.Passphrase.{default_argon2_params, passphrase_backend, passphrase_custodian}
use kmsqr.Crypto.Primitives.{Primitives}
use kmsqr.Storage.Schema.{Db}
use kmsqr.Storage.Repository.Meta.{get_meta, meta_exists_any, put_meta, set_meta}
use kmsqr.Storage.KeyStore.Material.{KeyStore, on_db, require_unlocked}

abbrev pub meta_custody : String
meta_custody = "root_kek_custody_v1"

abbrev pub meta_salt : String
meta_salt = "root_kek_salt"

abbrev pub meta_wrapped_root : String
meta_wrapped_root = "root_kek_wrapped"

unfoldable pub is_initialized : Db → Bool
is_initialized db = meta_exists_any (meta_custody ∷ meta_wrapped_root ∷ []) db

-- _resolve_custodian: the configured custodian, or one for the passphrase of the call
unfoldable pub resolve_custodian : Primitives → Option Custodian → Option String → Result Custodian
resolve_custodian p (some c) passphrase = ok c
resolve_custodian p none (some passphrase) = passphrase_custodian p passphrase none
resolve_custodian p none none = err runtime_error

abbrev pub assign_root : Bytes → Exec KeyStore (Unit {0})
assign_root root = modify (λ s. record s { root_kek = some root })

-- the envelope that the rows of the format before custodians stand for
abbrev pub legacy_envelope : Bytes → Bytes → CustodyEnvelope
legacy_envelope salt wrapped = record {
  backend_id = str passphrase_backend;
  wrapped_root_kek = wrapped;
  metadata = dict (
      field (codes "argon2") (dict default_argon2_params)
        (field (codes "salt_b64") (str (b64encode salt)) end));
}

module _ (p : Primitives) (j : JsonModule) where
  unfoldable pub load_envelope : Custodian → Db → Result CustodyEnvelope
  load_envelope c db = elim (get_meta meta_custody db) [
    | some raw ↦ from_bytes j raw
    | none ↦ elim (get_meta meta_salt db) [
      | none ↦ err runtime_error
      | some salt ↦ elim (get_meta meta_wrapped_root db) [
        | none ↦ err runtime_error
        | some wrapped ↦
            if not (bytes_eq c.backend_id passphrase_backend)
            then err runtime_error
            else ok (legacy_envelope salt wrapped)
      ]
    ]
  ]

  -- `self._root_kek = custodian.unwrap(self._load_envelope(custodian))`
  unfoldable pub open_envelope : Custodian → Exec KeyStore (Unit {0})
  open_envelope c s = elim (load_envelope c s.db) [
    | err e ↦ (err e, s)
    | ok e ↦ elim (c.unwrap e) [ err x ↦ (err x, s) | ok root ↦ assign_root root s ]
  ]

  unfoldable pub unlock : Option Custodian → Option String → Exec KeyStore (Unit {0})
  unlock configured passphrase = do
    known ← gets (λ (s : KeyStore). is_initialized s.db)
    raise_if (not known) runtime_error
    c ← lift (resolve_custodian p configured passphrase)
    open_envelope c

  -- the insertion of the envelope; a loser takes the envelope that was there first
  unfoldable pub settle : Custodian → Bytes → CustodyEnvelope → Exec KeyStore (Unit {0})
  settle c root e = do
    first ← on_db (put_meta meta_custody (to_bytes j e) true)
    if first then assign_root root else open_envelope c

  -- `root` is AEAD.generate_key(), and `others` is what other processes commit between the test
  -- and the insertion
  unfoldable pub initialize :
      Option Custodian → Option String → CustodyDraw → Bytes → (Db → Db) → Exec KeyStore (Unit {0})
  unfolding settle
  initialize configured passphrase d root others = do
    known ← gets (λ (s : KeyStore). is_initialized s.db)
    raise_if known runtime_error
    c ← lift (resolve_custodian p configured passphrase)
    lift c.healthcheck
    e ← lift (c.initialize d root)
    modify (λ s. record s { db = others s.db })
    settle c root e

  unfoldable pub rewrap_root_kek : Custodian → CustodyDraw → Exec KeyStore (Unit {0})
  rewrap_root_kek c d = do
    root ← require_unlocked
    lift c.healthcheck
    e ← lift (c.initialize d root)
    on_db (set_meta meta_custody (to_bytes j e))
