-- ===== src/Storage/Audit/Keypair.antt =====
-- load_or_create_audit_signing_key of pqkms/app/storage/audit.py.
use kmsqr.Base.{
  Bytes, Exec, Option, String, encode, gets, if◌then◌else◌, lift, modify, none, or_raise, pure,
  some, true, type_error, ◌>>=◌, ◌>>◌,
}
use kmsqr.Crypto.Primitives.{Primitives}
use kmsqr.Storage.Schema.{Db}
use kmsqr.Storage.Repository.Meta.{get_meta, put_meta}
use kmsqr.Storage.KeyStore.Material.{KeyStore, on_db, unwrap, wrap}
use kmsqr.Storage.Audit.{SigningKey}
use kmsqr.Storage.Audit.Append.{drawn_key}
use kmsqr.Storage.Audit.Packing.{pack_keypair, parse_keypair}

abbrev pub audit_meta_key : String
audit_meta_key = "audit_signing_keypair_v1"

abbrev pub audit_signing_aad : Bytes
audit_signing_aad = encode "pqkms/audit-signing/v1"

module _ (p : Primitives) where
  -- `_parse(ks._unwrap(raw, aad=_AUDIT_SIGNING_AAD))`; a row that is missing is a TypeError
  unfoldable pub load_keypair : Option Bytes → Exec KeyStore SigningKey
  load_keypair raw = do
    row ← or_raise raw type_error
    packed ← unwrap p row audit_signing_aad
    lift (parse_keypair packed)

  -- the insertion of the row; a loser takes the key pair that was there first
  unfoldable pub store_keypair : SigningKey → Bytes → Exec KeyStore SigningKey
  store_keypair key row = do
    first ← on_db (put_meta audit_meta_key row true)
    stored ← gets (λ (s : KeyStore). get_meta audit_meta_key s.db)
    if first then pure key else load_keypair stored

  -- the drawn key pair, packed, sealed and stored; `others` is what other processes commit before
  -- the insertion
  unfoldable pub create_keypair : SigningKey → Bytes → (Db → Db) → Exec KeyStore SigningKey
  unfolding store_keypair
  create_keypair key nonce others = do
    packed ← lift (pack_keypair key)
    row ← wrap p nonce packed audit_signing_aad
    modify (λ (s : KeyStore). record s { db = others s.db })
    store_keypair key row

  -- by the row that is stored
  unfoldable pub from_row : SigningKey → Bytes → (Db → Db) → Option Bytes → Exec KeyStore SigningKey
  from_row drawn nonce others (some row) = load_keypair (some row)
  from_row drawn nonce others none = create_keypair drawn nonce others

  unfoldable pub load_or_create_audit_signing_key :
      Bytes → Bytes → Bytes → (Db → Db) → Exec KeyStore SigningKey
  unfolding from_row
  load_or_create_audit_signing_key seed pq_seed nonce others = do
    existing ← gets (λ (s : KeyStore). get_meta audit_meta_key s.db)
    from_row (drawn_key p seed pq_seed) nonce others existing
