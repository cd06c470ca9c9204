-- ===== src/Tests/Custody.antt =====
-- A key store that is initialized with a passphrase, restarted and sealed again.
use kmsqr.Base.{
  [], arith, bytes_eq, codes, err, none, ok, refl, replicate, runtime_error, some, ◌++◌, ◌∷◌, ◌≡◌,
}
use kmsqr.Crypto.Signatures
use kmsqr.Encoding.Struct.{pack_u16, pack_u32}
use kmsqr.Storage.Audit.Packing.{pack_keypair}
use kmsqr.Crypto.Aead.{aead_encrypt}
use kmsqr.Policy.{default_policy}
use kmsqr.Storage.Repository.Meta.{get_meta, meta_exists_any, put_meta, set_meta}
use kmsqr.Custody.Json.{is_sorted_dict}
use kmsqr.Custody.Envelope.{Custodian, CustodianLaws, CustodyDraw, CustodyEnvelope}
use kmsqr.Custody.Passphrase.{
  default_argon2_params, derive_from_passphrase, passphrase_backend, passphrase_custodian,
  passphrase_custodian-CustodianLaws, wrapping_key,
}
use kmsqr.Custody.Passphrase
use kmsqr.Storage.KeyStore.Material.{KeyStore, require_unlocked, wrap}
use kmsqr.Storage.KeyStore.Reach.{here, next, rotated_by_hand}
use kmsqr.Storage.KeyStore.Bootstrap.{
  initialize, is_initialized, legacy_envelope, resolve_custodian, rewrap_root_kek, unlock,
}
use kmsqr.Storage.KeyStore.Sealed.{locked}
use kmsqr.Storage.KeyStore.Unlock.{unlock-initialize}
use kmsqr.Storage.KeyStore.Rewrap.{IsRewrapped, unlock-rewrap_root_kek}
use kmsqr.Storage.KeyStore.Legacy.{unlock-legacy}
use kmsqr.Storage.KeyStore.Rotation.{rotate}
use kmsqr.Storage.Audit.Append.{drawn_key}
use kmsqr.Storage.Audit.Keypair.{create_keypair, load_or_create_audit_signing_key}
use kmsqr.Storage.Audit.SameKey.{load_or_create_audit_signing_key-same}
use kmsqr.Tests.Toy.{toy, toy_aead}
use kmsqr.Tests.Codec.{json, json-JsonLaws}
use kmsqr.Tests.Store.{byte_list, draw, secret, store}

abbrev pub custody_draw : CustodyDraw
custody_draw = record { salt = replicate 32 5; nonce = replicate 12 6 }

abbrev pub custodian : Custodian
custodian = record {
  backend_id = passphrase_backend;
  healthcheck = ok tt;
  initialize = Passphrase.initialize toy "correct horse" default_argon2_params;
  unwrap = Passphrase.unwrap toy "correct horse";
}

resolves : resolve_custodian toy none (some "correct horse") ≡ ok custodian
unfolding resolve_custodian passphrase_custodian
resolves = refl

passphrase_custodian-CustodianLaws_example : CustodianLaws custodian
unfolding is_sorted_dict passphrase_custodian
passphrase_custodian-CustodianLaws_example =
    passphrase_custodian-CustodianLaws toy toy_aead "correct horse" none custodian refl refl

abbrev fresh : KeyStore
fresh = record { db = record store.db { kms_meta = [] }; root_kek = none }

abbrev started : KeyStore
started = (initialize toy json none (some "correct horse") custody_draw secret (λ db. db) fresh).1

initializes :
    initialize toy json none (some "correct horse") custody_draw secret (λ db. db) fresh
    ≡ (ok tt, started)
unfolding initialize is_initialized resolve_custodian passphrase_custodian meta_exists_any
    Passphrase.initialize Passphrase.wrapping_key bytes_eq Passphrase.derive_from_passphrase
    aead_encrypt put_meta
initializes = refl

-- a rotation on the way
abbrev rotated : KeyStore
rotated = (rotate toy draw "k" started).1

unlock-initialize_example :
    unlock toy json none (some "correct horse") (locked rotated) ≡ (ok tt, rotated)
unlock-initialize_example =
    unlock-initialize toy json default_policy none (some "correct horse") custodian custody_draw
      secret (λ db. db) fresh started rotated json-JsonLaws
      passphrase_custodian-CustodianLaws_example refl (byte_list 32 5 (omega arith))
      (byte_list 12 6 (omega arith)) (byte_list 32 42 (omega arith)) resolves initializes
      (next here (rotated_by_hand draw "k" started))

-- the same store under the passphrase, sealed again
abbrev pub rewrapped : KeyStore
rewrapped = (rewrap_root_kek toy json custodian custody_draw store).1

pub rewraps : rewrap_root_kek toy json custodian custody_draw store ≡ (ok tt, rewrapped)
unfolding rewrap_root_kek require_unlocked Passphrase.initialize wrapping_key bytes_eq
    derive_from_passphrase aead_encrypt set_meta
rewraps = refl

unlock-rewrap_root_kek_example :
    (unlock toy json none (some "correct horse") (locked rewrapped) ≡ (ok tt, rewrapped))
    × (rewrapped.root_kek ≡ some secret)
    × IsRewrapped "audit_signing_keypair_v1" store.db rewrapped.db
unlock-rewrap_root_kek_example =
    unlock-rewrap_root_kek toy json default_policy none (some "correct horse") custodian
      custody_draw secret "audit_signing_keypair_v1" store rewrapped rewrapped json-JsonLaws refl
      passphrase_custodian-CustodianLaws_example refl (byte_list 32 5 (omega arith))
      (byte_list 12 6 (omega arith)) (byte_list 32 42 (omega arith)) refl resolves rewraps here

-- a database of the format before custodians
abbrev old_envelope : CustodyEnvelope
old_envelope = legacy_envelope (replicate 32 5) (replicate 12 6 ++ (replicate 16 0 ++ secret))

abbrev old_store : KeyStore
old_store = record {
  db = record store.db {
    kms_meta =
        record { k = "root_kek_salt"; v = replicate 32 5 }
        ∷ record { k = "root_kek_wrapped"; v = old_envelope.wrapped_root_kek }
        ∷ [];
  };
  root_kek = none;
}

abbrev cloud : Custodian
cloud = record custodian { backend_id = codes "awskms" }

unlock-legacy_example :
    (unlock toy json none (some "correct horse") old_store
      ≡ (ok tt, record old_store { root_kek = some secret }))
    × (unlock toy json (some cloud) none old_store ≡ (err runtime_error, old_store))
unfolding bytes_eq Passphrase.initialize get_meta wrapping_key derive_from_passphrase aead_encrypt
unlock-legacy_example =
    unlock-legacy toy json "correct horse" cloud custody_draw secret old_envelope old_store toy_aead
      refl refl refl (byte_list 32 5 (omega arith)) (byte_list 12 6 (omega arith))
      (byte_list 32 42 (omega arith)) refl refl refl refl

-- the log's key pair of the store, made and read again
abbrev paired : KeyStore
paired = (load_or_create_audit_signing_key toy secret secret (replicate 12 7) (λ db. db) store).1

pairs :
    load_or_create_audit_signing_key toy secret secret (replicate 12 7) (λ db. db) store
    ≡ (ok (drawn_key toy secret secret), paired)
unfolding load_or_create_audit_signing_key get_meta create_keypair pack_keypair pack_u16
    Signatures.generate pack_u32 wrap require_unlocked aead_encrypt put_meta
pairs = refl

load_or_create_audit_signing_key-same_example :
    load_or_create_audit_signing_key toy [] [] [] (λ db. db) paired
    ≡ (ok (drawn_key toy secret secret), paired)
load_or_create_audit_signing_key-same_example =
    load_or_create_audit_signing_key-same toy default_policy secret secret (replicate 12 7) [] [] []
      (λ db. db) (λ db. db) (drawn_key toy secret secret) store paired paired toy_aead refl pairs
      here
