-- ===== src/Tests/Commands.antt =====
-- A passphrase is replaced by the command.
use kmsqr.Base.{
  ap, arith, err, length, none, ok, refl, replicate, runtime_error, some, ◌%◌, ◌∙◌, ◌≡◌,
}
use kmsqr.Custody.Envelope.{CustodianLaws}
use kmsqr.Custody.Passphrase.{passphrase_custodian, passphrase_custodian-CustodianLaws}
use kmsqr.Custody.Factory.{Environment, make_custodian}
use kmsqr.Storage.KeyStore.Material.{KeyStore}
use kmsqr.Storage.KeyStore.Bootstrap.{resolve_custodian, unlock}
use kmsqr.Storage.KeyStore.Sealed.{locked}
use kmsqr.Storage.KeyStore.Rewrap.{IsRewrapped, unlock-rewrap_root_kek}
use kmsqr.Policy.{default_policy}
use kmsqr.Custody.Json.{is_sorted_dict}
use kmsqr.Storage.KeyStore.Reach.{here}
use kmsqr.Cli.Rekey.{RekeyRequest, rekey}
use kmsqr.Cli.Rekey.Works.{Argon2Laws, rekey-Rewrapped}
use kmsqr.Tests.Toy.{toy, toy_aead}
use kmsqr.Tests.Codec.{json, json-JsonLaws}
use kmsqr.Tests.Store.{byte_list, secret, store}
use kmsqr.Tests.Custody.{custodian, custody_draw, rewrapped, rewraps}

toy_argon2-Argon2Laws : Argon2Laws toy
toy_argon2-Argon2Laws = record {
  derives = λ secret salt. (replicate 32 (length salt % 256), refl, refl);
}

abbrev environment : Environment
environment = record {
  backend = "passphrase";
  shamir = err runtime_error;
  awskms = err runtime_error;
  gcpkms = err runtime_error;
  pkcs11 = err runtime_error;
}

abbrev request : RekeyRequest
request = record { current = "correct horse"; new = "battery staple"; min_len = 12 }

laws : CustodianLaws custodian
unfolding passphrase_custodian is_sorted_dict
laws = passphrase_custodian-CustodianLaws toy toy_aead "correct horse" none custodian refl refl

unlocks :
    unlock toy json (some custodian) none (locked rewrapped)
    ≡ (ok tt, record (locked rewrapped) { root_kek = some secret })
unfolding resolve_custodian
unlocks =
    let (opens, own, _) =
      unlock-rewrap_root_kek toy json default_policy (some custodian) none custodian custody_draw
        secret "audit_signing_keypair_v1" store rewrapped rewrapped json-JsonLaws refl laws refl
        (byte_list 32 5 (omega arith)) (byte_list 12 6 (omega arith))
        (byte_list 32 42 (omega arith)) refl refl rewraps here in
    opens ∙ ap (λ r. (ok tt, record rewrapped { root_kek = r })) own

rekey-Rewrapped_example :
    (t : KeyStore) × (rekey toy json environment request custody_draw (locked rewrapped)
      ≡ (ok 0, t))
    × (unlock toy json none (some "battery staple") (locked t) ≡ (ok tt, t))
    × (t.root_kek ≡ some secret)
    × IsRewrapped "audit_signing_keypair_v1" rewrapped.db t.db
unfolding make_custodian passphrase_custodian
rekey-Rewrapped_example =
    rekey-Rewrapped toy json toy_argon2-Argon2Laws environment request custody_draw secret custodian
      "audit_signing_keypair_v1" (locked rewrapped) json-JsonLaws refl toy_aead refl
      (byte_list 32 5 (omega arith)) (byte_list 12 6 (omega arith)) (byte_list 32 42 (omega arith))
      refl refl unlocks
