-- ===== src/Cli/Rekey/Works.antt =====
-- What a rekey that meets no obstacle does.
use kmsqr.Base.{
  Bytes, Exec, IsBytes, Option, Result, String, ap, arith, bind-run, bytes_eq, codes, encode, err,
  false, length, lift, none, not, ok, pure, raise_if-Ran, refl, runtime_error, some, str_eq, true,
  ℕ, ◌++◌, ◌>>=◌, ◌∙◌, ◌≡◌,
}
use kmsqr.Encoding.Base64.{b64encode}
use kmsqr.Crypto.Primitives.{AeadLaws, Primitives}
use kmsqr.Crypto.Aead.{aead_encrypt}
use kmsqr.Custody.Json.{JsonLaws, JsonModule, dict, end, field, is_sorted_dict, str}
use kmsqr.Custody.Envelope.{Custodian, CustodyDraw, CustodyEnvelope, to_bytes}
use kmsqr.Custody.Passphrase.{
  default_argon2_params, derive_from_passphrase, params_or_default, passphrase_backend,
  passphrase_custodian, passphrase_custodian-CustodianLaws, root_kek_aad, wrapping_key,
}
use kmsqr.Custody.Passphrase
use kmsqr.Custody.Factory.{Environment, make_custodian}
use kmsqr.Policy.{default_policy}
use kmsqr.Storage.Repository.Meta.{set_meta}
use kmsqr.Storage.Repository.Meta.Rows.{set_meta-Replaced}
use kmsqr.Storage.KeyStore.Material.{KeyStore, require_unlocked}
use kmsqr.Storage.KeyStore.Bootstrap.{
  is_initialized, meta_custody, open_envelope, resolve_custodian, rewrap_root_kek, unlock,
}
use kmsqr.Storage.KeyStore.Sealed.{locked}
use kmsqr.Storage.KeyStore.Rewrap.{IsRewrapped, unlock-rewrap_root_kek}
use kmsqr.Storage.KeyStore.Reach.{here}
use kmsqr.Cli.Rekey.{RekeyRequest, is_usable, on_second, or_wrong, rekey, reseal, wrong_code}

-- Argon2id with the default parameters gives 32 bytes.
pub record Argon2Laws (p : Primitives) : Type 0 where
  pub derives :
      (secret salt : Bytes)
      → (key : Bytes) × (p.argon2id secret salt 3 65536 4 32 ≡ some key) × (length key ≡ 32)

module _ (p : Primitives) (j : JsonModule) (argon2 : Argon2Laws p) where
  -- the passphrase custodian with the default parameters makes an envelope of every root key
  sealing :
      (passphrase : String) (d : CustodyDraw) (root : Bytes)
      → (e : CustodyEnvelope) × (Passphrase.initialize p passphrase default_argon2_params d root
          ≡ ok e)
  unfolding Passphrase.initialize wrapping_key derive_from_passphrase aead_encrypt bytes_eq
  sealing passphrase d root =
      let (key, derived, size) = argon2.derives (encode passphrase) d.salt in
      (
        record {
          backend_id = str passphrase_backend;
          wrapped_root_kek = d.nonce ++ p.aesgcm_encrypt key d.nonce root root_kek_aad;
          metadata = dict (
              field (codes "argon2") (dict default_argon2_params)
                (field (codes "salt_b64") (str (b64encode d.salt)) end));
        },
        rw (derived, size) refl,
      )

  -- the custodian of a passphrase
  abbrev custodian_for : String → Custodian
  custodian_for passphrase = record {
    backend_id = passphrase_backend;
    healthcheck = ok tt;
    initialize = Passphrase.initialize p passphrase default_argon2_params;
    unwrap = Passphrase.unwrap p passphrase;
  }

  made :
      (passphrase : String)
      → str_eq passphrase "" ≡ false
      → passphrase_custodian p passphrase none ≡ ok (custodian_for passphrase)
  unfolding passphrase_custodian
  made passphrase e = rw (passphrase_custodian, e) refl

  rewrapped :
      (passphrase : String) (d : CustodyDraw) (root : Bytes) (s : KeyStore)
      → s.root_kek ≡ some root
      → (t : KeyStore) × (rewrap_root_kek p j (custodian_for passphrase) d s ≡ (ok tt, t))
  unfolding rewrap_root_kek require_unlocked
  rewrapped passphrase d root s own =
      let (e, seals) = sealing passphrase d root in
      let w = set_meta-Replaced meta_custody (to_bytes j e) s.db in
      (
        record s { db = (set_meta meta_custody (to_bytes j e) s.db).1 },
        rw (own, seals, w.returned) refl,
      )

  was_initialized :
      (configured : Option Custodian) (passphrase : Option String) (s t : KeyStore)
      → unlock p j configured passphrase s ≡ (ok tt, t)
      → is_initialized s.db ≡ true
  unfolding unlock
  was_initialized configured passphrase s t h =
      let (known, _) =
        raise_if-Ran (not (is_initialized s.db)) runtime_error
          (λ _. lift (resolve_custodian p configured passphrase) >>= λ c. open_envelope p j c) s t
          tt h in
      ground arith

  default-sorted : is_sorted_dict (params_or_default none) ≡ true
  unfolding is_sorted_dict
  default-sorted = refl

  reseal-runs :
      (new : String) (d : CustodyDraw) (s t : KeyStore)
      → passphrase_custodian p new none ≡ ok (custodian_for new)
      → rewrap_root_kek p j (custodian_for new) d s ≡ (ok tt, t)
      → unlock p j (some (custodian_for new)) none (locked t) ≡ (ok tt, t)
      → reseal p j new d s ≡ (ok 0, t)
  unfolding reseal
  reseal-runs new d s t made_new runs checks =
      rw (reseal, made_new)
        (bind-run (rewrap_root_kek p j (custodian_for new) d)
            (λ _. on_second (unlock p j (some (custodian_for new)) none) >>= λ _. pure 0) s t tt
            runs
          ∙ bind-run (on_second (unlock p j (some (custodian_for new)) none)) (λ _. pure 0) t t tt
              (ap (λ (q : Result (Unit {0}) × KeyStore). (q.0, record t { db = q.1.db })) checks))

  or_wrong-runs :
      (m : Exec KeyStore (Unit {0})) (rest : Exec KeyStore ℕ) (s t : KeyStore)
      → m s ≡ (ok tt, t)
      → or_wrong m rest s ≡ rest t
  or_wrong-runs m rest s t e =
      ap
        (λ q.
          let z : Result ℕ × KeyStore = elim q.0 [
            | ok done ↦ rest q.1
            | err x ↦ (wrong_code x, q.1)
          ] in
          z)
        e

  -- A rekey whose two passphrases are usable (neither is empty, they differ, and the new one is long
  -- enough), on an initialized store whose current custodian opens the root key, returns 0; then
  -- the new passphrase unlocks the store to the same root key, and every table but kms_meta, and
  -- its row of any other key k, are as they were. Argon2id gives keys of the length asked for; the nonce is 12 bytes,
  -- and the draws and the root key are bytes.
  pub rekey-Rewrapped :
      (env : Environment) (request : RekeyRequest) (d : CustodyDraw) (root : Bytes) (c : Custodian)
      (k : String) (s : KeyStore)
      → JsonLaws j
      → str_eq meta_custody k ≡ false
      → AeadLaws p
      → length d.nonce ≡ 12
      → IsBytes d.salt
      → IsBytes d.nonce
      → IsBytes root
      → is_usable request ≡ true
      → make_custodian p env (some request.current) ≡ ok c
      → unlock p j (some c) none s ≡ (ok tt, record s { root_kek = some root })
      → (t : KeyStore) × (rekey p j env request d s ≡ (ok 0, t))
        × (unlock p j none (some request.new) (locked t) ≡ (ok tt, t))
        × (t.root_kek ≡ some root)
        × IsRewrapped k s.db t.db
  unfolding rekey reseal resolve_custodian
  rekey-Rewrapped env request d root c k s jl other al n bs bn br usable makes opens =
      let named : str_eq request.new "" ≡ false = ground arith in
      let fresh = custodian_for request.new in
      let made_new = made request.new named in
      let (t, runs) = rewrapped request.new d root (record s { root_kek = some root }) refl in
      let laws =
        passphrase_custodian-CustodianLaws p al request.new none fresh default-sorted made_new in
      let known = was_initialized (some c) none s (record s { root_kek = some root }) opens in
      let policy = default_policy in
      let (checks, own, kept) =
        unlock-rewrap_root_kek p j policy (some fresh) none fresh d root k _ t t jl other laws n bs
          bn br refl refl runs here in
      let (again, _, _) =
        unlock-rewrap_root_kek p j policy none (some request.new) fresh d root k _ t t jl other laws
          n bs bn br refl made_new runs here in
      (
        t,
        rw (rekey, usable, makes, known)
            (or_wrong-runs (unlock p j (some c) none) (reseal p j request.new d) s _ opens
              ∙ reseal-runs request.new d _ t made_new runs checks),
        again,
        own,
        kept,
      )
