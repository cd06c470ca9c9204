-- ===== src/Storage/KeyStore/Legacy.antt =====
-- A database of the format before custodians.
use kmsqr.Base.{
  Bytes, IsBytes, String, [], arith, bytes_eq, bytes_eq_refl, err, false, length, none, ok, refl,
  runtime_error, some, str_eq, sym, true, ◌∷◌, ◌≡◌,
}
use kmsqr.Custody.Json.{JsonModule, is_sorted_dict}
use kmsqr.Custody.Envelope.{Custodian, CustodyDraw, CustodyEnvelope}
use kmsqr.Crypto.Primitives.{AeadLaws, Primitives}
use kmsqr.Storage.Repository.Meta.{get_meta}
use kmsqr.Storage.Repository.Meta.Rows.{stored_any}
use kmsqr.Storage.KeyStore.Material.{KeyStore}
use kmsqr.Storage.KeyStore.Bootstrap.{
  is_initialized, legacy_envelope, load_envelope, meta_custody, meta_salt, meta_wrapped_root,
  open_envelope, resolve_custodian, unlock,
}
use kmsqr.Custody.Passphrase.{
  default_argon2_params, initialize-shows, passphrase_backend, passphrase_custodian,
  unwrap-initialize,
}
use kmsqr.Custody.Passphrase

module _ (p : Primitives) (j : JsonModule) where
  -- where only the old rows are stored
  open_legacy :
      (c : Custodian) (salt wrapped : Bytes) (root : Bytes) (s : KeyStore)
      → get_meta meta_custody s.db ≡ none
      → get_meta meta_salt s.db ≡ some salt
      → get_meta meta_wrapped_root s.db ≡ some wrapped
      → bytes_eq c.backend_id passphrase_backend ≡ true
      → c.unwrap (legacy_envelope salt wrapped) ≡ ok root
      → open_envelope p j c s ≡ (ok tt, record s { root_kek = some root })
  unfolding open_envelope load_envelope
  open_legacy c salt wrapped root s a b w same opens =
      rw (open_envelope, load_envelope, a, b, w, same, opens) refl

  refuse_legacy :
      (c : Custodian) (salt wrapped : Bytes) (s : KeyStore)
      → get_meta meta_custody s.db ≡ none
      → get_meta meta_salt s.db ≡ some salt
      → get_meta meta_wrapped_root s.db ≡ some wrapped
      → bytes_eq c.backend_id passphrase_backend ≡ false
      → open_envelope p j c s ≡ (err runtime_error, s)
  unfolding open_envelope load_envelope
  refuse_legacy c salt wrapped s a b w differs =
      rw (open_envelope, load_envelope, a, b, w, differs) refl

  -- A database of the format before custodians, which holds the salt and the root key sealed as
  -- the passphrase custodian seals it with the default parameters: unlock with the passphrase gives
  -- the root key, and unlock with a configured custodian of another backend raises a RuntimeError
  -- and changes nothing. The passphrase is not empty, the nonce is 12 bytes, and the draws and the
  -- root key are bytes.
  pub unlock-legacy :
      (passphrase : String) (foreign : Custodian) (d : CustodyDraw) (root : Bytes)
      (e : CustodyEnvelope) (s : KeyStore)
      → AeadLaws p
      → str_eq passphrase "" ≡ false
      → bytes_eq foreign.backend_id passphrase_backend ≡ false
      → length d.nonce ≡ 12
      → IsBytes d.salt
      → IsBytes d.nonce
      → IsBytes root
      → Passphrase.initialize p passphrase default_argon2_params d root ≡ ok e
      → get_meta meta_custody s.db ≡ none
      → get_meta meta_salt s.db ≡ some d.salt
      → get_meta meta_wrapped_root s.db ≡ some e.wrapped_root_kek
      → (unlock p j none (some passphrase) s ≡ (ok tt, record s { root_kek = some root }))
        × (unlock p j (some foreign) none s ≡ (err runtime_error, s))
  unfolding unlock is_initialized resolve_custodian Passphrase.passphrase_custodian is_sorted_dict
  unlock-legacy passphrase foreign d root e s laws named differs n bs bn br seals no_row salt_row
        root_row =
      let known : is_initialized s.db ≡ true =
        stored_any (meta_custody ∷ meta_wrapped_root ∷ []) meta_wrapped_root e.wrapped_root_kek s.db
          (λ r q. ground arith) root_row in
      let opens =
        (Passphrase.unwrap-initialize p laws passphrase default_argon2_params d root e refl n bs bn
          br seals).1 in
      let shown =
        Passphrase.initialize-shows p laws passphrase default_argon2_params d root e seals in
      (
        rw (known, named)
            (open_legacy _ d.salt e.wrapped_root_kek root s no_row salt_row root_row
              (bytes_eq_refl passphrase_backend) (rw (sym shown) opens)),
        rw known
            (refuse_legacy foreign d.salt e.wrapped_root_kek s no_row salt_row root_row differs),
      )
