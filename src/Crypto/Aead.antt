-- ===== src/Crypto/Aead.antt =====
-- pqkms/app/crypto/aead.py: the framing nonce || ciphertext || tag.
use kmsqr.Base.Results.{or_raise}
use kmsqr.Base.{
  All-append, Bool-cases, Bytes, IsBytes, Result, arith, drop, drop-append, err, if◌then◌else◌, inl,
  inr, invalid_tag, length, length-append, ltb, not, ok, sym, take, take-append, value_error, ℕ,
  ◌++◌, ◌+◌, ◌==◌, ◌∙◌, ◌≡◌, ◌≤◌,
}
use kmsqr.Crypto.Primitives.{AeadLaws, Primitives}

abbrev pub nonce_len : ℕ
nonce_len = 12

abbrev pub key_len : ℕ
key_len = 32

module _ (p : Primitives) where
  -- AEAD.encrypt, the nonce being the draw of os.urandom
  unfoldable pub aead_encrypt : Bytes → Bytes → Bytes → Bytes → Result Bytes
  aead_encrypt nonce key plaintext aad =
      if not (length key == key_len)
      then err value_error
      else ok (nonce ++ p.aesgcm_encrypt key nonce plaintext aad)

  unfoldable pub aead_decrypt : Bytes → Bytes → Bytes → Result Bytes
  aead_decrypt key blob aad =
      if not (length key == key_len)
      then err value_error
      else if ltb (length blob) (nonce_len + 16)
      then err value_error
      else or_raise (p.aesgcm_decrypt key (take nonce_len blob) (drop nonce_len blob) aad)
          invalid_tag

module _ (p : Primitives) (laws : AeadLaws p) where
  -- A key of 32 bytes and a drawn nonce of 12: encryption succeeds, and what it returns decrypts
  -- to the plaintext under the same key and associated data.
  pub aead_decrypt-aead_encrypt :
      (nonce key plaintext aad : Bytes)
      → length key ≡ key_len
      → length nonce ≡ nonce_len
      → (blob : Bytes) × (aead_encrypt p nonce key plaintext aad ≡ ok blob)
        × (aead_decrypt p key blob aad ≡ ok plaintext)
  unfolding aead_encrypt aead_decrypt
  aead_decrypt-aead_encrypt nonce key plaintext aad k n =
      let c = p.aesgcm_encrypt key nonce plaintext aad in
      let long : nonce_len + 16 ≤ length (nonce ++ c) =
        omega (arith, length-append {0} nonce c, laws.length-encrypt key nonce plaintext aad) in
      (
        nonce ++ c,
        ground arith,
        rw
            (
              take-append nonce_len nonce c n,
              drop-append nonce_len nonce c n,
              laws.decrypt-encrypt key nonce plaintext aad,
            )
            (ground arith),
      )

  right_size :
      (nonce key plaintext aad blob : Bytes)
      → aead_encrypt p nonce key plaintext aad ≡ ok blob
      → length key ≡ key_len
  unfolding aead_encrypt
  right_size nonce key plaintext aad blob h = ground arith

  -- What encryption returned, it returned for a key of 32 bytes, and it decrypts.
  pub decrypts_again :
      (nonce key plaintext aad blob : Bytes)
      → length nonce ≡ nonce_len
      → aead_encrypt p nonce key plaintext aad ≡ ok blob
      → aead_decrypt p key blob aad ≡ ok plaintext
  decrypts_again nonce key plaintext aad blob n h =
      let (b, e, d) =
        aead_decrypt-aead_encrypt nonce key plaintext aad
          (right_size nonce key plaintext aad blob h) n in
      let same : ok b ≡ ok blob = sym e ∙ h in rw (sym (ok_inj same)) d
    where
      ok_inj : {x y : Bytes} → ok x ≡ ok y → x ≡ y
      ok_inj e = cc

  pub blob-IsBytes :
      (nonce key plaintext aad blob : Bytes)
      → IsBytes nonce
      → IsBytes plaintext
      → aead_encrypt p nonce key plaintext aad ≡ ok blob
      → IsBytes blob
  unfolding aead_encrypt
  blob-IsBytes nonce key plaintext aad blob n m h = elim (Bool-cases (length key == key_len)) [
    | inl e ↦
        let same : nonce ++ p.aesgcm_encrypt key nonce plaintext aad ≡ blob = ground arith in
        rw (sym same) (All-append _ nonce _ n (laws.encrypt-IsBytes key nonce plaintext aad m))
    | inr e ↦ absurd (ground arith)
  ]
