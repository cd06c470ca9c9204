-- ===== src/Crypto/Signatures/Laws.antt =====
-- A signature of a generated pair verifies; a hybrid key accepts no classical-only signature.
use kmsqr.Base.Results.{bind-eq-ok}
use kmsqr.Base.{
  Bool-cases, Bytes, Result, [], ap, append-nil, append_assoc, arith, drop, drop-append,
  drop-length-append, err, false, inl, inr, length, length-append, ltb, ltb_ge, ok, refl, some,
  take, take-all, take-append, take-length-append, true, ℕ, ◌++◌, ◌<◌, ◌^◌, ◌∙◌, ◌≡◌, ◌≤◌, ◌⊎◌,
}
use kmsqr.Encoding.Struct.{pack_u16_lem, pack_u32_lem, unpack_u16, unpack_u32}
use kmsqr.Crypto.Primitives.{Primitives, SignatureLaws}
use kmsqr.Crypto.Suites.{
  Suite, aes256_gcm, classic_ed25519, classic_x25519_aes256gcm, eq_of_suite_eq,
  hybrid_ed25519_mldsa65, hybrid_x25519_mlkem768_aes256gcm, suite_eq, suite_eq_refl, suite_id,
  suite_id-suite_of, suite_of, suite_of-suite_id,
}
use kmsqr.Crypto.Signatures.{generate, sign, tagged, verify, verify_parts, verify_suite}

tagged_lem :
    (suite : Suite) (n : ℕ) (rest : Bytes)
    → n < 2 ^ 32
    → (a : Bytes) × (b : Bytes) × (tagged suite n rest ≡ ok (a ++ (b ++ rest)))
      × (length a ≡ 2)
      × (length b ≡ 4)
      × (unpack_u16 a ≡ ok (suite_id suite))
      × (unpack_u32 b ≡ ok n)
unfolding tagged
tagged_lem suite n rest h =
    let (a, ea, la, ua) = pack_u16_lem (suite_id suite) (suite_id-lt suite) in
    let (b, eb, lb, ub) = pack_u32_lem n h in (a, b, rw (ea, eb), la, lb, ua, ub)
  where
    suite_id-lt : (s : Suite) → suite_id s < 2 ^ 16
    suite_id-lt hybrid_x25519_mlkem768_aes256gcm = omega arith
    suite_id-lt hybrid_ed25519_mldsa65 = omega arith
    suite_id-lt classic_x25519_aes256gcm = omega arith
    suite_id-lt classic_ed25519 = omega arith
    suite_id-lt aes256_gcm = omega arith

module _ (p : Primitives) where
  -- what `verify` does with a signature that was framed for the suite of the key
  verify_framed :
      (public_key message : Bytes) (suite : Suite) (a b c_sig pq_sig : Bytes)
      → length a ≡ 2
      → length b ≡ 4
      → unpack_u16 a ≡ ok (suite_id suite)
      → unpack_u32 b ≡ ok (length c_sig)
      → verify p public_key message (a ++ (b ++ (c_sig ++ pq_sig))) (some suite)
        ≡ verify_parts p public_key message suite c_sig pq_sig
  unfolding verify
  verify_framed public_key message suite a b c_sig pq_sig la lb ua ub =
      let rest = c_sig ++ pq_sig in
      let long : 6 ≤ length (a ++ (b ++ rest)) =
        omega (arith, length-append {0} a (b ++ rest), length-append {0} b rest) in
      let behind : drop 6 (a ++ (b ++ rest)) ≡ rest =
        rw (← append_assoc a b rest)
          (drop-append 6 (a ++ b) rest (omega (arith, length-append {0} a b))) in
      rw
        (
          ltb_ge _ _ long,
          take-append 2 a (b ++ rest) la,
          drop-append 2 a (b ++ rest) la,
          take-append 4 b rest lb,
          ua,
          ub,
          behind,
        )
        (unfold verify_suite in
          rw
            (
              suite_of-suite_id suite,
              suite_eq_refl suite,
              take-length-append c_sig pq_sig,
              drop-length-append c_sig pq_sig,
            )
            refl)

  verify_parts-true :
      (public_key message : Bytes) (suite : Suite) (c_sig pq_sig : Bytes)
      → verify_parts p public_key message suite c_sig pq_sig ≡ ok true
      → (p.ed25519_verify (take 32 public_key) message c_sig ≡ some true)
        × ((suite ≡ classic_ed25519)
            ⊎ ((p.oqs_available ≡ true)
                × (p.mldsa_verify (drop 32 public_key) message pq_sig ≡ some true)))
  unfolding verify_parts
  verify_parts-true public_key message suite c_sig pq_sig h =
      ground (arith, eq_of_suite_eq suite classic_ed25519)

  verify_suite-true :
      (public_key message : Bytes) (key_suite : Suite) (rest : Bytes) (n : ℕ) (r : Result Suite)
      → verify_suite p public_key message (some key_suite) rest n r ≡ ok true
      → (r ≡ ok key_suite)
        × (verify_parts p public_key message key_suite (take n rest) (drop n rest) ≡ ok true)
  unfolding verify_suite
  verify_suite-true public_key message key_suite rest n (err e) h = ground arith
  verify_suite-true public_key message key_suite rest n (ok s) h =
      elim (Bool-cases (suite_eq s key_suite)) [
        | inl same ↦ let e = eq_of_suite_eq s key_suite same in (ap ok e, rw e at (rw same at h))
        | inr other ↦ cc (rw other at h)
      ]

  -- Soundness: a signature is accepted under the recorded suite of a key only if its header names
  -- that suite and its classical part verifies, and for a hybrid key only if liboqs is present and
  -- its ML-DSA part verifies too.
  pub verify-both_halves :
      (public_key message signature : Bytes) (key_suite : Suite)
      → verify p public_key message signature (some key_suite) ≡ ok true
      → (n : ℕ) × (unpack_u16 (take 2 signature) ≡ ok (suite_id key_suite))
        × (unpack_u32 (take 4 (drop 2 signature)) ≡ ok n)
        × (p.ed25519_verify (take 32 public_key) message (take n (drop 6 signature)) ≡ some true)
        × ((key_suite ≡ classic_ed25519)
            ⊎ ((p.oqs_available ≡ true)
                × (p.mldsa_verify (drop 32 public_key) message (drop n (drop 6 signature))
                    ≡ some true)))
  unfolding verify
  verify-both_halves public_key message signature key_suite h =
      elim (Bool-cases (ltb (length signature) 6)) [
        | inl short ↦ cc (rw short at h)
        | inr long ↦
            let (tag, e_tag, h₁) = bind-eq-ok (unpack_u16 (take 2 signature)) _ (rw long at h) in
            let (n, e_n, h₂) = bind-eq-ok (unpack_u32 (take 4 (drop 2 signature))) _ h₁ in
            let (e_suite, h₃) =
              verify_suite-true public_key message key_suite (drop 6 signature) n (suite_of tag)
                h₂ in
            let (good, halves) = verify_parts-true public_key message key_suite _ _ h₃ in
            (n, rw (← suite_id-suite_of tag key_suite e_suite) e_tag, e_n, good, halves)
      ]

module _ (p : Primitives) (laws : SignatureLaws p) where
  sign_classic :
      (r pq_r m : Bytes)
      → p.oqs_available ≡ false
      → (sig : Bytes) × (sign p (p.ed25519_generate r).0 m classic_ed25519 ≡ ok sig)
        × (verify p (p.ed25519_generate r).1 m sig (some classic_ed25519) ≡ ok true)
  unfolding sign
  sign_classic r pq_r m off =
      let (c, e_c, l_c, v_c) = laws.ed25519_signs r m in
      let (a, b, e_t, la, lb, ua, ub) = tagged_lem classic_ed25519 (length c) c (omega arith) in
      let framed =
        verify_framed p (p.ed25519_generate r).1 m classic_ed25519 a b c [] la lb ua ub in
      let checked : verify_parts p (p.ed25519_generate r).1 m classic_ed25519 c [] ≡ ok true =
        unfold verify_parts in
        rw (take-all 32 (p.ed25519_generate r).1 (laws.ed25519_public r), v_c) refl in
      (
        a ++ (b ++ c),
        rw (take-all 32 (p.ed25519_generate r).0 (laws.ed25519_private r), e_c, e_t) refl,
        (rw append-nil at framed) ∙ checked,
      )

  sign_hybrid :
      (r pq_r m : Bytes)
      → p.oqs_available ≡ true
      → let priv = (p.ed25519_generate r).0 ++ (p.mldsa_generate pq_r).0 in
        let public = (p.ed25519_generate r).1 ++ (p.mldsa_generate pq_r).1 in
        (sig : Bytes) × (sign p priv m hybrid_ed25519_mldsa65 ≡ ok sig)
        × (verify p public m sig (some hybrid_ed25519_mldsa65) ≡ ok true)
  unfolding sign
  sign_hybrid r pq_r m on =
      let (c_priv, c_pub) = p.ed25519_generate r in
      let (pq_priv, pq_pub) = p.mldsa_generate pq_r in
      let (c, e_c, l_c, v_c) = laws.ed25519_signs r m in
      let (q, e_q, v_q) = laws.mldsa_signs pq_r m in
      let (a, b, e_t, la, lb, ua, ub) =
        tagged_lem hybrid_ed25519_mldsa65 (length c) (c ++ q) (omega arith) in
      let framed = verify_framed p (c_pub ++ pq_pub) m hybrid_ed25519_mldsa65 a b c q la lb ua ub in
      let checked : verify_parts p (c_pub ++ pq_pub) m hybrid_ed25519_mldsa65 c q ≡ ok true =
        unfold verify_parts in
        rw
          (
            take-append 32 c_pub pq_pub (laws.ed25519_public r),
            v_c,
            on,
            drop-append 32 c_pub pq_pub (laws.ed25519_public r),
            v_q,
          )
          refl in
      (
        a ++ (b ++ (c ++ q)),
        rw
            (
              take-append 32 c_priv pq_priv (laws.ed25519_private r),
              e_c,
              on,
              drop-append 32 c_priv pq_priv (laws.ed25519_private r),
              e_q,
              e_t,
            )
            refl,
        framed ∙ checked,
      )

  -- For every pair that `generate` makes, with liboqs or without it: signing succeeds, and the
  -- signature verifies under the public key and the recorded suite of the pair.
  pub verify-sign :
      (r pq_r m : Bytes)
      → (sig : Bytes) × (sign p (generate p r pq_r).private_key m (generate p r pq_r).suite
          ≡ ok sig)
        × (verify p (generate p r pq_r).public_key m sig (some (generate p r pq_r).suite) ≡ ok true)
  unfolding generate
  verify-sign r pq_r m = elim (Bool-cases p.oqs_available) [
    | inl on ↦ simp on (sign_hybrid r pq_r m on)
    | inr off ↦ simp off (sign_classic r pq_r m off)
  ]
