-- ===== src/Crypto/Kem/Laws.antt =====
-- Decapsulation recovers the secret of an encapsulation.
use kmsqr.Base.{
  Bool-cases, Bytes, [], arith, drop-append, drop-length-append, false, inl, inr, length,
  length-append, ltb_ge, ok, refl, some, take, take-all, take-append, take-length-append, true,
  ◌++◌, ◌<◌, ◌^◌, ◌∙◌, ◌∷◌, ◌≡◌, ◌≤◌,
}
use kmsqr.Encoding.Struct.{pack_u16_lem, pack_u32_lem, pack_u8_lem, unpack_u8_lem}
use kmsqr.Crypto.Primitives.{KemLaws, Primitives}
use kmsqr.Crypto.Suites.{
  Suite, aes256_gcm, classic_ed25519, classic_x25519_aes256gcm, hybrid_ed25519_mldsa65,
  hybrid_x25519_mlkem768_aes256gcm, suite_id, suite_of-suite_id,
}
use kmsqr.Crypto.Kem.{
  EncapDraw, classical_info, decap_suite, decapsulate, encapsulate, generate, header, hybrid_info,
}

suite_id-lt : (s : Suite) → suite_id s < 2 ^ 8
suite_id-lt hybrid_x25519_mlkem768_aes256gcm = omega arith
suite_id-lt hybrid_ed25519_mldsa65 = omega arith
suite_id-lt classic_x25519_aes256gcm = omega arith
suite_id-lt classic_ed25519 = omega arith
suite_id-lt aes256_gcm = omega arith

module _ (p : Primitives) (suite : Suite) (salt eph_pub rest : Bytes) where
  -- a header is written, and `decapsulate` reads its fields back
  decapsulate-header :
      (private_key ss : Bytes)
      → length salt < 2 ^ 16
      → length eph_pub < 2 ^ 16
      → p.x25519_exchange (take 32 private_key) eph_pub ≡ some ss
      → (blob : Bytes) × (header suite salt eph_pub rest ≡ ok blob)
        × (decapsulate p private_key blob ≡ decap_suite p private_key suite ss salt rest)
  unfolding header decapsulate
  decapsulate-header private_key ss ls le ex =
      let (b, e_b, l_b, u_b) = pack_u16_lem (length salt) ls in
      let (c, e_c, l_c, u_c) = pack_u16_lem (length eph_pub) le in
      let tail = salt ++ (c ++ (eph_pub ++ rest)) in
      let long : 3 ≤ length (suite_id suite ∷ (b ++ tail)) =
        omega (arith, length-append {0} b tail) in
      (
        suite_id suite ∷ (b ++ tail),
        rw (pack_u8_lem (suite_id suite) (suite_id-lt suite), e_b, e_c) refl,
        rw
            (
              ltb_ge _ _ long,
              take-append 2 b tail l_b,
              u_b,
              unpack_u8_lem (suite_id suite),
              suite_of-suite_id suite,
              drop-append 2 b tail l_b,
            )
            (rw
              (
                take-length-append salt (c ++ (eph_pub ++ rest)),
                drop-length-append salt (c ++ (eph_pub ++ rest)),
                take-append 2 c (eph_pub ++ rest) l_c,
                u_c,
                drop-append 2 c (eph_pub ++ rest) l_c,
                take-length-append eph_pub rest,
                ex,
                drop-length-append eph_pub rest,
              )
              refl),
      )

module _ (p : Primitives) (laws : KemLaws p) (d : EncapDraw) (salt_16 : length d.salt ≡ 16) where
  classic_round_trip :
      (r : Bytes)
      → p.oqs_available ≡ false
      → (s : Bytes) × (blob : Bytes) × (encapsulate p d
            (p.x25519_generate r).1
            classic_x25519_aes256gcm
          ≡ ok (s, blob))
        × (decapsulate p (p.x25519_generate r).0 blob ≡ ok s)
  unfolding encapsulate
  classic_round_trip r off =
      let (c_priv, c_pub) = p.x25519_generate r in
      let (eph_priv, eph_pub) = p.x25519_generate d.ephemeral in
      let (ss, e_ab, e_ba) = laws.x25519_agree d.ephemeral r in
      let whole = take-all 32 c_priv (laws.x25519_private r) in
      let (blob, e_h, e_d) =
        decapsulate-header p classic_x25519_aes256gcm d.salt eph_pub [] c_priv ss (omega arith)
          (omega (arith, laws.x25519_public d.ephemeral)) (rw whole e_ba) in
      (
        p.hkdf ss d.salt classical_info,
        blob,
        rw (take-all 32 c_pub (laws.x25519_public r), e_ab, e_h) refl,
        e_d ∙ (unfold decap_suite in refl),
      )

  hybrid_round_trip :
      (r pq_r : Bytes)
      → p.oqs_available ≡ true
      → let priv = (p.x25519_generate r).0 ++ (p.mlkem_generate pq_r).0 in
        let public = (p.x25519_generate r).1 ++ (p.mlkem_generate pq_r).1 in
        (s : Bytes) × (blob : Bytes) × (encapsulate p d public hybrid_x25519_mlkem768_aes256gcm
          ≡ ok (s, blob))
        × (decapsulate p priv blob ≡ ok s)
  unfolding encapsulate
  hybrid_round_trip r pq_r on =
      let (c_priv, c_pub) = p.x25519_generate r in
      let (pq_priv, pq_pub) = p.mlkem_generate pq_r in
      let (eph_priv, eph_pub) = p.x25519_generate d.ephemeral in
      let (ss, e_ab, e_ba) = laws.x25519_agree d.ephemeral r in
      let (ct, pq_ss, e_enc, e_dec, short) = laws.mlkem_agree pq_r d.pq in
      let (n, e_n, l_n, u_n) = pack_u32_lem (length ct) short in
      let (blob, e_h, e_d) =
        decapsulate-header p hybrid_x25519_mlkem768_aes256gcm d.salt eph_pub (n ++ ct)
          (c_priv ++ pq_priv) ss (omega arith) (omega (arith, laws.x25519_public d.ephemeral))
          (rw (take-append 32 c_priv pq_priv (laws.x25519_private r)) e_ba) in
      let opened : decap_suite p (c_priv ++ pq_priv) hybrid_x25519_mlkem768_aes256gcm ss d.salt
            (n ++ ct)
          ≡ ok (p.hkdf (ss ++ pq_ss) d.salt hybrid_info) =
        unfold decap_suite in
        rw
          (
            on,
            take-append 4 n ct l_n,
            u_n,
            drop-append 32 c_priv pq_priv (laws.x25519_private r),
            drop-append 4 n ct l_n,
            take-all (length ct) ct refl,
            e_dec,
          )
          refl in
      (
        p.hkdf (ss ++ pq_ss) d.salt hybrid_info,
        blob,
        simp on (
            rw
              (
                take-append 32 c_pub pq_pub (laws.x25519_public r),
                e_ab,
                drop-append 32 c_pub pq_pub (laws.x25519_public r),
                e_enc,
                e_n,
                e_h,
              )
              refl),
        e_d ∙ opened,
      )

  -- With a salt of 16 bytes, for every key pair that `generate` makes, with liboqs or without it:
  -- encapsulation to the pair succeeds, and decapsulation recovers the same shared secret.
  pub decapsulate-encapsulate :
      (r pq_r : Bytes)
      → (s : Bytes) × (blob : Bytes) × (encapsulate p d
            (generate p r pq_r).public_key
            (generate p r pq_r).suite
          ≡ ok (s, blob))
        × (decapsulate p (generate p r pq_r).private_key blob ≡ ok s)
  unfolding generate
  decapsulate-encapsulate r pq_r = elim (Bool-cases p.oqs_available) [
    | inl on ↦ simp on (hybrid_round_trip r pq_r on)
    | inr off ↦ simp off (classic_round_trip r off)
  ]
