-- ===== src/Storage/Audit/Packing.antt =====
-- The packing of the log's key pair, as load_or_create_audit_signing_key stores it.
use kmsqr.Base.{
  Bytes, Result, ap, append_assoc, arith, drop, drop-append, length, length-append, ok, refl, sym,
  take, take-append, ℕ, ◌++◌, ◌+◌, ◌<◌, ◌^◌, ◌∙◌, ◌≡◌,
}
use kmsqr.Base.Results.{bind-eq-ok, ◌>>=◌}
use kmsqr.Encoding.Struct.{pack_u16, pack_u16_lem, pack_u32, pack_u32_lem, unpack_u16, unpack_u32}
use kmsqr.Crypto.Suites.{
  Suite, aes256_gcm, classic_ed25519, classic_x25519_aes256gcm, hybrid_ed25519_mldsa65,
  hybrid_x25519_mlkem768_aes256gcm, suite_id, suite_of, suite_of-suite_id,
}
use kmsqr.Storage.Audit.{SigningKey}

-- _parse: "!HI" and the two halves
unfoldable pub parse_keypair : Bytes → Result SigningKey
parse_keypair raw = do
  suite_number ← unpack_u16 (take 2 (take 6 raw))
  priv_len ← unpack_u32 (drop 2 (take 6 raw))
  suite ← suite_of suite_number
  ok (record {
    private = take priv_len (drop 6 raw);
    public = drop (6 + priv_len) raw;
    suite = suite;
  })

unfoldable pub pack_keypair : SigningKey → Result Bytes
pack_keypair k = do
  a ← pack_u16 (suite_id k.suite)
  b ← pack_u32 (length k.private)
  ok ((a ++ b) ++ (k.private ++ k.public))

small_suite : (s : Suite) → suite_id s < 2 ^ 16
small_suite hybrid_x25519_mlkem768_aes256gcm = omega arith
small_suite hybrid_ed25519_mldsa65 = omega arith
small_suite classic_x25519_aes256gcm = omega arith
small_suite classic_ed25519 = omega arith
small_suite aes256_gcm = omega arith

u32_small : (n : ℕ) (b : Bytes) → pack_u32 n ≡ ok b → n < 2 ^ 32
unfolding pack_u32
u32_small n b h = ground arith

parse_keypair-layout :
    (k : SigningKey) (a b : Bytes)
    → length a ≡ 2
    → unpack_u16 a ≡ ok (suite_id k.suite)
    → length b ≡ 4
    → unpack_u32 b ≡ ok (length k.private)
    → parse_keypair ((a ++ b) ++ (k.private ++ k.public)) ≡ ok k
unfolding parse_keypair
parse_keypair-layout k a b la ua lb ub =
    let head : length (a ++ b) ≡ 6 = omega (arith, length-append {0} a b) in
    let whole : length ((a ++ b) ++ k.private) ≡ 6 + length k.private =
      omega (arith, head, length-append {0} (a ++ b) k.private) in
    let public : drop (6 + length k.private) ((a ++ b) ++ (k.private ++ k.public)) ≡ k.public =
      ap (drop (6 + length k.private)) (sym (append_assoc (a ++ b) k.private k.public))
      ∙ drop-append (6 + length k.private) ((a ++ b) ++ k.private) k.public whole in
    rw
      (
        take-append 6 (a ++ b) (k.private ++ k.public) head,
        take-append 2 a b la,
        drop-append 2 a b la,
        ua,
        ub,
        suite_of-suite_id k.suite,
        public,
        drop-append 6 (a ++ b) (k.private ++ k.public) head,
        take-append (length k.private) k.private k.public refl,
      )
      refl

-- A key pair that was packed is read back as it was.
pub parse_keypair-pack_keypair :
    (k : SigningKey) (raw : Bytes) → pack_keypair k ≡ ok raw → parse_keypair raw ≡ ok k
unfolding pack_keypair
parse_keypair-pack_keypair k raw h =
    let (_, packs_a, h₁) = bind-eq-ok (pack_u16 (suite_id k.suite)) _ h in
    let (_, packs_b, _) = bind-eq-ok (pack_u32 (length k.private)) _ h₁ in
    let (a, e, la, ua) = pack_u16_lem (suite_id k.suite) (small_suite k.suite) in
    let (b, f, lb, ub) = pack_u32_lem (length k.private) (u32_small (length k.private) _ packs_b) in
    let layout : (a ++ b) ++ (k.private ++ k.public) ≡ raw = inner (rw (e, f) at h) in
    rw (sym layout) (parse_keypair-layout k a b la ua lb ub)
  where
    inner : {x y : Bytes} → ok x ≡ ok y → x ≡ y
    inner q = cc
