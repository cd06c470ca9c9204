-- ===== src/Crypto/Signatures.antt =====
-- pqkms/app/crypto/signatures.py: Ed25519 + ML-DSA-65 signatures.
-- Format: [2 bytes: suite][4 bytes: classical_sig_len][classical_sig][pq_sig]
pub mod Laws
use kmsqr.Base.{
  Bool, Bytes, Option, Result, drop, err, false, if◌then◌else◌, length, ltb, none, not, ok,
  runtime_error, some, take, true, value_error, ℕ, ◌++◌, ◌||◌,
}
use kmsqr.Base.Results.{or_raise, ◌>>=◌, ◌>>◌}
use kmsqr.Encoding.Struct.{pack_u16, pack_u32, unpack_u16, unpack_u32}
use kmsqr.Crypto.Primitives.{Primitives}
use kmsqr.Crypto.Suites.{
  Suite, classic_ed25519, hybrid_ed25519_mldsa65, suite_eq, suite_id, suite_of,
}

abbrev pub ed25519_pub_len : ℕ
ed25519_pub_len = 32

abbrev pub ed25519_priv_len : ℕ
ed25519_priv_len = 32

pub record HybridSigKeypair : Type 0 where
  pub suite : Suite
  pub public_key : Bytes
  pub private_key : Bytes
  pub classical_pub_len : ℕ

-- struct.pack("!HI", int(suite), length) + rest
tagged : Suite → ℕ → Bytes → Result Bytes
tagged suite n rest = do a ← pack_u16 (suite_id suite); b ← pack_u32 n; ok (a ++ (b ++ rest))

module _ (p : Primitives) where
  -- HybridSigner.generate; the draws of both key generators are arguments
  unfoldable pub generate : Bytes → Bytes → HybridSigKeypair
  generate r pq_r =
      let (c_priv, c_pub) = p.ed25519_generate r in
      let (pq_priv, pq_pub) = p.mldsa_generate pq_r in
      if not p.oqs_available
      then record {
        suite = classic_ed25519;
        public_key = c_pub;
        private_key = c_priv;
        classical_pub_len = length c_pub;
      }
      else record {
        suite = hybrid_ed25519_mldsa65;
        public_key = c_pub ++ pq_pub;
        private_key = c_priv ++ pq_priv;
        classical_pub_len = length c_pub;
      }

  -- the part of HybridSigner.sign behind the classical signature
  add_pq : Bytes → Bytes → Suite → Bytes → Result Bytes
  unfolding suite_eq tagged
  add_pq private_key message suite c_sig =
      if suite_eq suite classic_ed25519 || not p.oqs_available
      then tagged classic_ed25519 (length c_sig) c_sig
      else do
        pq_sig ← or_raise (p.mldsa_sign (drop ed25519_priv_len private_key) message) runtime_error
        tagged hybrid_ed25519_mldsa65 (length c_sig) (c_sig ++ pq_sig)

  -- HybridSigner.sign
  unfoldable pub sign : Bytes → Bytes → Suite → Result Bytes
  unfolding add_pq
  sign private_key message suite = do
    c_sig ← or_raise (p.ed25519_sign (take ed25519_priv_len private_key) message) value_error
    add_pq private_key message suite c_sig

  -- the post-quantum half; any exception there is a failed verification
  verify_pq : Bytes → Bytes → Bytes → Bool
  verify_pq public_key message pq_sig =
      if not p.oqs_available
      then false
      else elim (p.mldsa_verify (drop ed25519_pub_len public_key) message pq_sig) [
        | none ↦ false
        | some b ↦ b
      ]

  -- both halves, after the header was read
  verify_parts : Bytes → Bytes → Suite → Bytes → Bytes → Result Bool
  unfolding verify_pq suite_eq
  verify_parts public_key message suite c_sig pq_sig = do
    good ← or_raise (p.ed25519_verify (take ed25519_pub_len public_key) message c_sig) value_error
    ok (
        if not good
        then false
        else if suite_eq suite classic_ed25519
        then true
        else verify_pq public_key message pq_sig)

  -- the suite of the header, and the check against the suite of the key
  verify_suite : Bytes → Bytes → Option Suite → Bytes → ℕ → Result Suite → Result Bool
  unfolding verify_parts
  verify_suite public_key message expected rest c_sig_len (err e) = ok false
  verify_suite public_key message none rest c_sig_len (ok suite) =
      verify_parts public_key message suite (take c_sig_len rest) (drop c_sig_len rest)
  verify_suite public_key message (some key_suite) rest c_sig_len (ok suite) =
      if not (suite_eq suite key_suite)
      then ok false
      else verify_parts public_key message suite (take c_sig_len rest) (drop c_sig_len rest)

  -- HybridSigner.verify
  unfoldable pub verify : Bytes → Bytes → Bytes → Option Suite → Result Bool
  unfolding verify_suite suite_of
  verify public_key message signature expected = if ltb (length signature) 6 then ok false else do
    suite_id ← unpack_u16 (take 2 signature)
    c_sig_len ← unpack_u32 (take 4 (drop 2 signature))
    verify_suite public_key message expected (drop 6 signature) c_sig_len (suite_of suite_id)
