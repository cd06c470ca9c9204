-- ===== src/Crypto/Kem.antt =====
-- pqkms/app/crypto/kem.py: X25519 + ML-KEM-768.
-- Format: [1 byte: suite][2 bytes: salt_len][salt][2 bytes: eph_len][eph_pub], and for the hybrid
-- suite [4 bytes: pq_ct_len][pq_ct] behind it.
pub mod Laws
use kmsqr.Base.{
  Bytes, Result, [], drop, encode, err, if◌then◌else◌, length, ltb, not, ok, runtime_error, take,
  value_error, ℕ, ◌++◌, ◌||◌,
}
use kmsqr.Base.Results.{or_raise, ◌>>=◌, ◌>>◌}
use kmsqr.Encoding.Struct.{pack_u16, pack_u32, pack_u8, unpack_u16, unpack_u32, unpack_u8}
use kmsqr.Crypto.Primitives.{Primitives}
use kmsqr.Crypto.Suites.{
  Suite, classic_x25519_aes256gcm, hybrid_x25519_mlkem768_aes256gcm, suite_eq, suite_id, suite_of,
}

abbrev pub x25519_pub_len : ℕ
x25519_pub_len = 32

abbrev pub x25519_priv_len : ℕ
x25519_priv_len = 32

pub record HybridKemKeypair : Type 0 where
  pub suite : Suite
  pub public_key : Bytes
  pub private_key : Bytes
  pub classical_pub_len : ℕ
  pub pq_pub_len : ℕ

-- the random draws of one encapsulation: ephemeral key, salt, ML-KEM
pub record EncapDraw : Type 0 where
  pub ephemeral : Bytes
  pub salt : Bytes
  pub pq : Bytes

abbrev classical_info : Bytes
classical_info = encode "pqkms/classical-kem/v1"

abbrev hybrid_info : Bytes
hybrid_info = encode "pqkms/hybrid-kem/v1"

-- struct.pack("!BH", suite, len(salt)) + salt + struct.pack("!H", len(eph)) + eph + rest
header : Suite → Bytes → Bytes → Bytes → Result Bytes
header suite salt eph_pub rest = do
  a ← pack_u8 (suite_id suite)
  b ← pack_u16 (length salt)
  c ← pack_u16 (length eph_pub)
  ok (a ++ (b ++ (salt ++ (c ++ (eph_pub ++ rest)))))

module _ (p : Primitives) where
  -- HybridKEM.generate
  unfoldable pub generate : Bytes → Bytes → HybridKemKeypair
  generate r pq_r =
      let (c_priv, c_pub) = p.x25519_generate r in
      let (pq_priv, pq_pub) = p.mlkem_generate pq_r in
      if not p.oqs_available
      then record {
        suite = classic_x25519_aes256gcm;
        public_key = c_pub;
        private_key = c_priv;
        classical_pub_len = length c_pub;
        pq_pub_len = 0;
      }
      else record {
        suite = hybrid_x25519_mlkem768_aes256gcm;
        public_key = c_pub ++ pq_pub;
        private_key = c_priv ++ pq_priv;
        classical_pub_len = length c_pub;
        pq_pub_len = length pq_pub;
      }

  encap_classic : Bytes → Bytes → Bytes → Result (Bytes × Bytes)
  unfolding header
  encap_classic ss_classical salt eph_pub = do
    blob ← header classic_x25519_aes256gcm salt eph_pub []
    ok (p.hkdf ss_classical salt classical_info, blob)

  encap_hybrid : Bytes → Bytes → Bytes → Bytes → Bytes → Result (Bytes × Bytes)
  unfolding header
  encap_hybrid ss_classical salt eph_pub pq_pub pq_draw = do
    (pq_ct, ss_pq) ← or_raise (p.mlkem_encap pq_pub pq_draw) runtime_error
    n ← pack_u32 (length pq_ct)
    blob ← header hybrid_x25519_mlkem768_aes256gcm salt eph_pub (n ++ pq_ct)
    ok (p.hkdf (ss_classical ++ ss_pq) salt hybrid_info, blob)

  -- HybridKEM.encapsulate: the shared secret and the blob
  pub encapsulate : EncapDraw → Bytes → Suite → Result (Bytes × Bytes)
  unfolding encap_classic encap_hybrid suite_eq
  encapsulate d recipient_public_key suite = do
    let (eph_priv, eph_pub) = p.x25519_generate d.ephemeral
    ss_classical ←
        or_raise (p.x25519_exchange eph_priv (take x25519_pub_len recipient_public_key)) value_error
    if suite_eq suite classic_x25519_aes256gcm || not p.oqs_available
        then encap_classic ss_classical d.salt eph_pub
        else encap_hybrid ss_classical d.salt eph_pub (drop x25519_pub_len recipient_public_key)
            d.pq

  -- the rest of the blob behind the ephemeral key
  decap_pq : Bytes → Bytes → Bytes → Bytes → Result Bytes
  decap_pq private_key ss_classical salt rest = do
    n ← unpack_u32 (take 4 rest)
    ss_pq ←
        or_raise (p.mlkem_decap (drop x25519_priv_len private_key) (take n (drop 4 rest)))
          runtime_error
    ok (p.hkdf (ss_classical ++ ss_pq) salt hybrid_info)

  decap_suite : Bytes → Suite → Bytes → Bytes → Bytes → Result Bytes
  unfolding decap_pq suite_eq
  decap_suite private_key suite ss_classical salt rest =
      if suite_eq suite classic_x25519_aes256gcm
      then ok (p.hkdf ss_classical salt classical_info)
      else if not p.oqs_available
      then err runtime_error
      else decap_pq private_key ss_classical salt rest

  -- HybridKEM.decapsulate
  pub decapsulate : Bytes → Bytes → Result Bytes
  unfolding decap_suite
  decapsulate private_key encapsulation =
      if ltb (length encapsulation) 3 then err value_error else do
        tag ← unpack_u8 (take 1 encapsulation)
        salt_len ← unpack_u16 (take 2 (drop 1 encapsulation))
        suite ← suite_of tag
        let behind = drop 2 (drop 1 encapsulation)
        let salt = take salt_len behind
        eph_len ← unpack_u16 (take 2 (drop salt_len behind))
        let eph_rest = drop 2 (drop salt_len behind)
        ss_classical ←
            or_raise (p.x25519_exchange (take x25519_priv_len private_key) (take eph_len eph_rest))
              value_error
        decap_suite private_key suite ss_classical salt (drop eph_len eph_rest)
