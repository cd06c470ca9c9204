-- ===== src/Crypto/Primitives.antt =====
-- The primitives that the code imports (cryptography, hashlib, argon2, oqs), as parameters.
-- Random draws of a call are an argument (`Bytes`); `none` is a raised exception.
use kmsqr.Base.{Bool, Bytes, IsBytes, Option, length, some, true, ◌+◌, ◌<◌, ◌^◌, ◌≡◌, ℕ}

pub record Primitives : Type 0 where
  -- AESGCM(key).encrypt(nonce, data, aad) and decrypt; `none` is InvalidTag
  pub aesgcm_encrypt : Bytes → Bytes → Bytes → Bytes → Bytes
  pub aesgcm_decrypt : Bytes → Bytes → Bytes → Bytes → Option Bytes
  pub sha384 : Bytes → Bytes
  -- HKDF-SHA384: ikm, salt, info
  pub hkdf : Bytes → Bytes → Bytes → Bytes
  -- Argon2id: secret, salt, time cost, memory cost, parallelism, length; `none` is HashingError
  pub argon2id : Bytes → Bytes → ℕ → ℕ → ℕ → ℕ → Option Bytes
  -- whether `import oqs` succeeded
  pub oqs_available : Bool
  -- private and public key of a draw
  pub ed25519_generate : Bytes → Bytes × Bytes
  pub ed25519_sign : Bytes → Bytes → Option Bytes
  -- public key, message, signature; `none` is a public key that cannot be loaded
  pub ed25519_verify : Bytes → Bytes → Bytes → Option Bool
  pub mldsa_generate : Bytes → Bytes × Bytes
  pub mldsa_sign : Bytes → Bytes → Option Bytes
  pub mldsa_verify : Bytes → Bytes → Bytes → Option Bool
  pub x25519_generate : Bytes → Bytes × Bytes
  -- private key, the other side's public key
  pub x25519_exchange : Bytes → Bytes → Option Bytes
  pub mlkem_generate : Bytes → Bytes × Bytes
  -- public key and draw; ciphertext and shared secret
  pub mlkem_encap : Bytes → Bytes → Option (Bytes × Bytes)
  pub mlkem_decap : Bytes → Bytes → Option Bytes

-- AES-GCM: what `encrypt` returns decrypts under the same key, nonce and associated data, and is
-- 16 bytes longer than the data; it is made of bytes.
pub record AeadLaws (p : Primitives) : Type 0 where
  pub decrypt-encrypt :
      (key nonce m aad : Bytes)
      → p.aesgcm_decrypt key nonce (p.aesgcm_encrypt key nonce m aad) aad ≡ some m
  pub length-encrypt :
      (key nonce m aad : Bytes) → length (p.aesgcm_encrypt key nonce m aad) ≡ length m + 16
  pub encrypt-IsBytes :
      (key nonce m aad : Bytes) → IsBytes m → IsBytes (p.aesgcm_encrypt key nonce m aad)

-- Ed25519 and ML-DSA: sizes, and that a signature verifies under the public key of its pair.
pub record SignatureLaws (p : Primitives) : Type 0 where
  pub ed25519_private : (r : Bytes) → length (p.ed25519_generate r).0 ≡ 32
  pub ed25519_public : (r : Bytes) → length (p.ed25519_generate r).1 ≡ 32
  pub ed25519_signs :
      (r m : Bytes)
      → (s : Bytes) × (p.ed25519_sign (p.ed25519_generate r).0 m ≡ some s)
        × (length s ≡ 64)
        × (p.ed25519_verify (p.ed25519_generate r).1 m s ≡ some true)
  pub mldsa_signs :
      (r m : Bytes)
      → (s : Bytes) × (p.mldsa_sign (p.mldsa_generate r).0 m ≡ some s)
        × (p.mldsa_verify (p.mldsa_generate r).1 m s ≡ some true)

-- X25519 and ML-KEM: sizes, and that both sides derive one secret.
pub record KemLaws (p : Primitives) : Type 0 where
  pub x25519_private : (r : Bytes) → length (p.x25519_generate r).0 ≡ 32
  pub x25519_public : (r : Bytes) → length (p.x25519_generate r).1 ≡ 32
  pub x25519_agree :
      (a b : Bytes)
      → (s : Bytes) × (p.x25519_exchange (p.x25519_generate a).0 (p.x25519_generate b).1 ≡ some s)
        × (p.x25519_exchange (p.x25519_generate b).0 (p.x25519_generate a).1 ≡ some s)
  pub mlkem_agree :
      (r d : Bytes)
      → (c : Bytes) × (s : Bytes) × (p.mlkem_encap (p.mlkem_generate r).1 d ≡ some (c, s))
        × (p.mlkem_decap (p.mlkem_generate r).0 c ≡ some s)
        × (length c < 2 ^ 32)
