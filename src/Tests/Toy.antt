-- ===== src/Tests/Toy.antt =====
-- Primitives that satisfy the laws: encryption puts a tag of zeros before the text, a hash and a
-- signature tell a message's length.
use kmsqr.Base.{
  All-append, Bytes, IsBytes, Option, ap, arith, bytes_eq, bytes_eq_refl, drop, if◌then◌else◌,
  length, length-append, none, refl, replicate, some, suc, take, true, zero, ℕ, ◌%◌, ◌++◌,
}
use kmsqr.Crypto.Primitives.{AeadLaws, KemLaws, Primitives, SignatureLaws}

abbrev zeros : Bytes
zeros = replicate 16 0

abbrev open_box : Bytes → Option Bytes
open_box c = if bytes_eq (take 16 c) zeros then some (drop 16 c) else none

abbrev mark : ℕ → Bytes → Bytes
mark n m = replicate n (length m % 256)

abbrev pub toy : Primitives
toy = record {
  aesgcm_encrypt = λ key nonce m aad. zeros ++ m;
  aesgcm_decrypt = λ key nonce c aad. open_box c;
  sha384 = λ m. mark 48 m;
  hkdf = λ ikm salt info. mark 32 ikm;
  argon2id = λ secret salt t m l n. some (replicate n (length salt % 256));
  oqs_available = true;
  ed25519_generate = λ r. (replicate 32 1, replicate 32 2);
  ed25519_sign = λ key m. some (mark 64 m);
  ed25519_verify = λ key m s. some (bytes_eq s (mark 64 m));
  mldsa_generate = λ r. (replicate 40 3, replicate 40 4);
  mldsa_sign = λ key m. some (mark 5 m);
  mldsa_verify = λ key m s. some (bytes_eq s (mark 5 m));
  x25519_generate = λ r. (replicate 32 5, replicate 32 6);
  x25519_exchange = λ key peer. some (replicate 32 7);
  mlkem_generate = λ r. (replicate 24 8, replicate 24 9);
  mlkem_encap = λ key d. some (replicate 20 10, replicate 32 11);
  mlkem_decap = λ key c. some (replicate 32 11);
}

pub toy_aead : AeadLaws toy
unfolding bytes_eq
toy_aead = record {
  decrypt-encrypt = λ key nonce m aad. refl;
  length-encrypt = λ key nonce m aad. omega (arith, length-append {0} zeros m);
  encrypt-IsBytes = λ key nonce m aad h. All-append _ zeros m (all_zero 16) h;
}
  where
    all_zero : (n : ℕ) → IsBytes (replicate n 0)
    all_zero zero = tt
    all_zero (suc n) = (omega arith, all_zero n)

pub toy_signatures : SignatureLaws toy
toy_signatures = record {
  ed25519_private = λ r. refl;
  ed25519_public = λ r. refl;
  ed25519_signs = λ r m. (mark 64 m, refl, refl, ap some (bytes_eq_refl (mark 64 m)));
  mldsa_signs = λ r m. (mark 5 m, refl, ap some (bytes_eq_refl (mark 5 m)));
}

pub toy_kem : KemLaws toy
toy_kem = record {
  x25519_private = λ r. refl;
  x25519_public = λ r. refl;
  x25519_agree = λ a b. (replicate 32 7, refl, refl);
  mlkem_agree = λ r d. (replicate 20 10, replicate 32 11, refl, refl, omega arith);
}
