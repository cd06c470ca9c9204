-- ===== src/Tests/Crypto.antt =====
-- The cryptographic components on the toy primitives.
use kmsqr.Base.{
  Bytes, [], bytes_eq, drop, encode, ok, refl, replicate, some, take, true, ℕ, ◌++◌, ◌∷◌, ◌≡◌, ◌⊎◌,
}
use kmsqr.Crypto.Suites.{classic_ed25519, hybrid_ed25519_mldsa65, suite_id}
use kmsqr.Crypto.Aead.{aead_decrypt, aead_decrypt-aead_encrypt, aead_encrypt}
use kmsqr.Crypto.Kem
use kmsqr.Crypto.Kem.Laws.{decapsulate-encapsulate}
use kmsqr.Crypto.Signatures
use kmsqr.Crypto.Signatures.Laws.{verify-both_halves, verify-sign}
use kmsqr.Encoding.Struct.{unpack_u16, unpack_u32}
use kmsqr.Tests.Toy.{toy, toy_aead, toy_kem, toy_signatures}

abbrev key : Bytes
key = replicate 32 42

abbrev nonce : Bytes
nonce = replicate 12 1

abbrev message : Bytes
message = encode "hi"

abbrev kem_draw : Kem.EncapDraw
kem_draw = record { ephemeral = key; salt = replicate 16 3; pq = key }

decapsulate-encapsulate_example :
    (s : Bytes) × (blob : Bytes) × (Kem.encapsulate toy kem_draw
        (Kem.generate toy key key).public_key
        (Kem.generate toy key key).suite
      ≡ ok (s, blob))
    × (Kem.decapsulate toy (Kem.generate toy key key).private_key blob ≡ ok s)
decapsulate-encapsulate_example = decapsulate-encapsulate toy toy_kem kem_draw refl key key

verify-sign_example :
    (sig : Bytes) × (Signatures.sign toy
        (Signatures.generate toy key key).private_key
        message
        (Signatures.generate toy key key).suite
      ≡ ok sig)
    × (Signatures.verify toy
          (Signatures.generate toy key key).public_key
          message
          sig
          (some (Signatures.generate toy key key).suite)
        ≡ ok true)
verify-sign_example = verify-sign toy toy_signatures key key message

abbrev header : Bytes
header = 0 ∷ 2 ∷ 0 ∷ 0 ∷ 0 ∷ 64 ∷ []

abbrev hybrid_signature : Bytes
hybrid_signature = header ++ (replicate 64 2 ++ replicate 5 2)

verify-both_halves_example :
    (n : ℕ) × (unpack_u16 (take 2 hybrid_signature) ≡ ok (suite_id hybrid_ed25519_mldsa65))
    × (unpack_u32 (take 4 (drop 2 hybrid_signature)) ≡ ok n)
    × (toy.ed25519_verify (take 32 key) message (take n (drop 6 hybrid_signature)) ≡ some true)
    × ((hybrid_ed25519_mldsa65 ≡ classic_ed25519)
        ⊎ ((toy.oqs_available ≡ true)
            × (toy.mldsa_verify (drop 32 key) message (drop n (drop 6 hybrid_signature))
                ≡ some true)))
unfolding Signatures.verify unpack_u16 unpack_u32 bytes_eq encode
verify-both_halves_example =
    verify-both_halves toy key message hybrid_signature hybrid_ed25519_mldsa65 refl

aead_decrypt-aead_encrypt_example :
    (blob : Bytes) × (aead_encrypt toy nonce key message [] ≡ ok blob)
    × (aead_decrypt toy key blob [] ≡ ok message)
aead_decrypt-aead_encrypt_example =
    aead_decrypt-aead_encrypt toy toy_aead nonce key message [] refl refl
