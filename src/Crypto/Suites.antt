-- ===== src/Crypto/Suites.antt =====
-- pqkms/app/crypto/suites.py: the algorithm identifiers.
use kmsqr.Base.{
  Bool, Result, String, arith, err, if◌then◌else◌, ok, refl, true, value_error, ℕ, ◌==◌, ◌≡◌,
}

pub data Suite : Type 0 where
  hybrid_x25519_mlkem768_aes256gcm hybrid_ed25519_mldsa65 : Suite
  classic_x25519_aes256gcm classic_ed25519 : Suite
  aes256_gcm : Suite

-- int(suite)
abbrev pub suite_id : Suite → ℕ
suite_id hybrid_x25519_mlkem768_aes256gcm = 1
suite_id hybrid_ed25519_mldsa65 = 2
suite_id classic_x25519_aes256gcm = 10
suite_id classic_ed25519 = 11
suite_id aes256_gcm = 20

-- Suite(n), which raises ValueError
unfoldable pub suite_of : ℕ → Result Suite
suite_of n =
    if n == 1
    then ok hybrid_x25519_mlkem768_aes256gcm
    else if n == 2
    then ok hybrid_ed25519_mldsa65
    else if n == 10
    then ok classic_x25519_aes256gcm
    else if n == 11
    then ok classic_ed25519
    else if n == 20
    then ok aes256_gcm
    else err value_error

abbrev pub suite_name : Suite → String
suite_name hybrid_x25519_mlkem768_aes256gcm = "hybrid-x25519-mlkem768-aes256gcm"
suite_name hybrid_ed25519_mldsa65 = "hybrid-ed25519-mldsa65"
suite_name classic_x25519_aes256gcm = "x25519-aes256gcm"
suite_name classic_ed25519 = "ed25519"
suite_name aes256_gcm = "aes256gcm"

pub suite_of-suite_id : (s : Suite) → suite_of (suite_id s) ≡ ok s
unfolding suite_of
suite_of-suite_id hybrid_x25519_mlkem768_aes256gcm = refl
suite_of-suite_id hybrid_ed25519_mldsa65 = refl
suite_of-suite_id classic_x25519_aes256gcm = refl
suite_of-suite_id classic_ed25519 = refl
suite_of-suite_id aes256_gcm = refl

unfoldable pub suite_eq : Suite → Suite → Bool
suite_eq s t = suite_id s == suite_id t

pub suite_eq_refl : (s : Suite) → suite_eq s s ≡ true
unfolding suite_eq
suite_eq_refl s = ground arith

pub eq_of_suite_eq : (s t : Suite) → suite_eq s t ≡ true → s ≡ t
unfolding suite_eq
eq_of_suite_eq s t h = ground arith

pub suite_id-suite_of : (n : ℕ) (s : Suite) → suite_of n ≡ ok s → n ≡ suite_id s
unfolding suite_of
suite_id-suite_of n s h = ground arith
