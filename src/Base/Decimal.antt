-- ===== src/Base/Decimal.antt =====
-- `str(n)` of a natural number.
use Prim.Native.Nat.{ℕ, zero, suc, ◌+◌, ◌/◌, ◌%◌}
use mathlib.Core.List.{List, [], ◌∷◌}
use kmsqr.Base.Tests.{if◌then◌else◌, ltb}

-- the fuel bounds the number of digits
dec_digits : ℕ → ℕ → List ℕ → List ℕ
dec_digits zero n out = out
dec_digits (suc fuel) n out =
    let rest = dec_digits fuel (n / 10) ((b'0' + n % 10) ∷ out) in
    if ltb n 10 then (b'0' + n) ∷ out else rest

unfoldable pub decimal : ℕ → List ℕ
unfolding dec_digits
decimal n = dec_digits (suc n) n []
