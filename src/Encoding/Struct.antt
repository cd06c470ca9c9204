-- ===== src/Encoding/Struct.antt =====
-- `struct.pack` and `struct.unpack` in network byte order, for the formats that the code uses.
use kmsqr.Base.Results.{◌>>=◌}
use kmsqr.Base.{
  Bytes, IsBytes, Result, [], arith, drop, err, if◌then◌else◌, length, ltb, ok, refl, struct_error,
  sym, take, ℕ, ◌%◌, ◌*◌, ◌++◌, ◌+◌, ◌/◌, ◌<◌, ◌^◌, ◌∷◌, ◌≡◌,
}

-- "B", "H" and "I": a value out of range raises struct.error.
unfoldable pub pack_u8 : ℕ → Result Bytes
pack_u8 n = if ltb n (2 ^ 8) then ok (n ∷ []) else err struct_error

unfoldable pub pack_u16 : ℕ → Result Bytes
pack_u16 n = if ltb n (2 ^ 16) then ok ((n / 2 ^ 8) ∷ (n % 2 ^ 8) ∷ []) else err struct_error

abbrev be32 : ℕ → Bytes
be32 n = (n / 2 ^ 24) ∷ (n / 2 ^ 16 % 2 ^ 8) ∷ (n / 2 ^ 8 % 2 ^ 8) ∷ (n % 2 ^ 8) ∷ []

unfoldable pub pack_u32 : ℕ → Result Bytes
pack_u32 n = if ltb n (2 ^ 32) then ok (be32 n) else err struct_error

-- the buffer must have exactly the size of the format
unfoldable pub unpack_u8 : Bytes → Result ℕ
unpack_u8 (a ∷ []) = ok a
unpack_u8 _ = err struct_error

unfoldable pub unpack_u16 : Bytes → Result ℕ
unpack_u16 (a ∷ b ∷ []) = ok (a * 2 ^ 8 + b)
unpack_u16 _ = err struct_error

unfoldable pub unpack_u32 : Bytes → Result ℕ
unpack_u32 (a ∷ b ∷ c ∷ d ∷ []) = ok (a * 2 ^ 24 + b * 2 ^ 16 + c * 2 ^ 8 + d)
unpack_u32 _ = err struct_error

-- "!BI", the tag of a ciphertext
unfoldable pub pack_bi : ℕ → ℕ → Result Bytes
pack_bi a b = do x ← pack_u8 a; y ← pack_u32 b; ok (x ++ y)

unfoldable pub unpack_bi : Bytes → Result (ℕ × ℕ)
unpack_bi raw = do a ← unpack_u8 (take 1 raw); b ← unpack_u32 (drop 1 raw); ok (a, b)

pub pack_u8_lem : (n : ℕ) → n < 2 ^ 8 → pack_u8 n ≡ ok (n ∷ [])
unfolding pack_u8
pack_u8_lem n h = ground arith

pub pack_u16_lem :
    (n : ℕ)
    → n < 2 ^ 16
    → (b : Bytes) × (pack_u16 n ≡ ok b) × (length b ≡ 2) × (unpack_u16 b ≡ ok n)
unfolding pack_u16 unpack_u16
pack_u16_lem n h = ((n / 2 ^ 8) ∷ (n % 2 ^ 8) ∷ [], ground arith, refl, ground arith)

pub pack_u32_lem :
    (n : ℕ)
    → n < 2 ^ 32
    → (b : Bytes) × (pack_u32 n ≡ ok b) × (length b ≡ 4) × (unpack_u32 b ≡ ok n)
unfolding pack_u32 unpack_u32
pack_u32_lem n h = (be32 n, ground arith, refl, ground arith)

pub unpack_u8_lem : (n : ℕ) → unpack_u8 (n ∷ []) ≡ ok n
unfolding unpack_u8
unpack_u8_lem n = refl

pub pack_bi_lem :
    (a b : ℕ)
    → a < 2 ^ 8
    → b < 2 ^ 32
    → (h : Bytes) × (pack_bi a b ≡ ok h) × (length h ≡ 5) × (unpack_bi h ≡ ok (a, b))
unfolding pack_bi unpack_bi
pack_bi_lem a b ha hb =
    let (y, e, l, u) = pack_u32_lem b hb in
    (a ∷ y, rw (pack_u8_lem a ha, e) refl, omega (arith, l), rw (unpack_u8_lem a, u) refl)

-- what was packed has 5 bytes and unpacks
pub record IsHeader (a b : ℕ) (h : Bytes) : Type 0 where
  pub size : length h ≡ 5
  pub unpacks : unpack_bi h ≡ ok (a, b)
  pub bytes : IsBytes h

pub pack_bi-IsHeader : (a b : ℕ) (h : Bytes) → pack_bi a b ≡ ok h → IsHeader a b h
unfolding pack_bi unpack_bi pack_u8 pack_u32 unpack_u8 unpack_u32
pack_bi-IsHeader a b h e =
    let ha : a < 2 ^ 8 = ground arith in
    let hb : b < 2 ^ 32 = ground arith in
    let layout : a ∷ be32 b ≡ h = ground arith in
    rw (sym layout) (record {
      size = refl;
      unpacks = ground arith;
      bytes = (ha, (omega arith, (omega arith, (omega arith, (omega arith, tt)))));
    })
