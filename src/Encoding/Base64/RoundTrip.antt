-- ===== src/Encoding/Base64/RoundTrip.antt =====
-- Decoding undoes encoding, whether or not the decoder validates.
use kmsqr.Base.{
  Bool, Bytes, IsBytes, List, [], append-nil, append_assoc, arith, false, ok, refl, some, true, ℕ,
  ◌%◌, ◌*◌, ◌++◌, ◌+◌, ◌/◌, ◌<◌, ◌==◌, ◌∷◌, ◌≡◌,
}
use kmsqr.Encoding.Base64.{
  a2b, b64_char, b64_value, b64decode, b64encode, group, is_ascii, is_empty, pad, read_char,
  read_pad, read_value, start,
}

b64_value-b64_char : (v : ℕ) → v < 64 → b64_value (b64_char v) ≡ some v
unfolding b64_value b64_char
b64_value-b64_char v h = ground arith

b64_char-pad : (v : ℕ) → v < 64 → (b64_char v == pad) ≡ false
unfolding b64_char
b64_char-pad v h = ground arith

b64_char-lt : (v : ℕ) → v < 64 → b64_char v < 128
unfolding b64_char
b64_char-lt v h = ground arith

module _ (validate : Bool) (left : ℕ) (v : ℕ) (out : Bytes) (cs : List ℕ) (h : v < 64) where
  a2b_zero :
      a2b validate (group 0 left) out (b64_char v ∷ cs) ≡ a2b validate (group 1 v) (out ++ []) cs
  unfolding a2b read_char read_value
  a2b_zero = ground (arith, b64_char-pad v h, b64_value-b64_char v h)

  a2b_one :
      a2b validate (group 1 left) out (b64_char v ∷ cs)
      ≡ a2b validate (group 2 (v % 16)) (out ++ (left * 4 + v / 16) ∷ []) cs
  unfolding a2b read_char read_value
  a2b_one = ground (arith, b64_char-pad v h, b64_value-b64_char v h)

  a2b_two :
      a2b validate (group 2 left) out (b64_char v ∷ cs)
      ≡ a2b validate (group 3 (v % 4)) (out ++ (left * 16 + v / 4) ∷ []) cs
  unfolding a2b read_char read_value
  a2b_two = ground (arith, b64_char-pad v h, b64_value-b64_char v h)

  a2b_three :
      a2b validate (group 3 left) out (b64_char v ∷ cs)
      ≡ a2b validate start (out ++ (left * 64 + v) ∷ []) cs
  unfolding a2b read_char read_value
  a2b_three = ground (arith, b64_char-pad v h, b64_value-b64_char v h)

a2b-group :
    (validate : Bool) (left a b c d : ℕ) (out : Bytes) (cs : List ℕ)
    → (a < 64) × (b < 64) × (c < 64) × (d < 64)
    → a2b validate (group 0 left) out (b64_char a ∷ b64_char b ∷ b64_char c ∷ b64_char d ∷ cs)
      ≡ a2b validate start
          (out ++ (a * 4 + b / 16) ∷ (b % 16 * 16 + c / 4) ∷ (c % 4 * 64 + d) ∷ [])
          cs
a2b-group validate left a b c d out cs h = simp (
  a2b_zero validate left a out _ h.0,
  a2b_one validate a b _ _ h.1,
  a2b_two validate (b % 16) c _ _ h.2,
  a2b_three validate (c % 4) d _ cs h.3,
  append_assoc,
  append-nil,
)

pads_two :
    (validate : Bool) (left : ℕ) (out : Bytes)
    → a2b validate (group 2 left) out (pad ∷ pad ∷ []) ≡ ok out
unfolding a2b read_char read_pad is_empty
pads_two true left out = refl
pads_two false left out = refl

pads_one :
    (validate : Bool) (left : ℕ) (out : Bytes) → a2b validate (group 3 left) out (pad ∷ []) ≡ ok out
unfolding a2b read_char read_pad is_empty
pads_one true left out = refl
pads_one false left out = refl

-- the three bytes that a group of four characters gives back
regroup :
    (a b c : ℕ)
    → (a < 256) × (b < 256) × (c < 256)
    → (a / 4 * 4 + (a % 4 * 16 + b / 16) / 16 ≡ a)
      × ((a % 4 * 16 + b / 16) % 16 * 16 + (b % 16 * 4 + c / 64) / 4 ≡ b)
      × ((b % 16 * 4 + c / 64) % 4 * 64 + c % 64 ≡ c)
regroup a b c h = omega arith

regroup_two :
    (a b : ℕ)
    → (a < 256) × (b < 256)
    → (a / 4 * 4 + (a % 4 * 16 + b / 16) / 16 ≡ a)
      × ((a % 4 * 16 + b / 16) % 16 * 16 + b % 16 * 4 / 4 ≡ b)
regroup_two a b h = omega arith

regroup_one : (a : ℕ) → a < 256 → a / 4 * 4 + a % 4 * 16 / 16 ≡ a
regroup_one a h = omega arith

a2b-b64encode :
    (validate : Bool) (out bs : Bytes)
    → IsBytes bs
    → a2b validate start out (b64encode bs) ≡ ok (out ++ bs)
unfolding b64encode
a2b-b64encode validate out [] h = unfold a2b in rw append-nil
a2b-b64encode validate out (a ∷ []) h = simp (
  a2b_zero validate 0 (a / 4) out _ (omega arith),
  a2b_one validate (a / 4) (a % 4 * 16) _ _ (omega arith),
  pads_two,
  regroup_one a h.0,
  append-nil,
)
a2b-b64encode validate out (a ∷ b ∷ []) h = simp (
  a2b_zero validate 0 (a / 4) out _ (omega arith),
  a2b_one validate (a / 4) (a % 4 * 16 + b / 16) _ _ (omega arith),
  a2b_two validate ((a % 4 * 16 + b / 16) % 16) (b % 16 * 4) _ _ (omega arith),
  pads_one,
  (regroup_two a b (omega arith)).0,
  (regroup_two a b (omega arith)).1,
  append-nil,
  append_assoc,
)
a2b-b64encode validate out (a ∷ b ∷ c ∷ rest) h =
    simp
      (
        a2b-group validate 0 (a / 4) (a % 4 * 16 + b / 16) (b % 16 * 4 + c / 64) (c % 64) out
            (b64encode rest) (omega arith),
        (regroup a b c (omega arith)).0,
        (regroup a b c (omega arith)).1,
        (regroup a b c (omega arith)).2,
      )
      (simp (a2b-b64encode validate (out ++ a ∷ b ∷ c ∷ []) rest h.1.1.1, append_assoc))

b64encode-is_ascii : (bs : Bytes) → IsBytes bs → is_ascii (b64encode bs) ≡ true
unfolding b64encode is_ascii
b64encode-is_ascii [] h = refl
b64encode-is_ascii (a ∷ []) h =
    ground (arith, b64_char-lt (a / 4) (omega arith), b64_char-lt (a % 4 * 16) (omega arith))
b64encode-is_ascii (a ∷ b ∷ []) h = ground (
  arith,
  b64_char-lt (a / 4) (omega arith),
  b64_char-lt (a % 4 * 16 + b / 16) (omega arith),
  b64_char-lt (b % 16 * 4) (omega arith),
)
b64encode-is_ascii (a ∷ b ∷ c ∷ rest) h = ground (
  arith,
  b64_char-lt (a / 4) (omega arith),
  b64_char-lt (a % 4 * 16 + b / 16) (omega arith),
  b64_char-lt (b % 16 * 4 + c / 64) (omega arith),
  b64_char-lt (c % 64) (omega arith),
  b64encode-is_ascii rest,
)

-- Decoding the encoding of a byte string, with or without validation, gives the byte string.
pub b64decode-b64encode :
    (validate : Bool) (bs : Bytes) → IsBytes bs → b64decode validate (b64encode bs) ≡ ok bs
unfolding b64decode
b64decode-b64encode validate bs h = rw (b64encode-is_ascii bs h) (a2b-b64encode validate [] bs h)
