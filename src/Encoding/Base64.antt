-- ===== src/Encoding/Base64.antt =====
-- `base64.b64encode` and `base64.b64decode`. A decoder reads characters one at a time, as
-- binascii does: characters outside the alphabet are skipped unless `validate` is set.
pub mod RoundTrip
pub mod Urlsafe
use kmsqr.Base.{
  Bool, Bytes, List, Option, Result, [], err, false, if◌then◌else◌, leb, ltb, none, not, ok, some,
  suc, true, value_error, zero, ℕ, ◌%◌, ◌&&◌, ◌*◌, ◌++◌, ◌+◌, ◌-◌, ◌/◌, ◌==◌, ◌∷◌,
}

-- the character of a 6-bit value
unfoldable pub b64_char : ℕ → ℕ
b64_char v =
    if ltb v 26
    then b'A' + v
    else if ltb v 52
    then b'a' + (v - 26)
    else if ltb v 62
    then b'0' + (v - 52)
    else if v == 62
    then b'+'
    else b'/'

-- the 6-bit value of a character
b64_value : ℕ → Option ℕ
b64_value c =
    if leb b'A' c && leb c b'Z'
    then some (c - b'A')
    else if leb b'a' c && leb c b'z'
    then some (c - b'a' + 26)
    else if leb b'0' c && leb c b'9'
    then some (c - b'0' + 52)
    else if c == b'+'
    then some 62
    else if c == b'/'
    then some 63
    else none

abbrev pub pad : ℕ
pad = b'='

unfoldable pub b64encode : Bytes → List ℕ
unfolding b64_char
b64encode [] = []
b64encode (a ∷ []) = b64_char (a / 4) ∷ b64_char (a % 4 * 16) ∷ pad ∷ pad ∷ []
b64encode (a ∷ b ∷ []) =
    b64_char (a / 4) ∷ b64_char (a % 4 * 16 + b / 16) ∷ b64_char (b % 16 * 4) ∷ pad ∷ []
b64encode (a ∷ b ∷ c ∷ rest) =
    b64_char (a / 4)
    ∷ b64_char (a % 4 * 16 + b / 16)
    ∷ b64_char (b % 16 * 4 + c / 64)
    ∷ b64_char (c % 64)
    ∷ b64encode rest

-- The decoder's state: characters of the group read, bits kept over, pads seen in a row, and
-- whether any pad was seen.
pub record Quad : Type 0 where
  pos : ℕ
  left : ℕ
  pads : ℕ
  padded : Bool

abbrev start : Quad
start = record { pos = 0; left = 0; pads = 0; padded = false }

abbrev group : ℕ → ℕ → Quad
group pos left = record { pos = pos; left = left; pads = 0; padded = false }

-- what a character of value `v` completes, and the state after it
emit : ℕ → ℕ → ℕ → Bytes × Quad
emit zero left v = ([], group 1 v)
emit (suc zero) left v = ((left * 4 + v / 16) ∷ [], group 2 (v % 16))
emit (suc (suc zero)) left v = ((left * 16 + v / 4) ∷ [], group 3 (v % 4))
emit (suc (suc (suc _))) left v = ((left * 64 + v) ∷ [], group 0 0)

unfoldable pub is_empty : List ℕ → Bool
is_empty [] = true
is_empty (x ∷ xs) = false

is_ascii : List ℕ → Bool
is_ascii [] = true
is_ascii (c ∷ cs) = ltb c 128 && is_ascii cs

-- one character: the decoder ends, or goes on with a state and an output
pub data Move : Type 0 where
  stop : Result Bytes → Move
  next : Quad → Bytes → Move

module _ (validate : Bool) where
  read_pad : Quad → Bytes → List ℕ → Move
  read_pad q out cs =
      if leb 2 q.pos && leb 4 (q.pos + q.pads + 1)
      then stop (if validate && not (is_empty cs) then err value_error else ok out)
      else if validate && q.pos == 0
      then stop (err value_error)
      else next (record q { pads = if leb 2 q.pos then q.pads + 1 else q.pads; padded = true }) out

  read_value : Quad → Bytes → Option ℕ → Move
  unfolding emit
  read_value q out none = if validate then stop (err value_error) else next q out
  read_value q out (some v) =
      let (bs, q') = emit q.pos q.left v in
      if validate && q.padded
      then stop (err value_error)
      else next (record q' { padded = q.padded }) (out ++ bs)

  read_char : Quad → Bytes → ℕ → List ℕ → Move
  unfolding read_pad read_value
  read_char q out c cs = if c == pad then read_pad q out cs else read_value q out (b64_value c)

  a2b : Quad → Bytes → List ℕ → Result Bytes
  a2b q out [] = if q.pos == 0 then ok out else err value_error
  a2b q out (c ∷ cs) = elim (read_char q out c cs) [ stop r ↦ r | next q' out' ↦ a2b q' out' cs ]

-- base64.b64decode(s, validate=...): a text that is not ASCII is refused first
unfoldable pub b64decode : Bool → List ℕ → Result Bytes
unfolding a2b is_ascii read_char read_pad read_value emit is_empty b64_value
b64decode validate s = if is_ascii s then a2b validate start [] s else err value_error
