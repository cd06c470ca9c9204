-- ===== src/Encoding/Base64/Urlsafe.antt =====
-- The URL-safe alphabet of Python's base64, without the padding: _b64u and _b64u_decode of
-- pqkms/app/api/sessions.py.
use kmsqr.Base.{
  Bool-cases, inl, inr, All, Bytes, IsBytes, List, Result, [], ap, arith, false, if◌then◌else◌,
  length, map, ok, refl, replicate, ℕ, ◌%◌, ◌&&◌, ◌*◌, ◌++◌, ◌+◌, ◌-◌, ◌/◌, ◌<◌, ◌==◌, ◌∙◌, ◌∷◌,
  ◌≡◌,
}
use kmsqr.Encoding.Base64.{b64_char, b64decode, b64encode, is_empty, pad}
use kmsqr.Encoding.Base64.RoundTrip.{b64decode-b64encode}

to_url : ℕ → ℕ
to_url c = if c == b'+' then b'-' else if c == b'/' then b'_' else c

from_url : ℕ → ℕ
from_url c = if c == b'-' then b'+' else if c == b'_' then b'/' else c

-- `.rstrip(b"=")`
rstrip_pad : List ℕ → List ℕ
rstrip_pad [] = []
rstrip_pad (c ∷ cs) = let rest = rstrip_pad cs in if is_empty rest && c == pad then [] else c ∷ rest

-- `"=" * (-len(s) % 4)`
abbrev padding : List ℕ → List ℕ
padding s = replicate ((4 - length s % 4) % 4) pad

unfoldable pub b64u : Bytes → List ℕ
unfolding rstrip_pad to_url is_empty
b64u b = rstrip_pad (map to_url (b64encode b))

unfoldable pub b64u_decode : List ℕ → Result Bytes
unfolding from_url
b64u_decode s = b64decode false (map from_url (s ++ padding s))

from_url-to_url : (v : ℕ) → v < 64 → from_url (to_url (b64_char v)) ≡ b64_char v
unfolding b64_char from_url to_url
from_url-to_url v h = ground arith

to_url-pad : (v : ℕ) → v < 64 → (to_url (b64_char v) == pad) ≡ false
unfolding b64_char to_url
to_url-pad v h = ground arith

to_url-dot : (v : ℕ) → v < 64 → (to_url (b64_char v) == b'.') ≡ false
unfolding b64_char to_url
to_url-dot v h = ground arith

rstrip_pad-kept :
    (c : ℕ) (cs : List ℕ) → (c == pad) ≡ false → rstrip_pad (c ∷ cs) ≡ c ∷ rstrip_pad cs
unfolding rstrip_pad is_empty
rstrip_pad-kept c cs h = ground arith

-- the text that is decoded
abbrev padded : List ℕ → List ℕ
padded s = map from_url (s ++ padding s)

padded-group :
    (x y z w : ℕ) (s : List ℕ)
    → padded (x ∷ y ∷ z ∷ w ∷ s) ≡ from_url x ∷ from_url y ∷ from_url z ∷ from_url w ∷ padded s
padded-group x y z w s =
    ap
      (λ n. from_url x ∷ from_url y ∷ from_url z ∷ from_url w ∷ map from_url (s ++ replicate n pad))
      (omega arith)

-- the URL-safe characters of values, stripped and restored
module _ (v : ℕ) (h : v < 64) where
  stripped :
      (cs : List ℕ) → rstrip_pad (to_url (b64_char v) ∷ cs) ≡ to_url (b64_char v) ∷ rstrip_pad cs
  stripped cs = rstrip_pad-kept (to_url (b64_char v)) cs (to_url-pad v h)

-- four characters that stand for bytes are stripped and restored alone
restored :
    (x y z w : ℕ)
    → (x < 64) × (y < 64) × (z < 64) × (w < 64)
    → (cs : List ℕ)
    → padded (
        rstrip_pad (
          to_url (b64_char x)
          ∷ to_url (b64_char y)
          ∷ to_url (b64_char z)
          ∷ to_url (b64_char w)
          ∷ cs))
      ≡ b64_char x ∷ b64_char y ∷ b64_char z ∷ b64_char w ∷ padded (rstrip_pad cs)
restored x y z w h cs =
    let kept : rstrip_pad (
          to_url (b64_char x)
          ∷ to_url (b64_char y)
          ∷ to_url (b64_char z)
          ∷ to_url (b64_char w)
          ∷ cs)
        ≡ to_url (b64_char x)
          ∷ to_url (b64_char y)
          ∷ to_url (b64_char z)
          ∷ to_url (b64_char w)
          ∷ rstrip_pad cs =
      rw (stripped x h.0 _, stripped y h.1 _, stripped z h.2 _, stripped w h.3 cs) refl in
    ap padded kept
    ∙ (padded-group (to_url (b64_char x)) (to_url (b64_char y)) (to_url (b64_char z))
          (to_url (b64_char w)) (rstrip_pad cs)
        ∙ same)
  where
    same :
        from_url (to_url (b64_char x))
          ∷ from_url (to_url (b64_char y))
          ∷ from_url (to_url (b64_char z))
          ∷ from_url (to_url (b64_char w))
          ∷ padded (rstrip_pad cs)
        ≡ b64_char x ∷ b64_char y ∷ b64_char z ∷ b64_char w ∷ padded (rstrip_pad cs)
    same =
        rw
          (
            from_url-to_url x h.0,
            from_url-to_url y h.1,
            from_url-to_url z h.2,
            from_url-to_url w h.3,
          )
          refl

padded-b64u : (b : Bytes) → IsBytes b → padded (b64u b) ≡ b64encode b
unfolding b64u b64encode rstrip_pad is_empty to_url from_url
padded-b64u [] h = refl
padded-b64u (a ∷ []) h = simp (
  stripped (a / 4) (omega arith),
  stripped (a % 4 * 16) (omega arith),
  from_url-to_url (a / 4) (omega arith),
  from_url-to_url (a % 4 * 16) (omega arith),
)
padded-b64u (a ∷ b ∷ []) h = simp (
  stripped (a / 4) (omega arith),
  stripped (a % 4 * 16 + b / 16) (omega arith),
  stripped (b % 16 * 4) (omega arith),
  from_url-to_url (a / 4) (omega arith),
  from_url-to_url (a % 4 * 16 + b / 16) (omega arith),
  from_url-to_url (b % 16 * 4) (omega arith),
)
padded-b64u (a ∷ b ∷ c ∷ rest) h =
    restored (a / 4) (a % 4 * 16 + b / 16) (b % 16 * 4 + c / 64) (c % 64) (omega arith)
      (map to_url (b64encode rest))
    ∙ ap
        (λ t.
          b64_char (a / 4)
          ∷ b64_char (a % 4 * 16 + b / 16)
          ∷ b64_char (b % 16 * 4 + c / 64)
          ∷ b64_char (c % 64)
          ∷ t)
        (padded-b64u rest h.1.1.1)

-- no character of a text is `c`
abbrev pub HasNo : ℕ → List ℕ → Type 0
HasNo c cs = All (λ x. (x == c) ≡ false) cs

HasNo-rstrip_pad : (c : ℕ) (cs : List ℕ) → HasNo c cs → HasNo c (rstrip_pad cs)
unfolding rstrip_pad
HasNo-rstrip_pad c [] h = tt
HasNo-rstrip_pad c (x ∷ xs) h =
    let rest = HasNo-rstrip_pad c xs h.1 in
    elim (Bool-cases (is_empty (rstrip_pad xs) && x == pad)) [
      | inl end ↦ rw end tt
      | inr more ↦ rw more (h.0, rest)
    ]

HasNo-encoded : (b : Bytes) → IsBytes b → HasNo b'.' (map to_url (b64encode b))
unfolding b64encode to_url
HasNo-encoded [] h = tt
HasNo-encoded (a ∷ []) h =
    (to_url-dot (a / 4) (omega arith), (to_url-dot (a % 4 * 16) (omega arith), (refl, (refl, tt))))
HasNo-encoded (a ∷ b ∷ []) h = (
  to_url-dot (a / 4) (omega arith),
  (
    to_url-dot (a % 4 * 16 + b / 16) (omega arith),
    (to_url-dot (b % 16 * 4) (omega arith), (refl, tt)),
  ),
)
HasNo-encoded (a ∷ b ∷ c ∷ rest) h = (
  to_url-dot (a / 4) (omega arith),
  (
    to_url-dot (a % 4 * 16 + b / 16) (omega arith),
    (
      to_url-dot (b % 16 * 4 + c / 64) (omega arith),
      (to_url-dot (c % 64) (omega arith), HasNo-encoded rest h.1.1.1),
    ),
  ),
)

pub b64u-HasNo : (b : Bytes) → IsBytes b → HasNo b'.' (b64u b)
unfolding b64u
b64u-HasNo b h = HasNo-rstrip_pad b'.' _ (HasNo-encoded b h)

-- Decoding the unpadded text gives the bytes.
pub b64u_decode-b64u : (b : Bytes) → IsBytes b → b64u_decode (b64u b) ≡ ok b
unfolding b64u_decode
b64u_decode-b64u b h = rw (padded-b64u b h) (b64decode-b64encode false b h)
