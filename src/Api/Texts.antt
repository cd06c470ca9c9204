-- ===== src/Api/Texts.antt =====
-- The methods of Python's str that the code calls, on lists of code points.
pub mod Pieces
use kmsqr.Base.{
  Bool, Bytes, List, [], any_row, bytes_eq, false, if◌then◌else◌, leb, ltb, map, sort_by, true,
  utf8, ℕ, ◌&&◌, ◌++◌, ◌+◌, ◌==◌, ◌||◌, ◌∷◌,
}

abbrev pub Text : Type 0
Text = List ℕ

-- `str.isspace` of one character
is_space : ℕ → Bool
is_space c =
    (leb 9 c && leb c 13)
    || (leb 28 c && leb c 32)
    || (c == 133 || c == 160 || c == 5760)
    || (leb 8192 c && leb c 8202)
    || (c == 8232 || c == 8233 || c == 8239 || c == 8287 || c == 12288)

unfoldable pub lstrip : Text → Text
unfolding is_space
lstrip [] = []
lstrip (c ∷ cs) = let rest = lstrip cs in if is_space c then rest else c ∷ cs

abbrev pub reverse_onto : Text → Text → Text
reverse_onto [] out = out
reverse_onto (c ∷ cs) out = reverse_onto cs (c ∷ out)

unfoldable pub strip : Text → Text
strip t = reverse_onto (lstrip (reverse_onto (lstrip t) [])) []

-- `s.split(c)`: the pieces, the first of which has been begun in reverse
unfoldable pub split_from : ℕ → Text → Text → List Text
split_from c piece [] = reverse_onto piece [] ∷ []
split_from c piece (x ∷ xs) =
    let cut = split_from c [] xs in
    let longer = split_from c (x ∷ piece) xs in
    if x == c then reverse_onto piece [] ∷ cut else longer

unfoldable pub split : ℕ → Text → List Text
unfolding split_from
split c t = split_from c [] t

-- `sep.join(items)` for a separator of one character
abbrev pub join : ℕ → List Text → Text
join c [] = []
join c (t ∷ []) = t
join c (t ∷ u ∷ us) = t ++ c ∷ join c (u ∷ us)

-- `o in items`
abbrev pub has : Text → List Text → Bool
has o items = any_row (λ x. bytes_eq x o) items

-- `if o.strip()`, `if o`
abbrev pub is_empty : Text → Bool
is_empty [] = true
is_empty (c ∷ cs) = false

abbrev pub starts_with : Text → Text → Bool
starts_with [] t = true
starts_with (c ∷ cs) [] = false
starts_with (c ∷ cs) (x ∷ xs) = c == x && starts_with cs xs

-- the ASCII part of str.lower
abbrev pub lower : Text → Text
lower t = map (λ c. if leb b'A' c && leb c b'Z' then c + 32 else c) t

-- `t.encode()`
unfoldable pub encode_text : Text → Bytes
encode_text [] = []
encode_text (c ∷ cs) = utf8 c ++ encode_text cs

-- the order of texts by code points, and `sorted`
abbrev pub text_leb : Text → Text → Bool
text_leb [] t = true
text_leb (c ∷ cs) [] = false
text_leb (c ∷ cs) (x ∷ xs) = ltb c x || (c == x && text_leb cs xs)

unfoldable pub sorted : List Text → List Text
sorted ts = sort_by text_leb ts
