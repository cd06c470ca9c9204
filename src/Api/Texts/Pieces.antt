-- ===== src/Api/Texts/Pieces.antt =====
-- Splitting a text that was joined, and sorted texts.
use kmsqr.Base.{
  subst, All, Bool, Bool-cases, List, [], any_row, bytes_eq, eq_of_bytes_eq, false, inl, inr, arith,
  not, place, refl, true, ℕ, ◌++◌, ◌∙◌, ◌∷◌, ◌≡◌, ap,
}
use kmsqr.Encoding.Base64.Urlsafe.{HasNo}
use kmsqr.Api.Texts.{Text, has, join, reverse_onto, sorted, split, split_from, text_leb}

split_from-end :
    (c : ℕ) (piece xs : Text) → HasNo c xs → split_from c piece xs ≡ reverse_onto piece xs ∷ []
unfolding split_from
split_from-end c piece [] h = refl
split_from-end c piece (x ∷ xs) h = let rest = split_from-end c (x ∷ piece) xs h.1 in rw h.0 rest

split_from-cut :
    (c : ℕ) (piece xs rest : Text)
    → HasNo c xs
    → split_from c piece (xs ++ c ∷ rest) ≡ reverse_onto piece xs ∷ split_from c [] rest
unfolding split_from
split_from-cut c piece [] rest h = ground arith
split_from-cut c piece (x ∷ xs) rest h =
    let more = split_from-cut c (x ∷ piece) xs rest h.1 in rw h.0 more

-- what Python splits: the empty text has one empty piece
abbrev pub or_blank : List Text → List Text
or_blank [] = [] ∷ []
or_blank (t ∷ ts) = t ∷ ts

pub split-join : (c : ℕ) (ts : List Text) → All (HasNo c) ts → split c (join c ts) ≡ or_blank ts
unfolding split split_from
split-join c [] h = refl
split-join c (t ∷ []) h = split_from-end c [] t h.0
split-join c (t ∷ u ∷ us) h =
    let rest = split-join c (u ∷ us) h.1 in
    split_from-cut c [] t (join c (u ∷ us)) h.0 ∙ ap (λ ps. t ∷ ps) rest

module _ (P : Text → Type 0) where
  All-place :
      (before : Text → Text → Bool) (x : Text) (ys : List Text)
      → P x
      → All P ys
      → All P (place before x ys)
  All-place before x [] h a = (h, tt)
  All-place before x (y ∷ ys) h a =
      let rest = All-place before x ys h a.1 in
      elim (Bool-cases (before x y)) [
        | inl first ↦ rw first (h, a)
        | inr later ↦ rw later (a.0, rest)
      ]

  pub All-sorted : (ts : List Text) → All P ts → All P (sorted ts)
  unfolding sorted
  All-sorted [] a = tt
  All-sorted (t ∷ ts) a = All-place text_leb t (sorted ts) a.0 (All-sorted ts a.1)

  -- a text of a list has what all of the list have
  has-All : (x : Text) (names : List Text) → All P names → has x names ≡ true → P x
  has-All x [] a h = absurd (ground arith)
  has-All x (n ∷ names) a h = elim (Bool-cases (bytes_eq n x)) [
    | inl same ↦ subst P (eq_of_bytes_eq n x same) a.0
    | inr other ↦ has-All x names a.1 (rw other at h)
  ]

  -- texts none of which is outside the list
  pub All-known :
      (xs names : List Text) → All P names → any_row (λ s. not (has s names)) xs ≡ false → All P xs
  All-known [] names a h = tt
  All-known (x ∷ xs) names a h = elim (Bool-cases (has x names)) [
    | inl known ↦ (has-All x names a known, All-known xs names a (rw known at h))
    | inr unknown ↦ absurd (outside (rw unknown at h))
  ]
    where
      outside : true ≡ false → ⊥
      outside e = ground arith
