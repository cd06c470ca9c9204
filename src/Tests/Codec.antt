-- ===== src/Tests/Codec.antt =====
-- A JSON module that satisfies the law: a value is written with tags and lengths.
use kmsqr.Base.{
  ◌%◌, ◌*◌, ◌/◌, List, Bytes, Option, [], ap, append-nil, append_assoc, arith, drop,
  drop-length-append, false, length, length-append, none, refl, some, subst, suc, take,
  take-length-append, true, zero, ℕ, ◌++◌, ◌+◌, ◌<◌, ◌∙◌, ◌∷◌, ◌≡◌, ◌≤◌,
}
use kmsqr.Custody.Json.{
  Fields, Json, JsonLaws, JsonModule, boolean, dict, end, field, null, number, str, strs, unread,
}

unfoldable pub write_strs : List Bytes → Bytes
write_strs [] = 0 ∷ []
write_strs (t ∷ ts) = 1 ∷ length t ∷ (t ++ write_strs ts)

unfoldable mutual
  pub write : Json → Bytes
  write null = 0 ∷ []
  write (boolean true) = 1 ∷ []
  write (boolean false) = 2 ∷ []
  write (number n) = 3 ∷ n % 256 ∷ n / 256 ∷ []
  write (str s) = 4 ∷ length s ∷ s
  write unread = 5 ∷ []
  write (dict fs) = 6 ∷ write_fields fs
  write (strs ts) = 7 ∷ write_strs ts

  pub write_fields : Fields → Bytes
  write_fields end = 0 ∷ []
  write_fields (field k v fs) = 1 ∷ length k ∷ (k ++ (write v ++ write_fields fs))

-- the first `n` elements and the rest
abbrev cut : ℕ → Bytes → Bytes × Bytes
cut n raw = (take n raw, drop n raw)

-- the fuel bounds the length of what is read
unfoldable pub read_strs : ℕ → Bytes → Option (List Bytes × Bytes)
read_strs zero raw = none
read_strs (suc n) [] = none
read_strs (suc n) (zero ∷ raw) = some ([], raw)
read_strs (suc n) (_ ∷ []) = none
read_strs (suc n) (_ ∷ m ∷ raw) = elim (read_strs n (drop m raw)) [
  | none ↦ none
  | some r ↦ some (take m raw ∷ r.0, r.1)
]

unfoldable mutual
  pub read : ℕ → Bytes → Option (Json × Bytes)
  read zero raw = none
  read (suc n) [] = none
  read (suc n) (zero ∷ raw) = some (null, raw)
  read (suc n) ((suc zero) ∷ raw) = some (boolean true, raw)
  read (suc n) ((suc (suc zero)) ∷ raw) = some (boolean false, raw)
  read (suc n) ((suc (suc (suc zero))) ∷ []) = none
  read (suc n) ((suc (suc (suc zero))) ∷ m ∷ []) = none
  read (suc n) ((suc (suc (suc zero))) ∷ m ∷ k ∷ raw) = some (number (m + 256 * k), raw)
  read (suc n) ((suc (suc (suc (suc zero)))) ∷ []) = none
  read (suc n) ((suc (suc (suc (suc zero)))) ∷ m ∷ raw) = some (str (take m raw), drop m raw)
  read (suc n) ((suc (suc (suc (suc (suc zero))))) ∷ raw) = some (unread, raw)
  read (suc n) ((suc (suc (suc (suc (suc (suc (suc zero))))))) ∷ raw) = elim (read_strs n raw) [
    | none ↦ none
    | some q ↦ some (strs q.0, q.1)
  ]
  read (suc n) (_ ∷ raw) = elim (read_fields n raw) [ none ↦ none | some q ↦ some (dict q.0, q.1) ]

  pub read_fields : ℕ → Bytes → Option (Fields × Bytes)
  read_fields zero raw = none
  read_fields (suc n) [] = none
  read_fields (suc n) (zero ∷ raw) = some (end, raw)
  read_fields (suc n) (_ ∷ []) = none
  read_fields (suc n) (_ ∷ m ∷ raw) = elim (read n (drop m raw)) [
    | none ↦ none
    | some q ↦ elim (read_fields n q.1) [
      | none ↦ none
      | some r ↦ some (field (take m raw) q.0 r.0, r.1)
    ]
  ]

length-fields : (k v fs : Bytes) → length (k ++ (v ++ fs)) ≡ length k + length v + length fs
length-fields k v fs = omega (arith, length-append {0} k (v ++ fs), length-append {0} v fs)

digits : (n : ℕ) → n % 256 + 256 * (n / 256) ≡ n
digits n = omega arith

write-positive : (v : Json) → 0 < length (write v)
unfolding write
write-positive null = omega arith
write-positive (boolean true) = omega arith
write-positive (boolean false) = omega arith
write-positive (number n) = omega arith
write-positive (str s) = omega arith
write-positive unread = omega arith
write-positive (dict fs) = omega arith
write-positive (strs ts) = omega arith

write_fields-positive : (fs : Fields) → 0 < length (write_fields fs)
unfolding write_fields
write_fields-positive end = omega arith
write_fields-positive (field k v fs) = omega arith

write_strs-positive : (ts : List Bytes) → 0 < length (write_strs ts)
unfolding write_strs
write_strs-positive [] = omega arith
write_strs-positive (t ∷ ts) = omega arith

read_strs-write_strs :
    (n : ℕ) (ts : List Bytes) (rest : Bytes)
    → length (write_strs ts) ≤ n
    → read_strs n (write_strs ts ++ rest) ≡ some (ts, rest)
unfolding write_strs read_strs
read_strs-write_strs zero ts rest h = absurd (omega (arith, write_strs-positive ts))
read_strs-write_strs (suc n) [] rest h = refl
read_strs-write_strs (suc n) (t ∷ ts) rest h =
    let size = length-append {0} t (write_strs ts) in
    let flat : (t ++ write_strs ts) ++ rest ≡ t ++ (write_strs ts ++ rest) =
      append_assoc t (write_strs ts) rest in
    rw
      (
        flat,
        drop-length-append t (write_strs ts ++ rest),
        read_strs-write_strs n ts rest (omega (arith, size)),
        ap (take (length t)) flat ∙ take-length-append t (write_strs ts ++ rest),
      )
      refl

mutual
  unfolding write write_fields read read_fields write_strs read_strs

  read-write :
      (n : ℕ) (v : Json) (rest : Bytes)
      → length (write v) ≤ n
      → read n (write v ++ rest) ≡ some (v, rest)
  read-write zero v rest h = absurd (omega (arith, write-positive v))
  read-write (suc n) null rest h = refl
  read-write (suc n) (boolean true) rest h = refl
  read-write (suc n) (boolean false) rest h = refl
  read-write (suc n) (number m) rest h = rw (digits m) refl
  read-write (suc n) (str s) rest h = rw (take-length-append s rest, drop-length-append s rest) refl
  read-write (suc n) unread rest h = refl
  read-write (suc n) (strs ts) rest h = rw (read, read_strs-write_strs n ts rest (omega arith)) refl
  read-write (suc n) (dict fs) rest h = rw (read_fields-write_fields n fs rest (omega arith)) refl

  read_fields-write_fields :
      (n : ℕ) (fs : Fields) (rest : Bytes)
      → length (write_fields fs) ≤ n
      → read_fields n (write_fields fs ++ rest) ≡ some (fs, rest)
  read_fields-write_fields zero fs rest h = absurd (omega (arith, write_fields-positive fs))
  read_fields-write_fields (suc n) end rest h = refl
  read_fields-write_fields (suc n) (field k v fs) rest h =
      let size = length-fields k (write v) (write_fields fs) in
      let flat : (k ++ (write v ++ write_fields fs)) ++ rest
          ≡ k ++ (write v ++ (write_fields fs ++ rest)) =
        append_assoc k (write v ++ write_fields fs) rest
        ∙ ap (◌++◌ k) (append_assoc (write v) (write_fields fs) rest) in
      rw
        (
          flat,
          drop-length-append k (write v ++ (write_fields fs ++ rest)),
          read-write n v (write_fields fs ++ rest) (omega (arith, size)),
          read_fields-write_fields n fs rest (omega (arith, size, write-positive v)),
          ap (take (length k)) flat ∙ take-length-append k (write v ++ (write_fields fs ++ rest)),
        )
        refl

abbrev pub json : JsonModule
json = record {
  dumps = write;
  loads = λ raw. elim (read (length raw) raw) [ none ↦ none | some q ↦ some q.0 ];
}

whole : (v : Json) → read (length (write v)) (write v) ≡ some (v, [])
whole v =
    subst (λ raw. read (length (write v)) raw ≡ some (v, [])) (append-nil (write v))
      (read-write (length (write v)) v [] (omega arith))

pub json-JsonLaws : JsonLaws json
json-JsonLaws = record {
  loads-dumps = λ v _.
      ap (λ o. let r : Option Json = elim o [ none ↦ none | some q ↦ some q.0 ] in r) (whole v);
}
