-- ===== src/Base/Table.antt =====
-- Tables as lists of rows, in insertion order: the statements that the repository issues.
use mathlib.Core.Bool.{Bool, true, false, ◌||◌, ◌&&◌}
use mathlib.Core.List.{List, [], ◌∷◌, ◌++◌, map}
use mathlib.Core.Option.{Option, none, some}
use mathlib.Core.Logic.{◌⊎◌, inl, inr}
use mathlib.Core.Path.{◌≡◌, refl, subst, sym}
use native.Mathlib.Omega.{arith}
use Prim.Native.Nat.{ℕ}
use Prim.Native.String.{String}
use kmsqr.Base.Tests.{Bool-cases, if◌then◌else◌, ltb, str_leb, ◌==◌}
use kmsqr.Base.Lists.{All, drop, take}

module _ {ℓ} {A : Type ℓ} where
  -- the first row that matches
  abbrev pub find_row : (A → Bool) → List A → Option A
  find_row p [] = none
  find_row p (r ∷ rs) = if p r then some r else find_row p rs

  -- SELECT ... WHERE p
  abbrev pub select_rows : (A → Bool) → List A → List A
  select_rows p [] = []
  select_rows p (r ∷ rs) = let rest = select_rows p rs in if p r then r ∷ rest else rest

  -- UPDATE ... WHERE p
  abbrev pub update_rows : (A → Bool) → (A → A) → List A → List A
  update_rows p f [] = []
  update_rows p f (r ∷ rs) = (if p r then f r else r) ∷ update_rows p f rs

  -- DELETE ... WHERE p
  abbrev pub delete_rows : (A → Bool) → List A → List A
  delete_rows p [] = []
  delete_rows p (r ∷ rs) = let rest = delete_rows p rs in if p r then rest else r ∷ rest

  abbrev pub any_row : (A → Bool) → List A → Bool
  any_row p [] = false
  any_row p (r ∷ rs) = p r || any_row p rs

  -- INSERT
  abbrev pub insert_row : A → List A → List A
  insert_row r rs = rs ++ r ∷ []

  -- ORDER BY: a stable sort, `before x y` when x may stand before y
  abbrev pub place : (A → A → Bool) → A → List A → List A
  place before x [] = x ∷ []
  place before x (y ∷ ys) =
      let rest = place before x ys in if before x y then x ∷ y ∷ ys else y ∷ rest

  abbrev pub sort_by : (A → A → Bool) → List A → List A
  sort_by before [] = []
  sort_by before (x ∷ xs) = place before x (sort_by before xs)

  -- LIMIT and OFFSET
  abbrev pub page : ℕ → ℕ → List A → List A
  page limit offset rs = take limit (drop offset rs)

  -- ORDER BY created_at DESC, id ASC
  abbrev pub newest_first : (A → ℕ) → (A → String) → A → A → Bool
  newest_first created_at id x y =
      ltb (created_at y) (created_at x) || (created_at x == created_at y && str_leb (id x) (id y))

  pub find_row-insert_hit :
      (p : A → Bool) (r : A) (rs : List A)
      → any_row p rs ≡ false
      → p r ≡ true
      → find_row p (insert_row r rs) ≡ some r
  find_row-insert_hit p r [] e h = ground arith
  find_row-insert_hit p r (x ∷ rs) e h = ground (arith, find_row-insert_hit p r rs)

  pub find_row-insert_miss :
      (p : A → Bool) (r : A) (rs : List A)
      → p r ≡ false
      → find_row p (insert_row r rs) ≡ find_row p rs
  find_row-insert_miss p r [] h = ground arith
  find_row-insert_miss p r (x ∷ rs) h = ground (arith, find_row-insert_miss p r rs)

  pub any_row_of_find :
      (p : A → Bool) (rs : List A) (r : A) → find_row p rs ≡ some r → any_row p rs ≡ true
  any_row_of_find p [] r e = ground arith
  any_row_of_find p (x ∷ rs) r e = ground (arith, any_row_of_find p rs r)

  pub any_row_mono :
      (p q : A → Bool) (rs : List A)
      → ((r : A) → p r ≡ true → q r ≡ true)
      → any_row p rs ≡ true
      → any_row q rs ≡ true
  any_row_mono p q [] h e = e
  any_row_mono p q (x ∷ rs) h e = ground (arith, h x, any_row_mono p q rs h)

  -- a row that matches is found
  pub find_of_any :
      (p : A → Bool) (rs : List A) → any_row p rs ≡ true → (r : A) × (find_row p rs ≡ some r)
  find_of_any p [] e = absurd (ground arith)
  find_of_any p (x ∷ rs) e = elim (Bool-cases (p x)) [
    | inl hit ↦ (x, ground arith)
    | inr miss ↦ let (r, found) = find_of_any p rs (ground arith) in (r, ground arith)
  ]

  pub find_none_of_any : (p : A → Bool) (rs : List A) → any_row p rs ≡ false → find_row p rs ≡ none
  find_none_of_any p [] e = refl
  find_none_of_any p (x ∷ rs) e = ground (arith, find_none_of_any p rs)

  -- a row that is found matches
  pub find_row_sound : (p : A → Bool) (rs : List A) (r : A) → find_row p rs ≡ some r → p r ≡ true
  find_row_sound p [] r e = ground arith
  find_row_sound p (x ∷ rs) r e = ground (arith, find_row_sound p rs r)

module _ {ℓ} {A : Type ℓ} where
  -- what an update makes of a row
  abbrev pub updated : (A → Bool) → (A → A) → A → A
  updated q f r = if q r then f r else r

  pub find_row-update :
      (p q : A → Bool) (f : A → A) (rs : List A)
      → ((r : A) → p (updated q f r) ≡ p r)
      → find_row p (update_rows q f rs)
        ≡ (elim (find_row p rs) [ none ↦ none | some r ↦ some (updated q f r) ])
  find_row-update p q f [] h = refl
  find_row-update p q f (r ∷ rs) h = ground (arith, h r, find_row-update p q f rs h)

  -- an update of other rows
  pub find_row-update_other :
      (p q : A → Bool) (f : A → A) (rs : List A)
      → ((r : A) → q r ≡ true → p r ≡ false)
      → ((r : A) → q r ≡ true → p (f r) ≡ false)
      → find_row p (update_rows q f rs) ≡ find_row p rs
  find_row-update_other p q f [] h h' = refl
  find_row-update_other p q f (r ∷ rs) h h' =
      ground (arith, h r, h' r, find_row-update_other p q f rs h h')

  pub any_row-update :
      (p q : A → Bool) (f : A → A) (rs : List A)
      → ((r : A) → p (updated q f r) ≡ p r)
      → any_row p (update_rows q f rs) ≡ any_row p rs
  any_row-update p q f [] h = refl
  any_row-update p q f (r ∷ rs) h = ground (arith, h r, any_row-update p q f rs h)

  pub find_row-delete_miss :
      (p q : A → Bool) (rs : List A)
      → ((r : A) → p r ≡ true → q r ≡ false)
      → find_row p (delete_rows q rs) ≡ find_row p rs
  find_row-delete_miss p q [] h = refl
  find_row-delete_miss p q (r ∷ rs) h = ground (arith, h r, find_row-delete_miss p q rs h)

  pub find_row-delete_hit :
      (p q : A → Bool) (rs : List A)
      → ((r : A) → p r ≡ true → q r ≡ true)
      → find_row p (delete_rows q rs) ≡ none
  find_row-delete_hit p q [] h = refl
  find_row-delete_hit p q (r ∷ rs) h = ground (arith, h r, find_row-delete_hit p q rs h)

  pub find_row-insert_found :
      (p : A → Bool) (r x : A) (rs : List A)
      → find_row p rs ≡ some x
      → find_row p (insert_row r rs) ≡ some x
  find_row-insert_found p r x [] h = ground arith
  find_row-insert_found p r x (y ∷ rs) h = ground (arith, find_row-insert_found p r x rs)

module _ {ℓ κ} {A : Type ℓ} (P : A → Type κ) where
  pub All-update :
      (q : A → Bool) (f : A → A) (rs : List A)
      → ((r : A) → q r ≡ true → P r → P (f r))
      → All P rs
      → All P (update_rows q f rs)
  All-update q f [] h a = tt
  All-update q f (r ∷ rs) h a = (one (q r) refl, All-update q f rs h a.1)
    where
      one : (b : Bool) → q r ≡ b → P (if b then f r else r)
      one true e = h r e a.0
      one false e = a.0

  pub All-delete : (q : A → Bool) (rs : List A) → All P rs → All P (delete_rows q rs)
  All-delete q [] a = tt
  All-delete q (r ∷ rs) a = one (q r) (All-delete q rs a.1)
    where
      one :
          (b : Bool)
          → All P (delete_rows q rs)
          → All P (if b then delete_rows q rs else r ∷ delete_rows q rs)
      one true rest = rest
      one false rest = (a.0, rest)

  pub All-find : (q : A → Bool) (rs : List A) (r : A) → All P rs → find_row q rs ≡ some r → P r
  All-find q [] r a e = ground arith
  All-find q (x ∷ rs) r a e = elim (Bool-cases (q x)) [
    | inl hit ↦ subst P (same (rw hit at e)) a.0
    | inr miss ↦ All-find q rs r a.1 (rw miss at e)
  ]
    where
      same : some x ≡ some r → x ≡ r
      same h = cc

module _ {A : Type 0} where
  -- membership by the position of an equal element
  abbrev pub IsIn : A → List A → Type 0
  IsIn x [] = ⊥
  IsIn x (y ∷ ys) = (x ≡ y) ⊎ IsIn x ys

  pub IsIn-select :
      (p : A → Bool) (x : A) (xs : List A) → IsIn x (select_rows p xs) → IsIn x xs × (p x ≡ true)
  IsIn-select p x [] h = absurd h
  IsIn-select p x (y ∷ ys) h = elim (Bool-cases (p y)) [
    | inl e ↦ first e (rw e at h) (IsIn-select p x ys)
    | inr e ↦ (let q = IsIn-select p x ys (rw e at h) in (inr q.0, q.1))
  ]
    where
      first :
          p y ≡ true
          → (x ≡ y) ⊎ IsIn x (select_rows p ys)
          → (IsIn x (select_rows p ys) → IsIn x ys × (p x ≡ true))
          → ((x ≡ y) ⊎ IsIn x ys) × (p x ≡ true)
      first e (inl s) rest = (inl s, rw s e)
      first e (inr i) rest = (let q = rest i in (inr q.0, q.1))

  -- a row that is found is in the table
  pub find_row-IsIn : (p : A → Bool) (x : A) (xs : List A) → find_row p xs ≡ some x → IsIn x xs
  find_row-IsIn p x [] e = ground arith
  find_row-IsIn p x (y ∷ ys) e = elim (Bool-cases (p y)) [
    | inl hit ↦ inl (sym (unwrap (rw hit at e)))
    | inr miss ↦ inr (find_row-IsIn p x ys (rw miss at e))
  ]
    where
      unwrap : some y ≡ some x → y ≡ x
      unwrap h = cc

module _ {A B : Type 0} where
  pub IsIn-map :
      (f : A → B) (y : B) (xs : List A) → IsIn y (map f xs) → (x : A) × IsIn x xs × (y ≡ f x)
  IsIn-map f y [] h = absurd h
  IsIn-map f y (x ∷ xs) (inl e) = (x, inl refl, e)
  IsIn-map f y (x ∷ xs) (inr h) = (let (a, i, e) = IsIn-map f y xs h in (a, inr i, e))
