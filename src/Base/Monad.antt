-- ===== src/Base/Monad.antt =====
-- Methods that change state and may raise. What was written before a raise stays written, unless
-- the method runs in a transaction.
use Prim.Native.Nat.{ℕ}
use mathlib.Core.Bool.{Bool, true, false}
use mathlib.Core.Option.{Option, none, some}
use mathlib.Core.Path.{◌≡◌, refl, ap}
use native.Mathlib.Omega.{arith}

-- The Python exceptions that the code raises or lets pass, without their messages; `http` is
-- FastAPI's HTTPException with its status code.
pub data Error : Type 0 where
  value_error key_error runtime_error index_error zero_division : Error
  key_state_error nonce_budget_exceeded integrity_error invalid_tag struct_error type_error : Error
  attribute_error hashing_error : Error
  http : ℕ → Error

pub data Result {ℓ} (A : Type ℓ) : Type ℓ where
  ok : A → Result A
  err : Error → Result A

abbrev pub Exec : Type 0 → Type 0 → Type 0
Exec S A = S → Result A × S

module _ {S A : Type 0} where
  abbrev pub pure : A → Exec S A
  pure a s = (ok a, s)

  abbrev pub raise : Error → Exec S A
  raise e s = (err e, s)

  abbrev pub gets : (S → A) → Exec S A
  gets f s = (ok (f s), s)

  abbrev pub lift : Result A → Exec S A
  lift r s = (r, s)

  abbrev pub or_raise : Option A → Error → Exec S A
  or_raise none e s = (err e, s)
  or_raise (some a) e s = (ok a, s)

  -- `with engine.begin()`: an exception rolls the writes back
  abbrev pub transaction : Exec S A → Exec S A
  transaction m s = let (r, s') = m s in elim r [ ok a ↦ (ok a, s') | err e ↦ (err e, s) ]

infixl 5 ◌>>=◌ ◌>>◌
abbrev pub ◌>>=◌ : {S A B : Type 0} → Exec S A → (A → Exec S B) → Exec S B
◌>>=◌ m f s = let (r, s') = m s in elim r [ ok a ↦ f a s' | err e ↦ (err e, s') ]

abbrev pub ◌>>◌ : {S A B : Type 0} → Exec S A → Exec S B → Exec S B
m >> k = m >>= λ _. k

module _ {S : Type 0} where
  abbrev pub modify : (S → S) → Exec S (Unit {0})
  modify f s = (ok tt, f s)

  abbrev pub raise_if : Bool → Error → Exec S (Unit {0})
  raise_if true e s = (err e, s)
  raise_if false e s = (ok tt, s)

-- a run of `m >>= f` that returns: what `m` returned, and in which state
pub record Ran {S A B : Type 0} (m : Exec S A) (f : A → Exec S B) (s t : S) (b : B) : Type 0 where
  pub value : A
  pub between : S
  pub first : m s ≡ (ok value, between)
  pub rest : f value between ≡ (ok b, t)

module _ {S A B : Type 0} where
  ran :
      (m : Exec S A) (f : A → Exec S B) (s t : S) (b : B) (q : Result A × S)
      → m s ≡ q
      → (let z : Result B × S = elim q.0 [ ok a ↦ f a q.1 | err e ↦ (err e, q.1) ] in z) ≡ (ok b, t)
      → Ran m f s t b
  ran m f s t b (ok a, s') e h = record { value = a; between = s'; first = e; rest = h }
  ran m f s t b (err x, s') e h = ground arith

  -- Inversion of a bind that returns.
  pub bind-Ran :
      (m : Exec S A) (f : A → Exec S B) (s t : S) (b : B) → (m >>= f) s ≡ (ok b, t) → Ran m f s t b
  bind-Ran m f s t b h = ran m f s t b (m s) refl h

  -- A bind whose first action returns.
  pub bind-run :
      (m : Exec S A) (f : A → Exec S B) (s s' : S) (a : A) → m s ≡ (ok a, s') → (m >>= f) s ≡ f a s'
  bind-run m f s s' a e =
      ap (λ q. let z : Result B × S = elim q.0 [ ok a ↦ f a q.1 | err e ↦ (err e, q.1) ] in z) e

module _ {S A B : Type 0} where
  -- Inversion of a bind whose first action is a result.
  pub lift-Ran :
      (r : Result A) (f : A → Exec S B) (s t : S) (b : B)
      → (lift r >>= f) s ≡ (ok b, t)
      → (a : A) × (r ≡ ok a) × (f a s ≡ (ok b, t))
  lift-Ran (ok a) f s t b h = (a, refl, h)
  lift-Ran (err e) f s t b h = absurd (ground arith)

module _ {S B : Type 0} where
  -- Inversion of a bind whose first action is a test.
  pub raise_if-Ran :
      (c : Bool) (e : Error) (f : Unit {0} → Exec S B) (s t : S) (b : B)
      → (raise_if c e >>= f) s ≡ (ok b, t)
      → (c ≡ false) × (f tt s ≡ (ok b, t))
  raise_if-Ran true e f s t b h = absurd (ground arith)
  raise_if-Ran false e f s t b h = (refl, h)

-- `m` raises `e` in the state `s` and changes nothing
pub record Stops {S A : Type 0} (m : Exec S A) (s : S) (e : Error) : Type 0 where
  pub at : m s ≡ (err e, s)

module _ {S A B : Type 0} {s : S} {e : Error} where
  -- a block whose first action stops
  pub Stops-bind : (m : Exec S A) (f : A → Exec S B) → Stops m s e → Stops (m >>= f) s e
  Stops-bind m f h = record {
    at =
        ap (λ q. let z : Result B × S = elim q.0 [ ok a ↦ f a q.1 | err x ↦ (err x, q.1) ] in z)
          h.at;
  }
