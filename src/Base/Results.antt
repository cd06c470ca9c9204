-- ===== src/Base/Results.antt =====
-- Pure code that may raise: the result type of Exec with its own bind.
use mathlib.Core.Bool.{Bool, true, false}
use mathlib.Core.Option.{Option, none, some}
use mathlib.Core.Path.{ap, ◌≡◌, refl}
use native.Mathlib.Omega.{arith}
use kmsqr.Base.Monad.{Error, Result, err, ok}

abbrev pub or_raise {ℓ} : {A : Type ℓ} → Option A → Error → Result A
or_raise none e = err e
or_raise (some a) e = ok a

abbrev pub raise_if : Bool → Error → Result (Unit {0})
raise_if true e = err e
raise_if false e = ok tt

-- `except Exception: return None`
abbrev pub or_none {ℓ} : {A : Type ℓ} → Result (Option A) → Option A
or_none (err e) = none
or_none (ok o) = o

pub or_none-some {ℓ} :
    {A : Type ℓ} (r : Result (Option A)) (a : A) → or_none r ≡ some a → r ≡ ok (some a)
or_none-some (err e) a h = absurd (ground arith)
or_none-some (ok o) a h = ap (λ x. ok x) h

infixl 5 ◌>>=◌ ◌>>◌
-- an exception ends the block
abbrev pub ◌>>=◌ {κ ℓ} : {A : Type κ} {B : Type ℓ} → Result A → (A → Result B) → Result B
err raised >>= next = err raised
ok value >>= next = next value

abbrev pub ◌>>◌ {ℓ} : {B : Type ℓ} → Result (Unit {0}) → Result B → Result B
first >> second = first >>= λ done. second

-- Inversion of a successful bind.
module _ {ℓ κ} {A : Type ℓ} {B : Type κ} where
  pub bind-eq-ok :
      (r : Result A) (next : A → Result B) {y : B}
      → (r >>= next) ≡ ok y
      → (x : A) × (r ≡ ok x) × (next x ≡ ok y)
  bind-eq-ok (err e) next h = ground arith
  bind-eq-ok (ok x) next h = (x, refl, h)

pub or_raise-ok {ℓ} :
    {A : Type ℓ} (o : Option A) (e : Error) (a : A) → or_raise o e ≡ ok a → o ≡ some a
or_raise-ok none e a h = absurd (ground arith)
or_raise-ok (some x) e a h = ground arith

-- `if x is None: return None`
abbrev pub or_return {ℓ κ} :
    {A : Type ℓ} {B : Type κ} → Option A → (A → Result (Option B)) → Result (Option B)
or_return none next = ok none
or_return (some a) next = next a

pub or_return-some {ℓ κ} :
    {A : Type ℓ} {B : Type κ} (o : Option A) (next : A → Result (Option B)) (b : B)
    → or_return o next ≡ ok (some b)
    → (a : A) × (o ≡ some a) × (next a ≡ ok (some b))
or_return-some none next b h = absurd (ground arith)
or_return-some (some a) next b h = (a, refl, h)
