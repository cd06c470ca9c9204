-- ===== src/Base/Keeps.antt =====
-- Invariants of actions, one rule for each way to build an action.
use mathlib.Core.Bool.{Bool, true, false}
use mathlib.Core.Option.{Option, none, some}
use kmsqr.Base.Tests.{if◌then◌else◌}
use kmsqr.Base.Monad.{
  Error, Exec, Result, err, gets, lift, modify, ok, or_raise, pure, raise, raise_if, transaction,
  ◌>>=◌,
}

-- `m` keeps `P`, whether it returns or raises
pub record Keeps {S A : Type 0} (P : S → Type 0) (m : Exec S A) : Type 0 where
  pub at : (s : S) → P s → P (m s).1

module _ {S A : Type 0} where
  commit_or_not :
      (P : S → Type 0) (r : Result A) (s s' : S)
      → P s
      → P s'
      → P (let q : Result A × S = elim r [ ok a ↦ (ok a, s') | err e ↦ (err e, s) ] in q).1
  commit_or_not P (ok a) s s' h h' = h'
  commit_or_not P (err e) s s' h h' = h

module _ {S A B : Type 0} where
  continue :
      (P : S → Type 0) (f : A → Exec S B) (r : Result A) (s : S)
      → ((a : A) → Keeps P (f a))
      → P s
      → P (let q : Result B × S = elim r [ ok a ↦ f a s | err e ↦ (err e, s) ] in q).1
  continue P f (ok a) s kf h = (kf a).at s h
  continue P f (err e) s kf h = h

module _ {S A : Type 0} {P : S → Type 0} where
  pub Keeps-pure : (a : A) → Keeps P (pure a)
  Keeps-pure a = record { at = λ s h. h }

  pub Keeps-raise : (e : Error) → Keeps P (raise {A = A} e)
  Keeps-raise e = record { at = λ s h. h }

  pub Keeps-lift : (r : Result A) → Keeps P (lift r)
  Keeps-lift r = record { at = λ s h. h }

  pub Keeps-gets : (f : S → A) → Keeps P (gets f)
  Keeps-gets f = record { at = λ s h. h }

  pub Keeps-or_raise : (o : Option A) (e : Error) → Keeps P (or_raise o e)
  Keeps-or_raise none e = record { at = λ s h. h }
  Keeps-or_raise (some a) e = record { at = λ s h. h }

  pub Keeps-if : (b : Bool) (m n : Exec S A) → Keeps P m → Keeps P n → Keeps P (if b then m else n)
  Keeps-if true m n km kn = km
  Keeps-if false m n km kn = kn

  -- a transaction that fails leaves the state as it was
  pub Keeps-transaction : (m : Exec S A) → Keeps P m → Keeps P (transaction m)
  Keeps-transaction m km = record { at = λ s h. commit_or_not P (m s).0 s (m s).1 h (km.at s h) }

module _ {S A B : Type 0} {P : S → Type 0} where
  pub Keeps-bind :
      (m : Exec S A) (f : A → Exec S B) → Keeps P m → ((a : A) → Keeps P (f a)) → Keeps P (m >>= f)
  Keeps-bind m f km kf = record { at = λ s h. continue P f (m s).0 (m s).1 kf (km.at s h) }

pub Keeps-raise_if : {S : Type 0} {P : S → Type 0} (b : Bool) (e : Error) → Keeps P (raise_if b e)
Keeps-raise_if true e = record { at = λ s h. h }
Keeps-raise_if false e = record { at = λ s h. h }

module _ {S : Type 0} {P : S → Type 0} where
  pub Keeps-modify : (f : S → S) → ((s : S) → P s → P (f s)) → Keeps P (modify f)
  Keeps-modify f w = record { at = w }

pub ruleset keeps_rules = (
  Keeps-pure, Keeps-raise, Keeps-lift, Keeps-gets, Keeps-or_raise, Keeps-raise_if, Keeps-if,
  Keeps-bind,
)
