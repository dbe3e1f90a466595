-- ===== src/Base/Keeps.antt =====
-- Which methods keep an invariant of the store: one rule for each way to build a method.
use mathlib.Core.Bool.{Bool, true, false}
use mathlib.Core.Option.{Option, none, some}
use shelf_back.Base.Tests.{if◌then◌else◌}
use shelf_back.Base.Exec.{
  Error, Result, ok, err, Exec, guard, pure, raise, gets, modify, or_raise, or_none, lift, atomic,
  rollback, continue, ◌>>=◌, file_not_found,
}
use shelf_back.Base.Rollback.{ReadOnly}

pub record Keeps {S A : Type 0} (P : S → Type 0) (m : Exec S A) : Type 0 where
  pub at : (s : S) → P s → P (m s).1

module _ {S A : Type 0} (P : S → Type 0) where
  pub Keeps-ReadOnly : (m : Exec S A) → ReadOnly m → Keeps P m
  Keeps-ReadOnly m h = record { at = λ s p. rw (h.at s) p }

  pub Keeps-pure : (a : A) → Keeps P (pure {S = S} a)
  Keeps-pure a = record { at = λ s p. p }

  pub Keeps-raise : (e : Error) → Keeps P (raise {S = S} {A = A} e)
  Keeps-raise e = record { at = λ s p. p }

  pub Keeps-lift : (r : Result A) → Keeps P (lift {S = S} r)
  Keeps-lift r = record { at = λ s p. p }

  pub Keeps-gets : (f : S → A) → Keeps P (gets f)
  Keeps-gets f = record { at = λ s p. p }

  pub Keeps-or_raise : (o : Option A) (e : Error) → Keeps P (or_raise {S = S} o e)
  Keeps-or_raise none e = record { at = λ s p. p }
  Keeps-or_raise (some a) e = record { at = λ s p. p }

  pub Keeps-if : (b : Bool) (m n : Exec S A) → Keeps P m → Keeps P n → Keeps P (if b then m else n)
  Keeps-if true m n h k = h
  Keeps-if false m n h k = k

  rollback_keeps : (x : Result A × S) (s : S) → P x.1 → P s → P (rollback x s).1
  rollback_keeps (ok a, t) s p q = p
  rollback_keeps (err e, t) s p q = q

  pub Keeps-atomic : (m : Exec S A) → Keeps P m → Keeps P (atomic m)
  Keeps-atomic m h = record { at = λ s p. rollback_keeps (m s) s (h.at s p) p }

module _ {S A : Type 0} (P : S → Type 0) where
  pub Keeps-or_none : (m : Exec S A) → Keeps P m → Keeps P (or_none m)
  Keeps-or_none m h = record { at = λ s p. go (m s) (h.at s p) }
    where
      go : (x : Result A × S) → P x.1 → P (or_none (λ (_ : S). x) x.1).1
      go (ok a, s) p = p
      go (err file_not_found, s) p = p
      go (err e, s) p = p

module _ {S A B : Type 0} (P : S → Type 0) where
  continue_keeps :
      (f : A → Exec S B) (x : Result A × S)
      → ((a : A) → Keeps P (f a))
      → P x.1
      → P (continue x.0 f x.1).1
  continue_keeps f (ok a, s) h p = (h a).at s p
  continue_keeps f (err e, s) h p = p

  pub Keeps-bind :
      (m : Exec S A) (f : A → Exec S B) → Keeps P m → ((a : A) → Keeps P (f a)) → Keeps P (m >>= f)
  Keeps-bind m f h k = record { at = λ s p. continue_keeps f (m s) k (h.at s p) }

module _ {S : Type 0} (P : S → Type 0) where
  pub Keeps-modify : (f : S → S) → ((s : S) → P s → P (f s)) → Keeps P (modify f)
  Keeps-modify f h = record { at = h }

  pub Keeps-guard : (b : Bool) (e : Error) → Keeps P (guard {S = S} b e)
  Keeps-guard true e = record { at = λ s p. p }
  Keeps-guard false e = record { at = λ s p. p }

pub ruleset keep_rules = (
  Keeps-pure, Keeps-raise, Keeps-lift, Keeps-gets, Keeps-or_raise, Keeps-if, Keeps-atomic,
  Keeps-bind, Keeps-guard,
)
