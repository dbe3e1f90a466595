-- ===== src/Base/Raises.antt =====
-- Which errors a method can raise: one rule for each way to build a method.
use mathlib.Core.Path.{◌≡◌}
use mathlib.Core.Bool.{Bool, true, false}
use mathlib.Core.Option.{Option, none, some}
use shelf_back.Base.Tests.{if◌then◌else◌}
use shelf_back.Base.Exec.{
  Error, Result, ok, err, Exec, guard, pure, raise, gets, modify, or_raise, atomic, rollback,
  continue, ◌>>=◌,
}

-- Every error that the method raises is one of these.
pub record Raises {S A : Type 0} (these : Error → Bool) (m : Exec S A) : Type 0 where
  pub at : (s : S) (e : Error) → (m s).0 ≡ err e → these e ≡ true

module _ {S A : Type 0} (these : Error → Bool) where
  pub Raises-pure : (a : A) → Raises these (pure {S = S} a)
  Raises-pure a = record { at = λ s e h. cc }

  pub Raises-gets : (f : S → A) → Raises these (gets f)
  Raises-gets f = record { at = λ s e h. cc }

  pub Raises-raise : (e : Error) → these e ≡ true → Raises these (raise {S = S} {A = A} e)
  Raises-raise e h = record { at = λ s e' k. cc }

  pub Raises-or_raise :
      (o : Option A) (e : Error) → these e ≡ true → Raises these (or_raise {S = S} o e)
  Raises-or_raise none e h = record { at = λ s e' k. cc }
  Raises-or_raise (some a) e h = record { at = λ s e' k. cc }

  pub Raises-if :
      (b : Bool) (m n : Exec S A)
      → Raises these m
      → Raises these n
      → Raises these (if b then m else n)
  Raises-if true m n h k = h
  Raises-if false m n h k = k

  rollback-Raises : (x : Result A × S) (s : S) (e : Error) → (rollback x s).0 ≡ err e → x.0 ≡ err e
  rollback-Raises (ok a, t) s e h = h
  rollback-Raises (err e', t) s e h = h

  pub Raises-atomic : (m : Exec S A) → Raises these m → Raises these (atomic m)
  Raises-atomic m h = record { at = λ s e k. h.at s e (rollback-Raises (m s) s e k) }

module _ {S A B : Type 0} (these : Error → Bool) where
  continue-Raises :
      (f : A → Exec S B) (x : Result A × S) (e : Error)
      → ((e : Error) → x.0 ≡ err e → these e ≡ true)
      → ((a : A) → Raises these (f a))
      → (continue x.0 f x.1).0 ≡ err e
      → these e ≡ true
  continue-Raises f (ok a, s) e h k r = (k a).at s e r
  continue-Raises f (err e', s) e h k r = h e cc

  pub Raises-bind :
      (m : Exec S A) (f : A → Exec S B)
      → Raises these m
      → ((a : A) → Raises these (f a))
      → Raises these (m >>= f)
  Raises-bind m f h k = record { at = λ s e r. continue-Raises f (m s) e (h.at s) k r }

module _ {S : Type 0} (these : Error → Bool) where
  pub Raises-modify : (f : S → S) → Raises these (modify f)
  Raises-modify f = record { at = λ s e h. cc }

  pub Raises-guard : (b : Bool) (e : Error) → these e ≡ true → Raises these (guard {S = S} b e)
  Raises-guard true e h = record { at = λ s e' k. cc }
  Raises-guard false e h = record { at = λ s e' k. cc }

pub ruleset raise_rules = (
  Raises-pure, Raises-gets, Raises-if, Raises-atomic, Raises-bind, Raises-modify, Raises-raise,
  Raises-or_raise, Raises-guard,
)
