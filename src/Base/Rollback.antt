-- ===== src/Base/Rollback.antt =====
-- Which methods leave the store alone: those that only read, and those that undo what they wrote
-- before they raise. One rule for each way to build a method.
use shelf_back.Base.Tests.{if◌then◌else◌}
use shelf_back.Base.Exec.{
  Error, Result, ok, err, Exec, guard, modify, pure, raise, gets, or_raise, lift, atomic, rollback,
  continue, ◌>>=◌,
}
use mathlib.Core.Path.{◌≡◌, refl, sym}
use mathlib.Core.Bool.{Bool, true, false}
use mathlib.Core.Option.{Option, none, some}

pub record ReadOnly {ℓ} {S A : Type ℓ} (m : Exec S A) : Type ℓ where
  pub at : (s : S) → (m s).1 ≡ s

pub record Restores {ℓ} {S A : Type ℓ} (m : Exec S A) : Type ℓ where
  pub at : (s : S) (e : Error) → (m s).0 ≡ err e → (m s).1 ≡ s

module _ {ℓ} {S A : Type ℓ} where
  pub ReadOnly-pure : (a : A) → ReadOnly {S = S} (pure a)
  ReadOnly-pure a = record { at = λ s. refl }

  pub ReadOnly-raise : (e : Error) → ReadOnly {S = S} (raise {A = A} e)
  ReadOnly-raise e = record { at = λ s. refl }

  pub ReadOnly-gets : (f : S → A) → ReadOnly (gets f)
  ReadOnly-gets f = record { at = λ s. refl }

  pub ReadOnly-lift : (r : Result A) → ReadOnly {S = S} (lift r)
  ReadOnly-lift r = record { at = λ s. refl }

  pub ReadOnly-or_raise : (o : Option A) (e : Error) → ReadOnly {S = S} (or_raise o e)
  ReadOnly-or_raise none e = record { at = λ s. refl }
  ReadOnly-or_raise (some a) e = record { at = λ s. refl }

  pub ReadOnly-if :
      (b : Bool) (m n : Exec S A) → ReadOnly m → ReadOnly n → ReadOnly (if b then m else n)
  ReadOnly-if true m n h k = h
  ReadOnly-if false m n h k = k

  pub ReadOnly-Restores : (m : Exec S A) → ReadOnly m → Restores m
  ReadOnly-Restores m h = record { at = λ s e _. h.at s }

  rollback-restores :
      (x : Result A × S) (s : S) (e : Error) → (rollback x s).0 ≡ err e → (rollback x s).1 ≡ s
  rollback-restores (ok a, s') s e h = cc
  rollback-restores (err e', s') s e h = refl

  pub Restores-atomic : (m : Exec S A) → Restores (atomic m)
  Restores-atomic m = record { at = λ s e h. rollback-restores (m s) s e h }

  rollback_id :
      (x : Result A × S) (s : S) → ((e : Error) → x.0 ≡ err e → x.1 ≡ s) → rollback x s ≡ x
  rollback_id (ok a, s') s h = refl
  rollback_id (err e, s') s h = let back = sym (h e refl) in λ i. (err e, back i)

  -- A transaction around a method that restores the store makes no difference.
  pub atomic_of_Restores : (m : Exec S A) → Restores m → (s : S) → atomic m s ≡ m s
  atomic_of_Restores m h s = rollback_id (m s) s (h.at s)

  pub Restores-if :
      (b : Bool) (m n : Exec S A) → Restores m → Restores n → Restores (if b then m else n)
  Restores-if true m n h k = h
  Restores-if false m n h k = k

module _ {ℓ} {S A B : Type ℓ} where
  continue-ReadOnly :
      (r : Result A) (f : A → Exec S B) (s : S)
      → ((a : A) → ReadOnly (f a))
      → (continue r f s).1 ≡ s
  continue-ReadOnly (ok a) f s h = (h a).at s
  continue-ReadOnly (err e) f s h = refl

  continue-Restores :
      (r : Result A) (f : A → Exec S B) (s : S) (e : Error)
      → ((a : A) → Restores (f a))
      → (continue r f s).0 ≡ err e
      → (continue r f s).1 ≡ s
  continue-Restores (ok a) f s e h k = (h a).at s e k
  continue-Restores (err e') f s e h k = refl

  pub ReadOnly-bind :
      (m : Exec S A) (f : A → Exec S B)
      → ReadOnly m
      → ((a : A) → ReadOnly (f a))
      → ReadOnly (m >>= f)
  ReadOnly-bind m f h k = record { at = λ s. rw (h.at s) (continue-ReadOnly (m s).0 f s k) }

  pub Restores-bind :
      (m : Exec S A) (f : A → Exec S B)
      → ReadOnly m
      → ((a : A) → Restores (f a))
      → Restores (m >>= f)
  Restores-bind m f h k = record {
    at = λ s e. rw (h.at s) (λ x. continue-Restores (m s).0 f s e k x);
  }

-- A method that never raises.
pub record Never {ℓ} {S A : Type ℓ} (m : Exec S A) : Type ℓ where
  pub at : (s : S) → (a : A) × ((m s).0 ≡ ok a)

module _ {ℓ} {S A B : Type ℓ} where
  continue-Never :
      (f : A → Exec S B) (x : Result A × S) (s : S) (e : Error)
      → ((a : A) → Never (f a))
      → ((e : Error) → x.0 ≡ err e → x.1 ≡ s)
      → (continue x.0 f x.1).0 ≡ err e
      → (continue x.0 f x.1).1 ≡ s
  continue-Never f (ok a, s') s e n h k = let (b, never) = (n a).at s' in cc
  continue-Never f (err e', s') s e n h k = h e' refl

  -- What follows the last step that can raise may write.
  pub Restores-bind_last :
      (m : Exec S A) (f : A → Exec S B) → Restores m → ((a : A) → Never (f a)) → Restores (m >>= f)
  Restores-bind_last m f h n = record { at = λ s e. continue-Never f (m s) s e n (h.at s) }

module _ {ℓ} {S A B : Type ℓ} where
  Never-continue :
      (f : A → Exec S B) (x : Result A × S)
      → ((a : A) → Never (f a))
      → (a : A) × (x.0 ≡ ok a)
      → (b : B) × ((continue x.0 f x.1).0 ≡ ok b)
  Never-continue f (ok a, s) n h = (n a).at s
  Never-continue f (err e, s) n (a, h) = cc

  pub Never-bind :
      (m : Exec S A) (f : A → Exec S B) → Never m → ((a : A) → Never (f a)) → Never (m >>= f)
  Never-bind m f h n = record { at = λ s. Never-continue f (m s) n (h.at s) }

module _ {ℓ} {S A : Type ℓ} where
  pub Never-pure : (a : A) → Never {S = S} (pure a)
  Never-pure a = record { at = λ s. (a, refl) }

  pub Never-gets : (f : S → A) → Never (gets f)
  Never-gets f = record { at = λ s. (f s, refl) }

  pub Never-if : (b : Bool) (m n : Exec S A) → Never m → Never n → Never (if b then m else n)
  Never-if true m n h k = h
  Never-if false m n h k = k

module _ {S : Type 0} where
  pub Never-modify : (f : S → S) → Never (modify f)
  Never-modify f = record { at = λ s. (tt, refl) }

  pub ReadOnly-guard : (b : Bool) (e : Error) → ReadOnly {S = S} (guard b e)
  ReadOnly-guard true e = record { at = λ s. refl }
  ReadOnly-guard false e = record { at = λ s. refl }

module _ {ℓ} {S A : Type ℓ} where
  pub Never-Restores : (m : Exec S A) → Never m → Restores m
  Never-Restores m h = record { at = λ s e k. let (a, never) = h.at s in cc }

pub ruleset never_rules = (Never-pure, Never-gets, Never-if, Never-bind, Never-modify)

pub ruleset read_rules = (
  ReadOnly-pure, ReadOnly-raise, ReadOnly-gets, ReadOnly-lift, ReadOnly-or_raise, ReadOnly-if,
  ReadOnly-bind,
)

pub ruleset rollback_rules =
    (read_rules, Restores-atomic, Restores-if, Restores-bind, ReadOnly-Restores)
