-- ===== src/Base/Exec.antt =====
-- Methods that read and write the store and may raise. A raise keeps what was written before it,
-- except inside `atomic`, which rolls the store back.
use mathlib.Core.Path.{◌≡◌, refl, ap}
use mathlib.Core.Bool.{Bool, true, false}
use mathlib.Core.Option.{Option, none, some}
use mathlib.Core.List.{List, [], ◌∷◌}

-- The exception classes of the program, under their Python names. `out_of_fuel` is none of them: it
-- is what a loop on fuel ends with when the fuel is spent.
pub data Error : Type 0 where
  access_denied bucket_already_exists bucket_already_owned_by_you no_such_key : Error
  signature_does_not_match resource_not_found http_status_error : Error
  invalid_token reused_token : Error
  file_action_not_allowed file_already_deleted file_already_exists file_not_found file_too_large :
      Error
  is_a_directory malformed_path missing_parent not_a_directory : Error
  namespace_not_found namespace_already_exists shared_link_not_found : Error
  storage_quota_exceeded user_not_found user_already_exists invalid_credentials : Error
  email_already_verified email_is_missing : Error
  email_update_already_started email_update_not_started email_update_limit_reached : Error
  otp_code_already_sent : Error
  album_not_found media_item_not_found blob_not_found blob_already_exists : Error
  value_error assertion_error integrity_error does_not_exist type_error : Error
  multiple_objects_returned key_error storage_error operational_error validation_error : Error
  out_of_fuel overflow_error runtime_error os_file_not_found os_file_exists os_not_a_directory
        os_is_a_directory :
      Error

pub data Result {ℓ} (A : Type ℓ) : Type ℓ where
  ok : A → Result A
  err : Error → Result A

abbrev pub Exec {ℓ} : Type ℓ → Type ℓ → Type ℓ
Exec S A = S → Result A × S

module _ {ℓ} {S A : Type ℓ} where
  abbrev pub pure : A → Exec S A
  pure a s = (ok a, s)

  abbrev pub raise : Error → Exec S A
  raise e s = (err e, s)

  abbrev pub gets : (S → A) → Exec S A
  gets f s = (ok (f s), s)

  abbrev pub or_raise : Option A → Error → Exec S A
  or_raise none e s = (err e, s)
  or_raise (some a) e s = (ok a, s)

  -- `async with db.atomic()`: a transaction, undone when its body raises.
  abbrev pub rollback : Result A × S → S → Result A × S
  rollback (ok a, s') s = (ok a, s')
  rollback (err e, s') s = (err e, s)

  abbrev pub atomic : Exec S A → Exec S A
  atomic m s = rollback (m s) s

module _ {S : Type 0} where
  abbrev pub modify : (S → S) → Exec S Unit
  modify f s = (ok tt, f s)

  -- `assert b`
  abbrev pub guard : Bool → Error → Exec S Unit
  guard true e s = (ok tt, s)
  guard false e s = (err e, s)

module _ {ℓ} {S A B : Type ℓ} where
  abbrev pub continue : Result A → (A → Exec S B) → Exec S B
  continue (ok a) f s = f a s
  continue (err e) f s = (err e, s)

  infixl 5 ◌>>=◌ ◌>>◌
  abbrev pub ◌>>=◌ : Exec S A → (A → Exec S B) → Exec S B
  ◌>>=◌ m f s = let (r, s') = m s in continue r f s'

  abbrev pub ◌>>◌ : Exec S A → Exec S B → Exec S B
  m >> k = m >>= λ _. k

-- Runs an action on every element, in order.
unfoldable pub for_each {ℓ} :
    {S A : Type ℓ} {B : Type ℓ} → (A → Exec S B) → List A → Exec S (List B)
for_each f [] = pure []
for_each f (x ∷ xs) = do y ← f x; ys ← for_each f xs; pure (y ∷ ys)

-- The elements, if none is an error.
unfoldable pub all_ok {ℓ} : {A : Type ℓ} → List (Result A) → Result (List A)
all_ok [] = ok []
all_ok (err e ∷ rs) = err e
all_ok (ok a ∷ rs) = elim (all_ok rs) [ ok xs ↦ ok (a ∷ xs) | err e ↦ err e ]

-- `QuerySet.get`: the one row that matches.
abbrev pub one_of {ℓ} : {A : Type ℓ} → List A → Result A
one_of [] = err does_not_exist
one_of (x ∷ []) = ok x
one_of (_ ∷ _ ∷ _) = err multiple_objects_returned

-- `except DoesNotExist: raise e`
abbrev pub not_found_as {ℓ} : {A : Type ℓ} → Error → Result A → Result A
not_found_as e (ok a) = ok a
not_found_as e (err does_not_exist) = err e
not_found_as e (err e') = err e'

abbrev pub lift {ℓ} : {S A : Type ℓ} → Result A → Exec S A
lift r s = (r, s)

-- `try: x = await m; except Exception as e:` gives the result or the exception.
abbrev pub attempt {ℓ} : {S A : Type ℓ} → Exec S A → Exec S (Result A)
attempt m s = let (r, s') = m s in (ok r, s')

-- `try: x = await m; except File.NotFound:` gives `none`; other exceptions pass.
abbrev pub or_none {ℓ} : {S A : Type ℓ} → Exec S A → Exec S (Option A)
or_none m s =
    let (r, s') = m s in
    elim r [
      | ok a ↦ (ok (some a), s')
      | err e ↦ elim e [ file_not_found ↦ (ok none, s') | other ↦ (err other, s') ]
    ]

module _ {S A B : Type 0} where
  -- A method that returns has returned at each step.
  pub returned :
      (m : Exec S A) (f : A → Exec S B) (s t : S) (b : B)
      → (m >>= f) s ≡ (ok b, t)
      → (a : A) × (s' : S) × (m s ≡ (ok a, s')) × (f a s' ≡ (ok b, t))
  returned m f s t b = go (m s)
    where
      go :
          (x : Result A × S)
          → continue x.0 f x.1 ≡ (ok b, t)
          → (a : A) × (s' : S) × (x ≡ (ok a, s')) × (f a s' ≡ (ok b, t))
      go (ok a, s') h = (a, s', refl, h)
      go (err e, s') h = cc

module _ {S B : Type 0} where
  pub guard_returned :
      (b : Bool) (e : Error) (f : Unit {0} → Exec S B) (s t : S) (y : B)
      → (guard b e >>= f) s ≡ (ok y, t)
      → (b ≡ true) × (f tt s ≡ (ok y, t))
  guard_returned true e f s t y h = (refl, h)
  guard_returned false e f s t y h = cc

module _ {S : Type 0} where
  pub guard_ok : (b : Bool) (e : Error) (s t : S) → guard b e s ≡ (ok tt, t) → (b ≡ true) × (s ≡ t)
  guard_ok true e s t h = (refl, ap (λ (x : Result (Unit {0}) × S). x.1) h)
  guard_ok false e s t h = cc

  pub or_raise_ok :
      {A : Type 0} (o : Option A) (e : Error) (a : A) (s t : S)
      → or_raise o e s ≡ (ok a, t)
      → (o ≡ some a) × (s ≡ t)
  or_raise_ok none e a s t h = cc
  or_raise_ok (some b) e a s t h = (cc, ap (λ (x : Result _ × S). x.1) h)
