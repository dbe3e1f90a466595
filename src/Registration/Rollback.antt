-- ===== src/Registration/Rollback.antt =====
-- What a sign-up that fails leaves behind: app/app/auth/usecases/auth.py and users/usecases/user.py.
use shelf_back.Base.{ℕ, ◌≡◌, refl, ◌∙◌, Bool, true, false, Option, none, some, []}
use shelf_back.Base.Text.{Text}
use shelf_back.Base.Exec.{Error, Exec, Result, ok, err, pure, continue, ◌>>=◌}
use shelf_back.Base.Rollback.{Restores, Never}
use shelf_back.Files.Model.{Env, Db}
use shelf_back.Files.NamespaceService
use shelf_back.Users.{Cache, Credentials, UserDb}
use shelf_back.Auth.{Jwt, TokenRepository, Ttl, Tokens}
use shelf_back.Auth
use shelf_back.Registration.{
  Registry, in_users, in_core, in_sessions, undone, transaction, register, create_superuser, signup,
}

module _ (C : Cache) (R : TokenRepository) where
  abbrev Store : Type 0
  Store = Registry C R

  -- What the rollback does not restore
  abbrev Same : Store → Store → Type 0
  Same s t = (s.sessions ≡ t.sessions) × (s.trail ≡ t.trail)

  -- A method that has left the sessions and the trail alone when it raises
  record Quiet {A : Type 0} (m : Exec Store A) : Type 0 where
    at : (s : Store) (e : Error) → (m s).0 ≡ err e → Same (m s).1 s

  -- and one that always leaves them alone
  record Silent {A : Type 0} (m : Exec Store A) : Type 0 where
    at : (s : Store) → Same (m s).1 s

  Silent-in_users : {A : Type 0} (m : Exec (UserDb C) A) → Silent (in_users C R m)
  Silent-in_users m = record { at = λ s. (refl, refl) }

  Silent-in_core : {A : Type 0} (m : Exec Db A) → Silent (in_core C R m)
  Silent-in_core m = record { at = λ s. (refl, refl) }

  Silent-Quiet : {A : Type 0} (m : Exec Store A) → Silent m → Quiet m
  Silent-Quiet m h = record { at = λ s e k. h.at s }

  Never-Quiet : {A : Type 0} (m : Exec Store A) → Never m → Quiet m
  Never-Quiet m h = record { at = λ s e k. let (a, returns) = h.at s in cc }

  continue-Quiet :
      {A B : Type 0} (f : A → Exec Store B) (x : Result A × Store) (s : Store) (e : Error)
      → ((a : A) → Quiet (f a))
      → Same x.1 s
      → (continue x.0 f x.1).0 ≡ err e
      → Same (continue x.0 f x.1).1 s
  continue-Quiet f (ok a, t) s e h (k, j) r = let (k', j') = (h a).at t e r in (k' ∙ k, j' ∙ j)
  continue-Quiet f (err e', t) s e h same r = same

  Quiet-bind :
      {A B : Type 0} (m : Exec Store A) (f : A → Exec Store B)
      → Silent m
      → ((a : A) → Quiet (f a))
      → Quiet (m >>= f)
  Quiet-bind m f h k = record { at = λ s e. continue-Quiet f (m s) s e k (h.at s) }

  undone_restores :
      {A : Type 0} (x : Result A × Store) (s : Store) (e : Error)
      → ((e : Error) → x.0 ≡ err e → Same x.1 s)
      → (undone C R x s).0 ≡ err e
      → (undone C R x s).1 ≡ s
  undone_restores (ok a, t) s e h k = cc
  undone_restores (err e', t) s e h k =
      let (same, trail) = h e' refl in λ i. record s { sessions = same i; trail = trail i }

  transaction-Restores : {A : Type 0} (m : Exec Store A) → Quiet m → Restores (transaction C R m)
  transaction-Restores m h = record { at = λ s e. undone_restores (m s) s e (h.at s) }

  continue-Silent :
      {A B : Type 0} (f : A → Exec Store B) (x : Result A × Store) (s : Store)
      → ((a : A) → Silent (f a))
      → Same x.1 s
      → Same (continue x.0 f x.1).1 s
  continue-Silent f (ok a, t) s h (k, j) = let (k', j') = (h a).at t in (k' ∙ k, j' ∙ j)
  continue-Silent f (err e, t) s h same = same

  Silent-bind :
      {A B : Type 0} (m : Exec Store A) (f : A → Exec Store B)
      → Silent m
      → ((a : A) → Silent (f a))
      → Silent (m >>= f)
  Silent-bind m f h k = record { at = λ s. continue-Silent f (m s) s k (h.at s) }

  Silent-pure : {A : Type 0} (a : A) → Silent (pure a)
  Silent-pure a = record { at = λ s. (refl, refl) }

  module _ (V : Env) (K : Credentials) (now : ℕ) where
    register-Silent :
        (username password : Text) (email : Option Text) (display_name : Text) (superuser : Bool)
        (quota : Option ℕ)
        → Silent (register C R V K now username password email display_name superuser quota)
    unfolding register
    register-Silent username password email display_name superuser quota =
        Silent-bind _ _ (Silent-in_users _) (λ user.
          Silent-bind _ _ (Silent-in_core (NamespaceService.create V now user.username user.id))
            (λ _. Silent-pure user))

    granted :
        (J : Jwt) (ttl : Ttl) (family_id token_id user_id : Text)
        → Never (in_sessions C R (Auth.create J R ttl now family_id token_id user_id))
    unfolding Auth.create
    granted J ttl family_id token_id user_id = record { at = λ s. (_, refl) }

    -- A sign-up and the creation of a superuser that raise, at whatever step, leave the tables, the
    -- sessions and the audit trail as they were.
    pub failed_registration :
        (J : Jwt) (ttl : Ttl) (family_id token_id email password display_name : Text)
        (quota : Option ℕ)
        → Restores (signup C R V K now J ttl family_id token_id quota email password display_name)
          × Restores (create_superuser C R V K now email password)
    unfolding signup create_superuser
    failed_registration J ttl family_id token_id email password display_name quota = (
      transaction-Restores _ (
          Quiet-bind _ _ (register-Silent email password (some email) display_name false quota)
            (λ user. Never-Quiet _ (granted J ttl family_id token_id (V.uuid_text user.id)))),
      transaction-Restores _ (Silent-Quiet _ (register-Silent email password none [] true none)),
    )
