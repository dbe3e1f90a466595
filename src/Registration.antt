-- ===== src/Registration.antt =====
-- Signing up and in, `AuthUseCase` of app/app/auth/usecases/auth.py, and `create_superuser` and
-- `get_account_space_usage` of `UserUseCase`, app/app/users/usecases/user.py. `rotate_tokens` is
-- `TokenService.rotate`. What is scheduled in the background is done at once.
pub mod Rollback
use shelf_back.Base.{ℕ, ◌≡◌, Bool, true, false, Option, none, some, List, [], ◌∷◌, ◌++◌}
use shelf_back.Base.Int.{ℤ}
use shelf_back.Base.Text.{Text, codes}
use shelf_back.Base.Exec.{
  Error, Exec, Result, ok, err, pure, modify, lift, continue, user_not_found, invalid_credentials,
  ◌>>=◌, ◌>>◌,
}
use shelf_back.Files.Model.{Env, Db, Namespace}
use shelf_back.Files.Namespaces
use shelf_back.Files.NamespaceService
use shelf_back.Users.{User, Account, Cache, Credentials, UserDb}
use shelf_back.Users.Repository
use shelf_back.Users.Service
use shelf_back.Auth.{Jwt, TokenRepository, Ttl, Tokens}
use shelf_back.Auth
use shelf_back.Audit.{AuditTrail, user_signed_in, track_user_action}

-- The database in two records, the cache of the sessions, and the audit trail.
pub record Registry (C : Cache) (R : TokenRepository) : Type 0 where
  pub users : UserDb C
  pub core : Db
  pub sessions : R.State
  pub trail : List AuditTrail

-- `AccountSpaceUsage`
pub record AccountSpaceUsage : Type 0 where
  pub used : ℤ
  pub quota : Option ℕ

module _ (C : Cache) (R : TokenRepository) where
  abbrev pub in_users : {A : Type 0} → Exec (UserDb C) A → Exec (Registry C R) A
  in_users m s = let (r, users) = m s.users in (r, record s { users = users })

  abbrev pub in_core : {A : Type 0} → Exec Db A → Exec (Registry C R) A
  in_core m s = let (r, core) = m s.core in (r, record s { core = core })

  abbrev pub in_sessions : {A : Type 0} → Exec R.State A → Exec (Registry C R) A
  in_sessions m s = let (r, sessions) = m s.sessions in (r, record s { sessions = sessions })

  -- `async with services.atomic()`: the database is rolled back, the cache is not.
  abbrev pub undone :
      {A : Type 0} → Result A × Registry C R → Registry C R → Result A × Registry C R
  undone (ok a, t) s = (ok a, t)
  undone (err e, t) s = (err e, record t { users = s.users; core = s.core })

  abbrev pub transaction : {A : Type 0} → Exec (Registry C R) A → Exec (Registry C R) A
  transaction m s = undone (m s) s

  -- `except User.NotFound as exc: raise User.InvalidCredentials()`
  abbrev pub hide_missing : {A : Type 0} → Result A → Result A
  hide_missing (ok a) = ok a
  hide_missing (err user_not_found) = err invalid_credentials
  hide_missing (err e) = err e

  abbrev pub hidden : {S A : Type 0} → Exec S A → Exec S A
  hidden m s = let (r, t) = m s in (hide_missing r, t)

  module _ (V : Env) (K : Credentials) (now : ℕ) where
    -- The part of `signup` and `create_superuser` on the database
    unfoldable pub register :
        Text → Text → Option Text → Text → Bool → Option ℕ → Exec (Registry C R) User
    register username password email display_name superuser storage_quota = do
      user ←
          in_users
            (Service.create V C K now username password email display_name superuser storage_quota)
      in_core (NamespaceService.create V now user.username user.id)
      pure user

    unfoldable pub create_superuser : Text → Text → Exec (Registry C R) User
    create_superuser username password = transaction (register username password none [] true none)

    module _ (J : Jwt) (ttl : Ttl) (family_id token_id : Text) where
      unfoldable pub signin : Text → Text → Exec (Registry C R) Tokens
      signin email_or_username password = do
        user ← hidden (in_users (Service.signin V C K now email_or_username password))
        modify (λ s. record s { trail = track_user_action user_signed_in now user.id s.trail })
        in_sessions (Auth.create J R ttl now family_id token_id (V.uuid_text user.id))

      -- `quota` is `config.features.quota`.
      unfoldable pub signup : Option ℕ → Text → Text → Text → Exec (Registry C R) Tokens
      signup quota email password display_name = transaction (do
        user ← register email password (some email) display_name false quota
        in_sessions (Auth.create J R ttl now family_id token_id (V.uuid_text user.id)))

  unfoldable pub get_account_space_usage : ℕ → Exec (Registry C R) AccountSpaceUsage
  get_account_space_usage user_id = do
    account ← in_users (Repository.get_account C user_id)
    used ← in_core (Namespaces.get_space_used_by_owner_id user_id)
    pure (record { used = used; quota = account.storage_quota })
