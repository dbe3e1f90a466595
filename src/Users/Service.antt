-- ===== src/Users/Service.antt =====
-- `UserService`, app/app/users/services/user.py, and the e-mail methods of `UserUseCase`,
-- app/app/users/usecases/user.py. The clock comes as `now`, what `make_otp_code` draws as `code`.
use shelf_back.Base.{
  ℕ, Bool, true, false, not, ◌&&◌, Option, none, some, [], ◌∷◌, ◌++◌, if◌then◌else◌, all, leb,
}
use shelf_back.Base.Text.{Text, codes, text_eq}
use shelf_back.Base.Exec.{
  Exec, ok, err, user_already_exists, invalid_credentials, email_already_verified, email_is_missing,
  email_update_already_started, email_update_not_started, email_update_limit_reached,
  otp_code_already_sent, type_error, pure, raise, gets, modify, guard, atomic, ◌>>=◌, ◌>>◌,
}
use shelf_back.Files.Model.{Env}
use shelf_back.Users.{User, Cache, Credentials, Mail, UserDb}
use shelf_back.Users.Repository
use shelf_back.Users.Repository.{has_id, has_email, has_username}

-- What is left of a cached text by `if not text`.
abbrev pub given : Option Text → Option Text
given none = none
given (some []) = none
given (some (c ∷ s)) = some (c ∷ s)

abbrev pub is_ascii : Text → Bool
is_ascii = all (λ c. leb c 127)

-- `secrets.compare_digest` on two `str`
abbrev pub compare_digest : {S : Type 0} → Text → Text → Exec S Bool
compare_digest a b s =
    if is_ascii a && is_ascii b then (ok (text_eq a b), s) else (err type_error, s)

abbrev pub with_email : Text → User → User
with_email email u = record u { email = some email; email_verified = true }

module _ (V : Env) where
  abbrev pub email_key : ℕ → Text
  email_key user_id = codes "email_update:" ++ (V.uuid_text user_id ++ codes ":email")

  abbrev pub code_key : ℕ → Text
  code_key user_id = codes "email_update:" ++ (V.uuid_text user_id ++ codes ":code")

  -- `_verify_email_key`
  abbrev pub verify_key : ℕ → Text
  verify_key user_id = codes "otp:verify_email:" ++ V.uuid_text user_id

  abbrev pub completed_key : ℕ → Text
  completed_key user_id = codes "change_email:" ++ (V.uuid_text user_id ++ codes ":completed")

module _ (V : Env) (C : Cache) where
  abbrev pub cached : ℕ → Text → Exec (UserDb C) (Option Text)
  cached now key = gets (λ db. C.get now db.cache key)

  abbrev pub cache_new : ℕ → Text → Text → ℕ → Exec (UserDb C) Bool
  cache_new now key value expire db =
      let (b, cache) = C.set_new now key value expire db.cache in
      (ok b, record db { cache = cache })

  -- `taskgroups.schedule(self._send_email_verification_code(…))`
  abbrev pub schedule_mail : Mail → Exec (UserDb C) Unit
  schedule_mail mail = modify (λ db. record db { mails = db.mails ++ (mail ∷ []) })

  -- The end of `change_email_complete`, with the address and the code of the cache
  unfoldable pub confirm : ℕ → Text → Text → Text → Exec (UserDb C) Bool
  confirm user_id email code expected_code = do
    verified ← compare_digest code expected_code
    if verified
        then (do Repository.update C user_id (with_email email); pure verified)
        else pure verified

  unfoldable pub change_email_complete : ℕ → ℕ → Text → Exec (UserDb C) Bool
  change_email_complete now user_id code = do
    email ← cached now (email_key V user_id)
    expected_code ← cached now (code_key V user_id)
    elim (given email) [
      | none ↦ raise email_update_not_started
      | some email ↦ elim (given expected_code) [
        | none ↦ pure false
        | some expected_code ↦ confirm user_id email code expected_code
      ]
    ]

  -- `change_email_resend_code` once the address is known
  unfoldable pub send_code : ℕ → ℕ → Text → Text → Exec (UserDb C) Unit
  send_code now user_id code email = do
    set ← cache_new now (code_key V user_id) code 120
    guard set otp_code_already_sent
    user ← Repository.get C (has_id user_id)
    schedule_mail (record { display_name = user.display_name; email = email; code = code })

  unfoldable pub change_email_resend_code : ℕ → ℕ → Text → Exec (UserDb C) Unit
  change_email_resend_code now user_id code = do
    email ← cached now (email_key V user_id)
    elim (given email) [
      | none ↦ raise email_update_not_started
      | some email ↦ send_code now user_id code email
    ]

  unfoldable pub change_email_start : ℕ → ℕ → Text → Text → Exec (UserDb C) Unit
  change_email_start now user_id email code = do
    exists ← Repository.exists_with_email C email
    guard (not exists) user_already_exists
    set ← cache_new now (email_key V user_id) email 600
    guard set email_update_already_started
    change_email_resend_code now user_id code

  -- `UserUseCase.change_email_start` and `UserUseCase.change_email_complete`
  unfoldable pub email_start : ℕ → ℕ → Text → Text → Exec (UserDb C) Unit
  email_start now user_id email code = do
    limited ← gets (λ db. C.exists now db.cache (completed_key V user_id))
    guard (not limited) email_update_limit_reached
    change_email_start now user_id email code

  unfoldable pub email_complete : ℕ → ℕ → Text → Exec (UserDb C) Bool
  email_complete now user_id code = do
    completed ← change_email_complete now user_id code
    modify
        (λ db. record db { cache = C.set now (completed_key V user_id) (codes "1") 21600 db.cache })
    pure completed

  -- `verify_email_send_code`, with the address of the user
  unfoldable pub verify_send : ℕ → ℕ → User → Text → Text → Exec (UserDb C) Unit
  verify_send now user_id user code email = do
    guard (not user.email_verified) email_already_verified
    set ← cache_new now (verify_key V user_id) code 120
    guard set otp_code_already_sent
    schedule_mail (record { display_name = user.display_name; email = email; code = code })

  unfoldable pub verify_email_send_code : ℕ → ℕ → Text → Exec (UserDb C) Unit
  verify_email_send_code now user_id code = do
    user ← Repository.get C (has_id user_id)
    elim (given user.email) [
      | none ↦ raise email_is_missing
      | some email ↦ verify_send now user_id user code email
    ]

  -- `compare_digest` on the encoded texts
  unfoldable pub verify_email_complete : ℕ → ℕ → Text → Exec (UserDb C) Bool
  verify_email_complete now user_id code = do
    expected_code ← cached now (verify_key V user_id)
    elim (given expected_code) [
      | none ↦ pure false
      | some expected_code ↦
          if text_eq code expected_code
          then (do Repository.update C user_id (λ u. record u { email_verified = true }); pure true)
          else pure false
    ]

  unfoldable pub create :
      Credentials → ℕ → Text → Text → Option Text → Text → Bool → Option ℕ → Exec (UserDb C) User
  create K now username password email display_name superuser storage_quota = atomic (do
    user ← Repository.save C V (record {
      id = 0;
      username = V.lower username;
      password = K.make_password password;
      email = email;
      email_verified = false;
      display_name = display_name;
      created_at = now;
      last_login_at = none;
      active = true;
      superuser = superuser;
    })
    Repository.save_account C V
        (record { id = 0; user_id = user.id; storage_quota = storage_quota })
    pure user)

  unfoldable pub get_by_username : Credentials → Text → Exec (UserDb C) User
  get_by_username K username = Repository.get C (has_username (K.strip (V.lower username)))

  unfoldable pub signin : Credentials → ℕ → Text → Text → Exec (UserDb C) User
  signin K now email_or_username password = do
    let login = K.strip (V.lower email_or_username)
    user ← Repository.get C (if K.is_email login then has_email login else has_username login)
    guard (K.check_password password user.password) invalid_credentials
    Repository.update C user.id (λ u. record u { last_login_at = some now })
    pure user
