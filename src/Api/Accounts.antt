-- ===== src/Api/Accounts.antt =====
-- The views of sessions, accounts and bookmarks: app/api/auth/views.py, app/api/accounts/views.py and
-- app/api/users/views.py. The response models are copies of fields. What the rate limiter, which is the
-- cache library's, says of a call is an argument.
pub mod Refresh
use shelf_back.Base.{ℕ, ◌≡◌, Bool, true, false, Option, none, some, List, if◌then◌else◌}
use shelf_back.Base.Int.{ℤ}
use shelf_back.Base.Text.{Text}
use shelf_back.Base.Exec.{
  Error, Exec, Result, invalid_credentials, user_already_exists, invalid_token, reused_token,
  email_update_not_started, email_update_already_started, email_update_limit_reached,
  otp_code_already_sent, email_already_verified, email_is_missing,
}
use shelf_back.Files.Model.{Env}
use shelf_back.Users.{Cache, Credentials, UserDb}
use shelf_back.Users.Service
use shelf_back.Users.Bookmarks
use shelf_back.Users.Bookmarks.{Bookmark, BookmarkDb}
use shelf_back.Auth
use shelf_back.Auth.{Jwt, TokenRepository, Ttl, Tokens}
use shelf_back.Registration
use shelf_back.Registration.{Registry, AccountSpaceUsage}
use shelf_back.Api.{
  ApiError, api_invalid_token, api_rate_limited, api_invalid_credentials, api_sign_up_disabled,
  api_user_already_exists, api_email_already_taken, api_email_update_limit_reached,
  api_email_update_not_started, api_email_update_started, api_otp_code_already_sent,
  api_user_email_already_verified, api_user_email_is_missing, Reply, refusal, Caught,
  nothing_caught, view,
}

abbrev on_sign_in : Caught
on_sign_in invalid_credentials = some api_invalid_credentials
on_sign_in e = none

abbrev on_sign_up : Caught
on_sign_up user_already_exists = some api_user_already_exists
on_sign_up e = none

-- `TokenError` and its subclasses
abbrev pub on_refresh : Caught
on_refresh invalid_token = some api_invalid_token
on_refresh reused_token = some api_invalid_token
on_refresh e = none

abbrev on_change_email_complete : Caught
on_change_email_complete email_update_not_started = some api_email_update_not_started
on_change_email_complete e = none

abbrev on_change_email_resend_code : Caught
on_change_email_resend_code otp_code_already_sent = some api_otp_code_already_sent
on_change_email_resend_code email_update_not_started = some api_email_update_not_started
on_change_email_resend_code e = none

abbrev on_change_email_start : Caught
on_change_email_start user_already_exists = some api_email_already_taken
on_change_email_start email_update_already_started = some api_email_update_started
on_change_email_start email_update_limit_reached = some api_email_update_limit_reached
on_change_email_start e = none

abbrev on_verify_email_send_code : Caught
on_verify_email_send_code otp_code_already_sent = some api_otp_code_already_sent
on_verify_email_send_code email_already_verified = some api_user_email_already_verified
on_verify_email_send_code email_is_missing = some api_user_email_is_missing
on_verify_email_send_code e = none

-- `@cache.rate_limit(…)`, where `allowed` is what the limiter says
abbrev rate_limit : {S A : Type 0} → Bool → (S → Reply A × S) → S → Reply A × S
rate_limit allowed f s = if allowed then f s else (refusal api_rate_limited, s)

abbrev pub same : {A : Type 0} → A → A
same a = a

module _ (J : Jwt) (R : TokenRepository) (ttl : Ttl) (now : ℕ) where
  -- `refresh_tokens`, with the header as an option
  unfoldable pub refresh_tokens : Text → Option Text → R.State → Reply Tokens × R.State
  refresh_tokens new_id none s = (refusal api_invalid_token, s)
  refresh_tokens new_id (some refresh_token) s =
      view on_refresh same (Auth.rotate J R ttl now new_id refresh_token) s

  module _ (C : Cache) (V : Env) (K : Credentials) (family_id token_id : Text) where
    unfoldable sign_in : Text → Text → Registry C R → Reply Tokens × Registry C R
    sign_in username password =
        view on_sign_in same
          (Registration.signin C R V K now J ttl family_id token_id username password)

    unfoldable sign_up :
        Bool → Option ℕ → Text → Text → Text → Registry C R → Reply Tokens × Registry C R
    sign_up sign_up_enabled quota email password display_name s =
        if sign_up_enabled
        then view on_sign_up same
            (Registration.signup C R V K now J ttl family_id token_id quota email password
              display_name)
            s
        else (refusal api_sign_up_disabled, s)

module _ (V : Env) (C : Cache) (allowed : Bool) (now user_id : ℕ) where
  unfoldable pub change_email_complete : Text → UserDb C → Reply Bool × UserDb C
  change_email_complete code =
      rate_limit allowed
        (view on_change_email_complete same (Service.email_complete V C now user_id code))

  unfoldable pub change_email_resend_code : Text → UserDb C → Reply Unit × UserDb C
  change_email_resend_code code = rate_limit allowed (
      view on_change_email_resend_code same (Service.change_email_resend_code V C now user_id code))

  unfoldable pub change_email_start : Text → Text → UserDb C → Reply Unit × UserDb C
  change_email_start email code =
      rate_limit allowed
        (view on_change_email_start same (Service.email_start V C now user_id email code))

  unfoldable pub verify_email_send_code : Text → UserDb C → Reply Unit × UserDb C
  verify_email_send_code code =
      rate_limit allowed
        (view on_verify_email_send_code same (Service.verify_email_send_code V C now user_id code))

  unfoldable pub verify_email_complete : Text → UserDb C → Reply Bool × UserDb C
  verify_email_complete code =
      rate_limit allowed
        (view nothing_caught same (Service.verify_email_complete V C now user_id code))

unfoldable get_space_usage :
    (C : Cache) (R : TokenRepository) → ℕ → Registry C R → Reply AccountSpaceUsage × Registry C R
get_space_usage C R user_id =
    view nothing_caught same (Registration.get_account_space_usage C R user_id)

module _ (user_id : ℕ) where
  unfoldable pub add_bookmark_batch : Env → List ℕ → BookmarkDb → Reply Unit × BookmarkDb
  add_bookmark_batch V file_ids =
      view nothing_caught same (Bookmarks.add_bookmark_batch V user_id file_ids)

  unfoldable pub list_bookmarks : BookmarkDb → Reply (List Bookmark) × BookmarkDb
  list_bookmarks = view nothing_caught same (Bookmarks.list_bookmarks user_id)

  unfoldable remove_bookmark_batch : List ℕ → BookmarkDb → Reply Unit × BookmarkDb
  remove_bookmark_batch file_ids =
      view nothing_caught same (Bookmarks.remove_batch user_id file_ids)
