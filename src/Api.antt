-- ===== src/Api.antt =====
-- The HTTP layer, app/api: its errors (exceptions.py, files/exceptions.py and photos/exceptions.py) and
-- its pages (paginator.py). A view is the function under a route; the framework answers an `APIError`
-- with its status, and any other exception with 500.
pub mod Albums
pub mod Downloads
pub mod Files
pub mod MediaItems
pub mod Accounts
pub mod Sharing
use shelf_back.Base.{
  ℕ, ◌+◌, ◌-◌, ◌*◌, ◌≡◌, Bool, true, false, not, ◌&&◌, Option, none, some, leb, ltb,
}
use shelf_back.Base.Exec.{
  Error, Exec, Result, ok, err, assertion_error, guard, pure, continue, ◌>>=◌, ◌>>◌,
}

-- The subclasses of `APIError`
pub data ApiError : Type 0 where
  api_missing_token api_invalid_token api_permission_denied api_rate_limited : ApiError
  api_user_not_found api_unverified_user api_download_not_found api_file_action_not_allowed :
      ApiError
  api_file_already_deleted api_file_already_exists api_file_content_metadata_not_found : ApiError
  api_is_a_directory api_malformed_path api_not_a_directory api_path_not_found : ApiError
  api_storage_quota_exceeded api_thumbnail_unavailable api_upload_file_too_large : ApiError
  api_shared_link_not_found api_invalid_credentials api_sign_up_disabled api_user_already_exists :
      ApiError
  api_email_already_taken api_email_update_limit_reached api_email_update_not_started : ApiError
  api_email_update_started api_otp_code_already_sent api_user_email_already_verified : ApiError
  api_user_email_is_missing : ApiError
  api_album_not_found api_media_item_content_metadata_not_found api_media_item_not_found : ApiError

-- `status_code`
unfoldable pub status_code : ApiError → ℕ
status_code api_missing_token = 401
status_code api_invalid_token = 403
status_code api_permission_denied = 403
status_code api_rate_limited = 429
status_code api_user_not_found = 404
status_code api_unverified_user = 403
status_code api_download_not_found = 404
status_code api_file_action_not_allowed = 403
status_code api_file_already_deleted = 400
status_code api_file_already_exists = 400
status_code api_file_content_metadata_not_found = 404
status_code api_is_a_directory = 400
status_code api_malformed_path = 400
status_code api_not_a_directory = 400
status_code api_path_not_found = 404
status_code api_storage_quota_exceeded = 400
status_code api_thumbnail_unavailable = 400
status_code api_upload_file_too_large = 400
status_code api_shared_link_not_found = 404
status_code api_invalid_credentials = 401
status_code api_sign_up_disabled = 400
status_code api_user_already_exists = 400
status_code api_email_already_taken = 400
status_code api_email_update_limit_reached = 400
status_code api_email_update_not_started = 400
status_code api_email_update_started = 400
status_code api_otp_code_already_sent = 400
status_code api_user_email_already_verified = 400
status_code api_user_email_is_missing = 400
status_code api_album_not_found = 404
status_code api_media_item_content_metadata_not_found = 404
status_code api_media_item_not_found = 404

-- What a request is answered with: the view's value, an error of the API, or an exception that the view
-- did not catch.
pub data Reply (A : Type 0) : Type 0 where
  answer : A → Reply A
  refusal : ApiError → Reply A
  failure : Error → Reply A

unfoldable pub status : {A : Type 0} → Reply A → ℕ
status (answer a) = 200
status (refusal e) = status_code e
status (failure e) = 500

-- The `except` clauses around the call of a use case
abbrev pub Caught : Type 0
Caught = Error → Option ApiError

abbrev pub nothing_caught : Caught
nothing_caught e = none

abbrev caught_as : {A : Type 0} → Option ApiError → Error → Reply A
caught_as none e = failure e
caught_as (some api_error) e = refusal api_error

abbrev pub reply_of : {A B : Type 0} → Caught → (A → B) → Result A → Reply B
reply_of caught schema (ok a) = answer (schema a)
reply_of caught schema (err e) = caught_as (caught e) e

abbrev pub view : {S A B : Type 0} → Caught → (A → B) → Exec S A → S → Reply B × S
view caught schema m s = let (r, s') = m s in (reply_of caught schema r, s')

-- `get_offset`
unfoldable pub get_offset : {S : Type 0} → ℕ → ℕ → Exec S ℕ
get_offset page size = do
  guard (ltb 0 page) assertion_error
  guard (ltb 0 size) assertion_error
  pure ((page - 1) * size)

-- `Query(ge=1)` of a page, and `Query(ge=100, le=1000)` of a page's size
abbrev pub is_page : ℕ → ℕ → Bool
is_page page page_size = leb 1 page && (leb 100 page_size && leb page_size 1000)

-- A dependency of a view, which may answer in its place
abbrev pub proceed : {S A B : Type 0} → (A → S → Reply B × S) → Reply A × S → Reply B × S
proceed f (answer a, s) = f a s
proceed f (refusal e, s) = (refusal e, s)
proceed f (failure e, s) = (failure e, s)

abbrev pub after : {S A B : Type 0} → (S → Reply A × S) → (A → S → Reply B × S) → S → Reply B × S
after dependency f s = proceed f (dependency s)
