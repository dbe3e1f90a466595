-- ===== src/Api/Accounts/Refresh.antt =====
-- How the view that refreshes tokens can end, app/api/auth/views.py.
use shelf_back.Base.{ℕ, ◌≡◌, refl, Bool, true, false, Option, none, some}
use shelf_back.Base.Text.{Text}
use shelf_back.Base.Exec.{Error, Result, ok, err, invalid_token, reused_token}
use shelf_back.Base.Raises.{Raises, raise_rules}
use shelf_back.Auth
use shelf_back.Auth.{Jwt, TokenRepository, Ttl, Tokens, RefreshToken}
use shelf_back.Api.{Reply, answer, refusal, api_invalid_token, reply_of}
use shelf_back.Api.Accounts.{refresh_tokens, on_refresh, same}

-- Tokens, or the one refusal
pub data Refreshed : Reply Tokens → Type 0 where
  granted : (tokens : Tokens) → Refreshed (answer tokens)
  refused : Refreshed (refusal api_invalid_token)

abbrev of_tokens : Error → Bool
of_tokens invalid_token = true
of_tokens reused_token = true
of_tokens e = false

module _ (J : Jwt) (R : TokenRepository) (ttl : Ttl) (now : ℕ) where
  rotate_found-Raises :
      (new_id : Text) (token : RefreshToken) (token_id : Text)
      → Raises of_tokens (Auth.rotate_found J R ttl now new_id token token_id)
  unfolding Auth.rotate_found
  rotate_found-Raises new_id token token_id = search raise_rules depth 14

  rotate-Raises : (new_id token : Text) → Raises of_tokens (Auth.rotate J R ttl now new_id token)
  unfolding Auth.rotate
  rotate-Raises new_id token = search (raise_rules, rotate_found-Raises) depth 14

  caught-Refreshed :
      (r : Result Tokens)
      → ((e : Error) → r ≡ err e → of_tokens e ≡ true)
      → Refreshed (reply_of on_refresh same r)
  caught-Refreshed (ok tokens) h = granted tokens
  caught-Refreshed (err invalid_token) h = refused
  caught-Refreshed (err reused_token) h = refused
  caught-Refreshed (err e) h = let no = h e refl in cc

  -- Whatever the header is and whatever the sessions are, the view grants tokens or refuses with
  -- `InvalidToken`; it never ends with an exception that it did not catch.
  pub refresh_tokens-Refreshed :
      (new_id : Text) (header : Option Text) (s : R.State)
      → Refreshed (refresh_tokens J R ttl now new_id header s).0
  unfolding refresh_tokens
  refresh_tokens-Refreshed new_id none s = refused
  refresh_tokens-Refreshed new_id (some token) s =
      caught-Refreshed (Auth.rotate J R ttl now new_id token s).0
        ((rotate-Raises new_id token).at s)
