-- ===== src/Auth.antt =====
-- Sessions: app/app/auth/domain/tokens.py, services/token.py and repositories/token.py. The JWT
-- library and the cache behind `ITokenRepository` are interfaces; random identifiers and the clock
-- are arguments.
pub mod Families
pub mod Reuse
use shelf_back.Base.{ℕ, ◌+◌, ◌<◌, ◌≡◌, Bool, not, Option, none, some, if◌then◌else◌}
use shelf_back.Base.Text.{Text, text_eq}
use shelf_back.Base.Exec.{
  Exec, Result, ok, err, Error, invalid_token, reused_token, pure, raise, or_raise, gets, modify,
  continue, ◌>>=◌, ◌>>◌,
}

pub record AccessToken : Type 0 where
  pub sub : Text
  pub exp : ℕ

pub record RefreshToken : Type 0 where
  pub sub : Text
  pub exp : ℕ
  pub family_id : Text
  pub token_id : Text

-- `jose.jwt` under one secret key. `decode` is given the time, since it refuses a token that has
-- expired; a refusal of any kind (`JWTError`, `ValidationError`) is `none`.
pub record Jwt : Type 0 where
  pub encode_access : AccessToken → Text
  pub encode_refresh : RefreshToken → Text
  pub decode_refresh : ℕ → Text → Option RefreshToken

-- What is encoded can be decoded until it expires.
pub record IsJwt (J : Jwt) : Type 0 where
  pub decode-encode :
      (now : ℕ) (t : RefreshToken)
      → now < t.exp
      → J.decode_refresh now (J.encode_refresh t) ≡ some t

-- `ITokenRepository`
pub record TokenRepository : Type 1 where
  pub State : Type 0
  pub get : State → Text → Option Text
  pub set : State → Text → Text → State
  pub delete : State → Text → State

-- A key that does not expire in the meantime holds the last value set.
pub record IsTokenRepository (R : TokenRepository) : Type 0 where
  pub get-set :
      (s : R.State) (k v j : Text)
      → R.get (R.set s k v) j ≡ (if text_eq k j then some v else R.get s j)
  pub get-delete :
      (s : R.State) (k j : Text)
      → R.get (R.delete s k) j ≡ (if text_eq k j then none else R.get s j)

pub record Tokens : Type 0 where
  pub access : Text
  pub refresh : Text

-- `config.auth.access_token_ttl` and `refresh_token_ttl`
pub record Ttl : Type 0 where
  pub access_token : ℕ
  pub refresh_token : ℕ

-- `AccessToken.build`
abbrev pub build_access : Ttl → ℕ → Text → AccessToken
build_access ttl now user_id = record { sub = user_id; exp = now + ttl.access_token }

-- `RefreshToken.build`, with the two random identifiers that it draws
abbrev pub build_refresh : Ttl → ℕ → Text → Text → Text → RefreshToken
build_refresh ttl now family_id token_id user_id = record {
  sub = user_id;
  exp = now + ttl.refresh_token;
  family_id = family_id;
  token_id = token_id;
}

-- `RefreshToken.rotate`, with the identifier that it draws
abbrev pub rotate_token : Text → RefreshToken → RefreshToken
rotate_token token_id t = record t { token_id = token_id }

module _ (J : Jwt) (R : TokenRepository) (ttl : Ttl) where
  -- `TokenService.create`
  unfoldable pub create : ℕ → Text → Text → Text → Exec R.State Tokens
  create now family_id token_id user_id = do
    let access_token = build_access ttl now user_id
    let refresh_token = build_refresh ttl now family_id token_id user_id
    modify (λ s. R.set s refresh_token.family_id refresh_token.token_id)
    pure
        (record { access = J.encode_access access_token; refresh = J.encode_refresh refresh_token })

  -- The body of `TokenService.rotate` once the token is decoded and its family looked up.
  unfoldable pub rotate_found : ℕ → Text → RefreshToken → Text → Exec R.State Tokens
  rotate_found now new_id refresh_token token_id =
      if not (text_eq token_id refresh_token.token_id)
      then (do modify (λ s. R.delete s refresh_token.family_id); raise reused_token)
      else (do
        let rotated = rotate_token new_id refresh_token
        modify (λ s. R.set s rotated.family_id rotated.token_id)
        pure (record {
          access = J.encode_access (build_access ttl now refresh_token.sub);
          refresh = J.encode_refresh rotated;
        }))

  -- `TokenService.rotate`
  unfoldable pub rotate : ℕ → Text → Text → Exec R.State Tokens
  unfolding rotate_found
  rotate now new_id encoded_refresh_token = do
    refresh_token ← or_raise (J.decode_refresh now encoded_refresh_token) invalid_token
    found ← gets (λ s. R.get s refresh_token.family_id)
    token_id ← or_raise found invalid_token
    rotate_found now new_id refresh_token token_id
