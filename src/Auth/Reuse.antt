-- ===== src/Auth/Reuse.antt =====
-- What `TokenService` guarantees of a session: app/app/auth/services/token.py.
use shelf_back.Base.{ℕ, ◌<◌, ◌≡◌, refl, ap, ◌+◌, some}
use shelf_back.Base.Text.{Text, text_eq_refl}
use shelf_back.Base.Exec.{Result, ok}
use shelf_back.Auth.{
  Jwt, IsJwt, TokenRepository, IsTokenRepository, Ttl, Tokens, rotate_token, build_access,
  build_refresh, create, rotate,
}
use shelf_back.Auth.Families.{rotate_current}

module _ (J : Jwt) (R : TokenRepository) (ttl : Ttl) (W : IsJwt J) (L : IsTokenRepository R) where
  -- The two tokens that a sign-in grants work together: the refresh token, presented before it
  -- expires, is exchanged for one of the same family, subject and expiry with the new identifier,
  -- and the family then stores that identifier.
  pub rotate-create :
      (now₁ now₂ : ℕ) (family token_id new_id user_id : Text) (s : R.State)
      → now₂ < now₁ + ttl.refresh_token
      → let granted = create J R ttl now₁ family token_id user_id s in
        let t = build_refresh ttl now₁ family token_id user_id in
        (granted.0
          ≡ ok (record {
            access = J.encode_access (build_access ttl now₁ user_id);
            refresh = J.encode_refresh t;
          }))
        × ((rotate J R ttl now₂ new_id (J.encode_refresh t) granted.1).0
            ≡ ok (record {
              access = J.encode_access (build_access ttl now₂ user_id);
              refresh = J.encode_refresh (rotate_token new_id t);
            }))
        × (R.get (rotate J R ttl now₂ new_id (J.encode_refresh t) granted.1).1 family ≡ some new_id)
  unfolding create
  rotate-create now₁ now₂ family token_id new_id user_id s alive =
      let t = build_refresh ttl now₁ family token_id user_id in
      let stored : R.get (R.set s family token_id) family ≡ some token_id =
        rw (L.get-set s family token_id family, text_eq_refl family) in
      let p = rotate_current J R ttl W L now₂ new_id t (R.set s family token_id) alive stored in
      (
        refl,
        ap (λ (x : Result Tokens × R.State). x.0) p,
        rw p (rw (L.get-set, text_eq_refl family)),
      )
