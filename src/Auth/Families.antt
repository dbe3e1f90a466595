-- ===== src/Auth/Families.antt =====
-- What refresh requests do to the identifier that a family stores: app/app/auth/services/token.py.
use shelf_back.Base.{
  ℕ, ◌<◌, ◌≡◌, ◌≢◌, refl, ap, ◌∙◌, Option, none, some, List, [], ◌∷◌, arith, inl, inr, Option-cases,
}
use shelf_back.Base.Text.{Text, text_eq_iff, text_eq_refl}
use shelf_back.Base.Exec.{Error, ok, err, invalid_token, reused_token}
use shelf_back.Auth.{
  Jwt, IsJwt, TokenRepository, IsTokenRepository, Ttl, RefreshToken, rotate_token, build_access,
  rotate,
}

module _ (J : Jwt) (R : TokenRepository) (ttl : Ttl) where
  -- A batch of refresh requests, each with its time, the identifier it draws and its token. A
  -- request that fails answers an error, and the next one is served.
  unfoldable pub serve : List (ℕ × Text × Text) → R.State → R.State
  serve [] s = s
  serve ((now, new_id, encoded) ∷ requests) s =
      serve requests (rotate J R ttl now new_id encoded s).1

-- None of the requests draws the identifier.
abbrev pub DrawsNo : Text → List (ℕ × Text × Text) → Type 0
DrawsNo id [] = Unit
DrawsNo id ((now, new_id, encoded) ∷ requests) = (new_id ≢ id) × DrawsNo id requests

-- How a token that its family does not store is refused.
abbrev pub refusal_of : Option Text → Error
refusal_of none = invalid_token
refusal_of (some v) = reused_token

pub some_injective : {x y : Text} → some x ≡ some y → x ≡ y
some_injective e = cc

module _ (J : Jwt) (R : TokenRepository) (ttl : Ttl) (W : IsJwt J) (L : IsTokenRepository R) where
  -- A presented token rotates exactly when its family stores its identifier.
  pub rotate_current :
      (now : ℕ) (new_id : Text) (t : RefreshToken) (s : R.State)
      → now < t.exp
      → R.get s t.family_id ≡ some t.token_id
      → rotate J R ttl now new_id (J.encode_refresh t) s ≡ (
        ok (record {
          access = J.encode_access (build_access ttl now t.sub);
          refresh = J.encode_refresh (rotate_token new_id t);
        }),
        R.set s t.family_id new_id,
      )
  unfolding rotate
  rotate_current now new_id t s alive stored =
      rw (W.decode-encode now t alive, stored, text_eq_refl t.token_id)

  pub rotate_stale :
      (now : ℕ) (new_id v : Text) (t : RefreshToken) (s : R.State)
      → now < t.exp
      → R.get s t.family_id ≡ some v
      → v ≢ t.token_id
      → rotate J R ttl now new_id (J.encode_refresh t) s
        ≡ (err reused_token, R.delete s t.family_id)
  unfolding rotate
  rotate_stale now new_id v t s alive stored ne =
      rw (W.decode-encode now t alive, stored) (ground (arith, text_eq_iff v t.token_id))

  -- No request, whatever its token, revives a family that is revoked.
  pub rotate_revoked :
      (now : ℕ) (new_id encoded family : Text) (s : R.State)
      → R.get s family ≡ none
      → R.get (rotate J R ttl now new_id encoded s).1 family ≡ none
  unfolding rotate
  rotate_revoked now new_id encoded family s gone =
      elim (Option-cases (J.decode_refresh now encoded)) [
        | inl refused ↦ rw refused gone
        | inr (t, e) ↦ rw e (elim (Option-cases (R.get s t.family_id)) [
          | inl absent ↦ rw absent gone
          | inr (v, stored) ↦ rw stored (
              ground (
                arith,
                L.get-set s t.family_id new_id family,
                L.get-delete s t.family_id family,
                text_eq_iff t.family_id family,
                text_eq_iff v t.token_id,
              ))
        ])
      ]

  pub serve_revoked :
      (requests : List (ℕ × Text × Text)) (family : Text) (s : R.State)
      → R.get s family ≡ none
      → R.get (serve J R ttl requests s) family ≡ none
  unfolding serve
  serve_revoked [] family s gone = gone
  serve_revoked ((now, new_id, encoded) ∷ requests) family s gone =
      serve_revoked requests family _ (rotate_revoked now new_id encoded family s gone)

  pub rotate_unknown :
      (now : ℕ) (new_id : Text) (t : RefreshToken) (s : R.State)
      → now < t.exp
      → R.get s t.family_id ≡ none
      → rotate J R ttl now new_id (J.encode_refresh t) s ≡ (err invalid_token, s)
  unfolding rotate
  rotate_unknown now new_id t s alive gone = rw (W.decode-encode now t alive, gone)

  -- No request gives a family an identifier that it does not draw.
  pub rotate_fresh :
      (now : ℕ) (new_id encoded family id : Text) (s : R.State)
      → new_id ≢ id
      → R.get s family ≢ some id
      → R.get (rotate J R ttl now new_id encoded s).1 family ≢ some id
  unfolding rotate
  rotate_fresh now new_id encoded family id s ne h =
      elim (Option-cases (J.decode_refresh now encoded)) [
        | inl refused ↦ rw refused h
        | inr (t, e) ↦ rw e (elim (Option-cases (R.get s t.family_id)) [
          | inl absent ↦ rw absent h
          | inr (v, stored) ↦ rw stored (
              ground (
                arith,
                ne,
                h,
                L.get-set s t.family_id new_id family,
                L.get-delete s t.family_id family,
                text_eq_iff t.family_id family,
                text_eq_iff v t.token_id,
              ))
        ])
      ]

  pub serve_fresh :
      (requests : List (ℕ × Text × Text)) (family id : Text) (s : R.State)
      → DrawsNo id requests
      → R.get s family ≢ some id
      → R.get (serve J R ttl requests s) family ≢ some id
  unfolding serve
  serve_fresh [] family id s draws h = h
  serve_fresh ((now, new_id, encoded) ∷ requests) family id s (ne, draws) h =
      serve_fresh requests family id _ draws (rotate_fresh now new_id encoded family id s ne h)

  -- A token whose identifier its family does not store is refused, and the family is revoked.
  pub rotate_refused :
      (now : ℕ) (new_id : Text) (t : RefreshToken) (s : R.State)
      → now < t.exp
      → R.get s t.family_id ≢ some t.token_id
      → ((rotate J R ttl now new_id (J.encode_refresh t) s).0
          ≡ err (refusal_of (R.get s t.family_id)))
        × (R.get (rotate J R ttl now new_id (J.encode_refresh t) s).1 t.family_id ≡ none)
  rotate_refused now new_id t s alive h = elim (Option-cases (R.get s t.family_id)) [
    | inl absent ↦ rw (rotate_unknown now new_id t s alive absent, absent) (refl, refl)
    | inr (v, stored) ↦
        let ne : v ≢ t.token_id = λ same. h (stored ∙ ap (λ x. some x) same) in
        rw (rotate_stale now new_id v t s alive stored ne, stored)
          (refl, rw (L.get-delete, text_eq_refl t.family_id))
  ]
