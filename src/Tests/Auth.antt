-- ===== src/Tests/Auth.antt =====
-- A session over a token cache in memory and tokens that are written out as numbers.
use shelf_back.Base.{
  ℕ, ◌≡◌, refl, ap, Option, none, some, List, [], ◌∷◌, ◌++◌, arith, length, take, drop,
  if◌then◌else◌, ltb,
}
use shelf_back.Base.Text.{Text, text_eq, codes}
use shelf_back.Base.Exec.{ok}
use shelf_back.Api.Accounts.{refresh_tokens}
use shelf_back.Api.Accounts.Refresh.{Refreshed, refresh_tokens-Refreshed}
use shelf_back.Auth.{
  Jwt, IsJwt, TokenRepository, IsTokenRepository, Ttl, RefreshToken, rotate_token, build_refresh,
  create, rotate,
}
use shelf_back.Auth.Reuse.{rotate-create}

take-append : (s t : Text) → take (length s) (s ++ t) ≡ s
take-append [] t = refl
take-append (a ∷ s) t = ap (λ r. a ∷ r) (take-append s t)

drop-append : (s t : Text) → drop (length s) (s ++ t) ≡ t
drop-append [] t = refl
drop-append (a ∷ s) t = drop-append s t

abbrev write : RefreshToken → Text
write t = t.exp ∷ length t.sub ∷ length t.family_id ∷ (t.sub ++ (t.family_id ++ t.token_id))

abbrev read_refresh : ℕ → Text → Option RefreshToken
read_refresh now (exp ∷ m ∷ n ∷ s) =
    if ltb now exp
    then some (record {
      sub = take m s;
      exp = exp;
      family_id = take n (drop m s);
      token_id = drop n (drop m s);
    })
    else none
read_refresh now _ = none

abbrev pub plain_jwt : Jwt
plain_jwt = record {
  encode_access = λ t. t.exp ∷ t.sub;
  encode_refresh = write;
  decode_refresh = read_refresh;
}

plain_jwt-IsJwt : IsJwt plain_jwt
plain_jwt-IsJwt = record {
  decode-encode = λ now t alive. ground (
    arith,
    take-append t.sub (t.family_id ++ t.token_id),
    drop-append t.sub (t.family_id ++ t.token_id),
    take-append t.family_id t.token_id,
    drop-append t.family_id t.token_id,
  );
}

abbrev pub memory : TokenRepository
memory = record {
  State = Text → Option Text;
  get = λ s k. s k;
  set = λ s k v j. if text_eq k j then some v else s j;
  delete = λ s k j. if text_eq k j then none else s j;
}

memory-IsTokenRepository : IsTokenRepository memory
memory-IsTokenRepository = record { get-set = λ s k v j. refl; get-delete = λ s k j. refl }

abbrev pub ttl : Ttl
ttl = record { access_token = 900; refresh_token = 3600 }

abbrev alice : RefreshToken
alice = build_refresh ttl 10 (codes "family") (codes "id-0") (codes "alice")

abbrev signed_in : Text → Option Text
signed_in j = if text_eq (codes "family") j then some (codes "id-0") else none

rotate-create_example :
    let granted =
      create plain_jwt memory ttl 10 (codes "family") (codes "id-0") (codes "alice") (λ j. none) in
    (granted.0 ≡ ok (record { access = 910 ∷ codes "alice"; refresh = write alice }))
    × ((rotate plain_jwt memory ttl 20 (codes "id-1") (write alice) granted.1).0
        ≡ ok (record {
          access = 920 ∷ codes "alice";
          refresh = write (rotate_token (codes "id-1") alice);
        }))
    × ((rotate plain_jwt memory ttl 20 (codes "id-1") (write alice) granted.1).1 (codes "family")
        ≡ some (codes "id-1"))
rotate-create_example =
    rotate-create plain_jwt memory ttl plain_jwt-IsJwt memory-IsTokenRepository 10 20
      (codes "family") (codes "id-0") (codes "id-1") (codes "alice") (λ j. none) (omega arith)

abbrev attack : List (ℕ × Text × Text)
attack = (40, codes "id-4", write alice) ∷ (41, codes "id-5", codes "junk") ∷ []

-- The client goes on with its new token before the old one comes back.
abbrev honest : List (ℕ × Text × Text)
honest = (25, codes "id-9", write (rotate_token (codes "id-1") alice)) ∷ []

refresh_tokens-Refreshed_example :
    Refreshed (refresh_tokens plain_jwt memory ttl 10 (codes "t9") (some (write alice)) signed_in).0
refresh_tokens-Refreshed_example =
    refresh_tokens-Refreshed plain_jwt memory ttl 10 (codes "t9") (some (write alice)) signed_in
