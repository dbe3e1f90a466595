-- ===== src/Users/Verification.antt =====
-- The verification of the current address of a user: app/app/users/services/user.py.
use shelf_back.Base.{
  ℕ, ◌+◌, ◌≤◌, ◌<◌, ◌≡◌, refl, true, false, inl, inr, none, some, [], ◌∷◌, ◌++◌, if◌then◌else◌,
  keep_if, any, update_where, Bool-cases, is_nil,
}
use shelf_back.Base.Text.{Text, text_eq}
use shelf_back.Base.Exec.{ok, err, otp_code_already_sent}
use shelf_back.Files.Model.{Env}
use shelf_back.Users.{User, Cache, IsCache, UserDb}
use shelf_back.Users.Repository
use shelf_back.Users.Repository.{has_id, is_taken}
use shelf_back.Users.Service.{
  verify_key, verify_send, verify_email_send_code, verify_email_complete,
}
use shelf_back.Users.EmailChange.{get-set_same, any-and, keep_if-update_where}

abbrev pub verified : User → User
verified u = record u { email_verified = true }

module _ (C : Cache) (id : ℕ) (u : User) (db : UserDb C) where
  update-verified :
      keep_if (has_id id) db.users ≡ u ∷ []
      → is_taken id u db.users ≡ false
      → Repository.update C id verified db
        ≡ (ok (verified u), record db { users = update_where (has_id id) verified db.users })
  unfolding Repository.update is_taken
  update-verified one alone =
      rw
        (
          any-and (has_id id) (λ v. is_taken id (verified v) db.users) db.users,
          one,
          keep_if-update_where id verified db.users (λ v. refl),
          one,
        )
        (unfold any in rw alone)

-- Takes a user with an address that is not verified, a name and an address that no other row has, and
-- a time at which no code is cached. `verify_email_send_code` succeeds and sends a code to the
-- address. Within two minutes a second request is refused with `OTPCodeAlreadySent` and changes
-- nothing, and `verify_email_complete` returns whether the code that it is given is the one that was
-- sent; if it is, the user's row is marked as verified, and otherwise no row changes.
pub verify_email_lem :
    (V : Env) (C : Cache) (L : IsCache C) (now t id : ℕ) (u : User)
    (email code next_code tried : Text) (db : UserDb C)
    → now ≤ t
    → t < now + 120
    → is_nil email ≡ false
    → is_nil code ≡ false
    → keep_if (has_id id) db.users ≡ u ∷ []
    → u.email ≡ some email
    → u.email_verified ≡ false
    → is_taken id u db.users ≡ false
    → C.get now db.cache (verify_key V id) ≡ none
    → let sent = verify_email_send_code V C now id code db in
      let completed = verify_email_complete V C t id tried sent.1 in
      (sent.0 ≡ ok tt)
      × (sent.1.mails
          ≡ db.mails ++ (record { display_name = u.display_name; email = email; code = code } ∷ []))
      × (verify_email_send_code V C t id next_code sent.1 ≡ (err otp_code_already_sent, sent.1))
      × (completed.0 ≡ ok (text_eq tried code))
      × (completed.1.users
          ≡ (if text_eq tried code then update_where (has_id id) verified db.users else db.users))
unfolding verify_email_send_code verify_send verify_email_complete Repository.get
verify_email_lem V C L now t id u [] _ next_code tried db le lt n m _ _ _ _ _ = cc
verify_email_lem V C L now t id u (a ∷ s) [] next_code tried db le lt n m _ _ _ _ _ = cc
verify_email_lem V C L now t id u (a ∷ s) (b ∷ r) next_code tried db le lt n m one address new alone
      fresh =
    let cached = get-set_same V C L t now 120 (verify_key V id) (b ∷ r) db.cache le lt in
    let sent : UserDb C = record db {
      cache = C.set now (verify_key V id) (b ∷ r) 120 db.cache;
      mails =
          db.mails ++ (record { display_name = u.display_name; email = a ∷ s; code = b ∷ r } ∷ []);
    } in
    rw
      (
        one,
        address,
        new,
        L.set_new-none now 120 _ (b ∷ r) _ fresh,
        one,
        address,
        new,
        L.set_new-some t 120 (verify_key V id) next_code (b ∷ r) _ cached,
        cached,
      )
      (elim (Bool-cases (text_eq tried (b ∷ r))) [
        | inl same ↦ rw (same, update-verified C id u sent one alone) (refl, refl, refl, refl, refl)
        | inr other ↦ rw other (refl, refl, refl, refl, refl)
      ])
