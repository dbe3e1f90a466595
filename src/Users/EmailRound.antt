-- ===== src/Users/EmailRound.antt =====
-- A change of an e-mail address that is started and completed:
-- app/app/users/usecases/user.py and services/user.py.
use shelf_back.Base.{
  ℕ, ◌+◌, ◌≤◌, ◌<◌, ◌≡◌, refl, ◌∙◌, true, false, ◌&&◌, inl, inr, none, some, [], ◌∷◌, ◌++◌,
  if◌then◌else◌, keep_if, any, update_where, Bool-cases, arith, is_nil,
}
use shelf_back.Base.Text.{Text, text_eq}
use shelf_back.Base.Exec.{ok}
use shelf_back.Files.Model.{Env}
use shelf_back.Users.{User, Cache, IsCache, Mail, UserDb}
use shelf_back.Users.Repository
use shelf_back.Users.Repository.{has_id, has_email, has_username, is_taken}
use shelf_back.Users.Service.{
  is_ascii, with_email, email_key, code_key, completed_key, confirm, change_email_complete,
  send_code, change_email_resend_code, change_email_start, email_start, email_complete,
}
use shelf_back.Users.EmailChange.{
  email_key-code_key, code_key-email_key, get-set_same, get-set_other, update-with_email,
}

module _ (V : Env) (C : Cache) (L : IsCache C) (now t id : ℕ) (u : User) (a b : ℕ) (s r : Text)
    (le : now ≤ t) (lt : t < now + 120) where
  abbrev email : Text
  email = a ∷ s

  abbrev code : Text
  code = b ∷ r

  -- The cache after the start.
  abbrev started : C.State → C.State
  started st = C.set now (code_key V id) code 120 (C.set now (email_key V id) email 600 st)

  started-code : (st : C.State) → C.get t (started st) (code_key V id) ≡ some code
  started-code st = get-set_same V C L t now 120 (code_key V id) code _ le lt

  started-email : (st : C.State) → C.get t (started st) (email_key V id) ≡ some email
  started-email st =
      get-set_other V C L t now 120 (code_key V id) code (email_key V id) _ le
        (email_key-code_key V id)
      ∙ get-set_same V C L t now 600 (email_key V id) email st le (omega arith)

  module _ (db : UserDb C) (one : keep_if (has_id id) db.users ≡ u ∷ [])
      (free : any (has_email email) db.users ≡ false) where
    abbrev mail : Mail
    mail = record { display_name = u.display_name; email = email; code = code }

    -- The store after the start.
    abbrev begun : UserDb C
    begun = record db { cache = started db.cache; mails = db.mails ++ (mail ∷ []) }

    email_start_lem :
        C.get now db.cache (completed_key V id) ≡ none
        → C.get now db.cache (email_key V id) ≡ none
        → C.get now (C.set now (email_key V id) email 600 db.cache) (code_key V id) ≡ none
        → email_start V C now id email code db ≡ (ok tt, begun)
    unfolding email_start change_email_start change_email_resend_code send_code
        Repository.exists_with_email Repository.get
    email_start_lem c e k = rw (
      L.exists-none now _ db.cache c,
      free,
      L.set_new-none now 600 _ email db.cache e,
      get-set_same V C L now now 600 (email_key V id) email db.cache (omega arith) (omega arith),
      L.set_new-none now 120 _ code _ k,
      one,
    )

    complete_lem :
        (tried : Text)
        → is_taken id u db.users ≡ false
        → (is_ascii tried && is_ascii code) ≡ true
        → change_email_complete V C t id tried begun ≡ (
            if text_eq tried code
            then (
              ok true,
              record begun { users = update_where (has_id id) (with_email email) db.users },
            )
            else (ok false, begun))
    unfolding change_email_complete confirm
    complete_lem tried alone ascii = elim (Bool-cases (text_eq tried code)) [
      | inl e ↦ rw (
        started-email db.cache,
        started-code db.cache,
        ascii,
        e,
        update-with_email C id email u begun one alone free,
      )
      | inr e ↦ rw (started-email db.cache, started-code db.cache, ascii, e)
    ]

-- Takes a user whose name and address no other row has, an address that no user has, a time at which
-- nothing is cached for the user, and a code that is drawn then. `change_email_start` succeeds and
-- sends the code to the new address. Within two minutes `change_email_complete` returns whether the
-- code that it is given is the one that was sent; if it is, the user's row gets the address and is
-- marked as verified, and otherwise no row changes. In either case every other row stays.
pub email_complete_lem :
    (V : Env) (C : Cache) (L : IsCache C) (now t id : ℕ) (u : User) (email code tried : Text)
    (db : UserDb C)
    → now ≤ t
    → t < now + 120
    → is_nil email ≡ false
    → is_nil code ≡ false
    → (is_ascii tried && is_ascii code) ≡ true
    → keep_if (has_id id) db.users ≡ u ∷ []
    → is_taken id u db.users ≡ false
    → any (has_email email) db.users ≡ false
    → C.get now db.cache (completed_key V id) ≡ none
    → C.get now db.cache (email_key V id) ≡ none
    → C.get now db.cache (code_key V id) ≡ none
    → let started = email_start V C now id email code db in
      let completed = email_complete V C t id tried started.1 in
      (started.0 ≡ ok tt)
      × (started.1.mails
          ≡ db.mails ++ (record { display_name = u.display_name; email = email; code = code } ∷ []))
      × (completed.0 ≡ ok (text_eq tried code))
      × (completed.1.users ≡ (
          if text_eq tried code
          then update_where (has_id id) (with_email email) db.users
          else db.users))
unfolding email_complete
email_complete_lem V C L now t id u [] _ tried db le lt n m _ _ _ _ _ _ _ = cc
email_complete_lem V C L now t id u (a ∷ s) [] tried db le lt n m _ _ _ _ _ _ _ = cc
email_complete_lem V C L now t id u (a ∷ s) (b ∷ r) tried db le lt n m ascii one alone free c e k =
    let k' =
      get-set_other V C L now now 600 (email_key V id) (a ∷ s) (code_key V id) db.cache
        (omega arith) (code_key-email_key V id)
      ∙ k in
    rw
      (
        email_start_lem V C L now t id u a b s r le lt db one free c e k',
        complete_lem V C L now t id u a b s r le lt db one free tried alone ascii,
      )
      (elim (Bool-cases (text_eq tried (b ∷ r))) [
        | inl same ↦ rw same (refl, refl, refl, refl)
        | inr other ↦ rw other (refl, refl, refl, refl)
      ])
