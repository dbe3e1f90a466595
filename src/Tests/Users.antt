-- ===== src/Tests/Users.antt =====
-- A user who changes the address, over a cache in memory.
use shelf_back.Base.{
  ℕ, ◌+◌, ◌≤◌, ◌<◌, ◌≡◌, refl, ap, Bool, true, false, not, ◌&&◌, ◌||◌, Option, none, some, List, [],
  ◌∷◌, ◌++◌, ltb, if◌then◌else◌, arith, Option-cases, inl, inr, Bool-cases, keep_if, any,
  update_where, ◌==◌,
}
use shelf_back.Base.Text.{Text, text_eq, codes}
use shelf_back.Base.Exec.{ok, err, email_update_limit_reached}
use shelf_back.Users.{User, Cache, IsCache, UserDb}
use shelf_back.Users.Repository.{has_id, has_email, is_taken}
use shelf_back.Users.Service.{email_start, email_complete, with_email}
use shelf_back.Users.EmailChange.{email_complete-email_start}
use shelf_back.Users.EmailRound.{email_complete_lem}
use shelf_back.Users.Service.{verify_email_send_code, verify_email_complete}
use shelf_back.Users.Verification.{verified, verify_email_lem}
use shelf_back.Base.Exec.{otp_code_already_sent}
use shelf_back.Tests.Files.{ascii_env}

abbrev alive : ℕ → Option (Text × ℕ) → Option Text
alive t none = none
alive t (some (v, deadline)) = if ltb t deadline then some v else none

abbrev is_some : Option Text → Bool
is_some none = false
is_some (some v) = true

abbrev put : ℕ → Text → Text → ℕ → (Text → Option (Text × ℕ)) → Text → Option (Text × ℕ)
put now k v expire s j = if text_eq k j then some (v, now + expire) else s j

abbrev put_new :
    Option Text
    → (Text → Option (Text × ℕ))
    → (Text → Option (Text × ℕ))
    → Bool × (Text → Option (Text × ℕ))
put_new none after s = (true, after)
put_new (some v) after s = (false, s)

abbrev pub memory : Cache
memory = record {
  State = Text → Option (Text × ℕ);
  get = λ t s k. alive t (s k);
  exists = λ t s k. is_some (alive t (s k));
  set = put;
  set_new = λ now k v expire s. put_new (alive now (s k)) (put now k v expire s) s;
}

alive-if :
    (t now expire : ℕ) (v : Text) (b : Bool) (o : Option (Text × ℕ))
    → alive t (if b then some (v, now + expire) else o)
      ≡ (if b then (if ltb t (now + expire) then some v else none) else alive t o)
alive-if t now expire v true o = refl
alive-if t now expire v false o = refl

memory-IsCache : IsCache memory
memory-IsCache = record {
  get-set = λ t now expire k v j s le. alive-if t now expire v (text_eq k j) (s j);
  exists-none = λ t k s h. ap is_some h;
  exists-some = λ t k v s h. ap is_some h;
  set_new-none = λ now expire k v s h. ap (λ o. put_new o (put now k v expire s) s) h;
  set_new-some = λ now expire k v w s h. ap (λ o. put_new o (put now k v expire s) s) h;
}

abbrev alice : User
alice = record {
  id = 7;
  username = codes "alice";
  password = codes "hash";
  email = none;
  email_verified = false;
  display_name = codes "Alice";
  created_at = 0;
  last_login_at = none;
  active = true;
  superuser = false;
}

abbrev site : UserDb memory
site = record { users = alice ∷ []; accounts = []; cache = λ k. none; mails = []; drawn = 0 }

only_alice : keep_if (has_id 7) site.users ≡ alice ∷ []
unfolding keep_if
only_alice = refl

name_free : is_taken 7 alice site.users ≡ false
unfolding is_taken any
name_free = refl

address_free : any (has_email (codes "a@b.c")) site.users ≡ false
unfolding any has_email
address_free = refl

abbrev wrong : Text
wrong = codes "000000"

email_complete_lem_example :
    let started = email_start ascii_env memory 10 7 (codes "a@b.c") (codes "123456") site in
    let completed = email_complete ascii_env memory 100 7 wrong started.1 in
    (started.0 ≡ ok tt)
    × (started.1.mails
        ≡ []
          ++ (record { display_name = codes "Alice"; email = codes "a@b.c"; code = codes "123456" }
              ∷ []))
    × (completed.0 ≡ ok (text_eq wrong (codes "123456")))
    × (completed.1.users ≡ (
        if text_eq wrong (codes "123456")
        then update_where (has_id 7) (with_email (codes "a@b.c")) site.users
        else site.users))
unfolding shelf_back.Base.all
email_complete_lem_example =
    email_complete_lem ascii_env memory memory-IsCache 10 100 7 alice (codes "a@b.c")
      (codes "123456") wrong site (omega arith) (omega arith) refl refl refl only_alice name_free
      address_free refl refl refl

-- The store when the code has been sent.
abbrev sent : UserDb memory
sent = (email_start ascii_env memory 10 7 (codes "a@b.c") (codes "123456") site).1

wrong_code : (email_complete ascii_env memory 100 7 wrong sent).0 ≡ ok false
unfolding shelf_back.Base.all text_eq
wrong_code =
    (email_complete_lem ascii_env memory memory-IsCache 10 100 7 alice (codes "a@b.c")
      (codes "123456") wrong site (omega arith) (omega arith) refl refl refl only_alice name_free
      address_free refl refl refl).2

email_complete-email_start_example :
    let after = (email_complete ascii_env memory 100 7 wrong sent).1 in
    email_start ascii_env memory 5000 7 (codes "x@b.c") (codes "654321") after
    ≡ (err email_update_limit_reached, after)
email_complete-email_start_example =
    email_complete-email_start ascii_env memory memory-IsCache 100 5000 7 wrong (codes "x@b.c")
      (codes "654321") sent false wrong_code (omega arith) (omega arith)

abbrev bob : User
bob = record alice {
  id = 8;
  username = codes "bob";
  display_name = codes "Bob";
  email = some (codes "bob@b.c");
}

abbrev community : UserDb memory
community = record site { users = alice ∷ bob ∷ [] }

only_bob : keep_if (has_id 8) community.users ≡ bob ∷ []
unfolding keep_if
only_bob = refl

bob_free : is_taken 8 bob community.users ≡ false
unfolding is_taken any text_eq has_email
bob_free = refl

verify_email_lem_example :
    let sent = verify_email_send_code ascii_env memory 10 8 (codes "123456") community in
    let completed = verify_email_complete ascii_env memory 100 8 (codes "123456") sent.1 in
    (sent.0 ≡ ok tt)
    × (sent.1.mails
        ≡ []
          ++ (record { display_name = codes "Bob"; email = codes "bob@b.c"; code = codes "123456" }
              ∷ []))
    × (verify_email_send_code ascii_env memory 100 8 (codes "654321") sent.1
        ≡ (err otp_code_already_sent, sent.1))
    × (completed.0 ≡ ok (text_eq (codes "123456") (codes "123456")))
    × (completed.1.users ≡ (
        if text_eq (codes "123456") (codes "123456")
        then update_where (has_id 8) verified community.users
        else community.users))
verify_email_lem_example =
    verify_email_lem ascii_env memory memory-IsCache 10 100 8 bob (codes "bob@b.c") (codes "123456")
      (codes "654321") (codes "123456") community (omega arith) (omega arith) refl refl only_bob
      refl refl bob_free refl
