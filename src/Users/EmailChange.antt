-- ===== src/Users/EmailChange.antt =====
-- The change of an e-mail address, from the start to the completion:
-- app/app/users/usecases/user.py and services/user.py.
use shelf_back.Base.{
  ℕ, ◌+◌, ◌≤◌, ◌<◌, ◌≡◌, refl, ◌∙◌, Bool, true, false, ◌&&◌, some, List, [], ◌∷◌, ◌++◌, keep_if,
  any, update_where, arith, map,
}
use shelf_back.Base.Text.{Text, codes, text_eq, text_eq_refl}
use shelf_back.Base.Exec.{Result, ok, err, email_update_limit_reached, continue}
use shelf_back.Files.Model.{Env}
use shelf_back.Users.{User, Cache, IsCache, UserDb}
use shelf_back.Users.Repository
use shelf_back.Users.Repository.{has_id, has_email, has_username, is_taken}
use shelf_back.Users.Service.{
  with_email, email_key, code_key, completed_key, change_email_complete, email_start,
  email_complete,
}

text_eq-append : (s a b : Text) → text_eq (s ++ a) (s ++ b) ≡ text_eq a b
unfolding text_eq
text_eq-append [] a b = refl
text_eq-append (c ∷ s) a b = rw (text_eq-append s a b) (ground arith)

pub email_key-code_key : (V : Env) (id : ℕ) → text_eq (code_key V id) (email_key V id) ≡ false
unfolding text_eq
email_key-code_key V id =
    text_eq-append (codes "email_update:" ++ V.uuid_text id) (codes ":code") (codes ":email")

pub code_key-email_key : (V : Env) (id : ℕ) → text_eq (email_key V id) (code_key V id) ≡ false
unfolding text_eq
code_key-email_key V id =
    text_eq-append (codes "email_update:" ++ V.uuid_text id) (codes ":email") (codes ":code")

module _ (V : Env) (C : Cache) (L : IsCache C) where
  -- A key that was set holds its value until it expires, and holds nothing from then on.
  pub get-set_same :
      (t now expire : ℕ) (k v : Text) (s : C.State)
      → now ≤ t
      → t < now + expire
      → C.get t (C.set now k v expire s) k ≡ some v
  get-set_same t now expire k v s le lt =
      L.get-set t now expire k v k s le ∙ rw (text_eq_refl k) (ground arith)

  pub get-set_other :
      (t now expire : ℕ) (k v j : Text) (s : C.State)
      → now ≤ t
      → text_eq k j ≡ false
      → C.get t (C.set now k v expire s) j ≡ C.get t s j
  get-set_other t now expire k v j s le ne = L.get-set t now expire k v j s le ∙ rw ne

  module _ (now t id : ℕ) (le : now ≤ t) (lt : t < now + 21600) where
    -- What `email_complete` makes of the outcome of `change_email_complete`
    abbrev mark : Result Bool × UserDb C → Result Bool × UserDb C
    mark x =
        continue x.0
          (λ b db.
            (ok b, record db { cache = C.set now (completed_key V id) (codes "1") 21600 db.cache }))
          x.1

    mark-exists :
        (x : Result Bool × UserDb C) (b : Bool)
        → (mark x).0 ≡ ok b
        → C.exists t (mark x).1.cache (completed_key V id) ≡ true
    mark-exists (ok a, db) b h =
        L.exists-some t (completed_key V id) (codes "1") _
          (get-set_same t now 21600 (completed_key V id) (codes "1") db.cache le lt)
    mark-exists (err e, db) b h = cc

  -- Once `change_email_complete` has returned, with `True` or with `False`, the same user cannot
  -- start a change of the address for six hours, and an attempt changes nothing.
  pub email_complete-email_start :
      (now t id : ℕ) (code email next_code : Text) (db : UserDb C) (b : Bool)
      → (email_complete V C now id code db).0 ≡ ok b
      → now ≤ t
      → t < now + 21600
      → let after = (email_complete V C now id code db).1 in
        email_start V C t id email next_code after ≡ (err email_update_limit_reached, after)
  unfolding email_start email_complete
  email_complete-email_start now t id code email next_code db b h le lt =
      rw (mark-exists now t id le lt (change_email_complete V C now id code db) b h)

pub any-and :
    (p q : User → Bool) (users : List User) → any (λ u. p u && q u) users ≡ any q (keep_if p users)
unfolding any keep_if
any-and p q [] = refl
any-and p q (u ∷ users) = rw (any-and p q users) (ground arith)

pub keep_if-update_where :
    (id : ℕ) (f : User → User) (users : List User)
    → ((u : User) → (f u).id ≡ u.id)
    → keep_if (has_id id) (update_where (has_id id) f users) ≡ map f (keep_if (has_id id) users)
unfolding keep_if update_where
keep_if-update_where id f [] h = refl
keep_if-update_where id f (u ∷ users) h =
    rw (keep_if-update_where id f users h) (ground (arith, h u))

-- A row whose name nobody else has can take an address that nobody has.
with_email-free :
    (id : ℕ) (email : Text) (u : User) (users : List User)
    → is_taken id u users ≡ false
    → any (has_email email) users ≡ false
    → is_taken id (with_email email u) users ≡ false
unfolding is_taken any
with_email-free id email u [] h k = refl
with_email-free id email u (v ∷ users) h k = ground (arith, with_email-free id email u users)

module _ (C : Cache) (id : ℕ) (email : Text) (u : User) (db : UserDb C) where
  pub update-with_email :
      keep_if (has_id id) db.users ≡ u ∷ []
      → is_taken id u db.users ≡ false
      → any (has_email email) db.users ≡ false
      → Repository.update C id (with_email email) db ≡ (
        ok (with_email email u),
        record db { users = update_where (has_id id) (with_email email) db.users },
      )
  unfolding Repository.update
  update-with_email one alone free =
      rw
        (
          any-and (has_id id) (λ v. is_taken id (with_email email v) db.users) db.users,
          one,
          keep_if-update_where id (with_email email) db.users (λ v. refl),
          one,
        )
        (unfold any in rw (with_email-free id email u db.users alone free))
