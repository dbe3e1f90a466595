-- ===== src/Users/Repository.antt =====
-- `UserRepository` and `AccountRepository`, app/infrastructure/database/tortoise/repositories/user.py
-- and account.py. User names are unique, and so are the e-mail addresses that are not NULL.
use shelf_back.Base.{
  ℕ, ◌+◌, Bool, false, not, ◌&&◌, ◌||◌, none, some, List, [], ◌∷◌, ◌++◌, ◌==◌, if◌then◌else◌,
  keep_if, any, update_where,
}
use shelf_back.Base.Text.{Text, text_eq}
use shelf_back.Base.Exec.{
  Exec, ok, err, user_not_found, user_already_exists, integrity_error, gets, lift, one_of,
  not_found_as,
}
use shelf_back.Files.Model.{Env}
use shelf_back.Users.{User, Account, Cache, UserDb}

unfoldable pub has_email : Text → User → Bool
has_email email u = elim u.email [ none ↦ false | some e ↦ text_eq e email ]

abbrev pub has_username : Text → User → Bool
has_username username u = text_eq u.username username

abbrev pub has_id : ℕ → User → Bool
has_id user_id u = u.id == user_id

-- `unique=True` on the two columns: another row has the value.
unfoldable pub is_taken : ℕ → User → List User → Bool
is_taken user_id changed users =
    any
      (λ u.
        not (u.id == user_id)
        && (has_username changed.username u
            || (elim changed.email [ none ↦ false | some e ↦ has_email e u ])))
      users

module _ (C : Cache) where
  unfoldable pub exists_with_email : Text → Exec (UserDb C) Bool
  exists_with_email email = gets (λ db. any (has_email email) db.users)

  -- `get(…)` by one of its fields
  unfoldable pub get : (User → Bool) → Exec (UserDb C) User
  get test db = lift (not_found_as user_not_found (one_of (keep_if test db.users))) db

  -- `update(user_id, …)`
  unfoldable pub update : ℕ → (User → User) → Exec (UserDb C) User
  update user_id change db =
      let users = update_where (has_id user_id) change db.users in
      if any (λ u. has_id user_id u && is_taken user_id (change u) db.users) db.users
      then (err integrity_error, db)
      else lift (one_of (keep_if (has_id user_id) users)) (record db { users = users })

  -- `AccountRepository.get_by_user_id`
  unfoldable pub get_account : ℕ → Exec (UserDb C) Account
  get_account user_id db =
      lift (not_found_as user_not_found (one_of (keep_if (λ a. a.user_id == user_id) db.accounts)))
        db

  module _ (V : Env) where
    unfoldable pub save : User → Exec (UserDb C) User
    save user db =
        let saved = record user { id = V.uuid db.drawn } in
        if is_taken saved.id saved db.users
        then (err user_already_exists, db)
        else (ok saved, record db { users = db.users ++ (saved ∷ []); drawn = db.drawn + 1 })

    -- `AccountRepository.save`
    unfoldable pub save_account : Account → Exec (UserDb C) Account
    save_account account db =
        let saved = record account { id = V.uuid db.drawn } in
        if any (λ a. a.user_id == account.user_id) db.accounts
        then (err integrity_error, db)
        else (ok saved, record db { accounts = db.accounts ++ (saved ∷ []); drawn = db.drawn + 1 })
