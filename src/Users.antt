-- ===== src/Users.antt =====
-- Users and their accounts: app/app/users/domain/user.py and the tables in
-- app/infrastructure/database/tortoise/models.py. The cache and the password library are
-- interfaces.
pub mod Bookmarks
pub mod Repository
pub mod Service
pub mod EmailChange
pub mod EmailRound
pub mod Verification
use shelf_back.Base.{
  ℕ, ◌+◌, ◌≤◌, ◌≡◌, Bool, true, false, Option, none, some, List, ltb, if◌then◌else◌,
}
use shelf_back.Base.Text.{Text, text_eq}

-- `models.User`, and the domain's `User`
pub record User : Type 0 where
  pub id : ℕ
  pub username : Text
  pub password : Text
  pub email : Option Text
  pub email_verified : Bool
  pub display_name : Text
  pub created_at : ℕ
  pub last_login_at : Option ℕ
  pub active : Bool
  pub superuser : Bool

-- `models.Account`, and the domain's `Account`
pub record Account : Type 0 where
  pub id : ℕ
  pub user_id : ℕ
  pub storage_quota : Option ℕ

-- `cashews.Cache`: each method is given the time in seconds. `set_new` is `set` with `exist=False`.
pub record Cache : Type 1 where
  pub State : Type 0
  pub get : ℕ → State → Text → Option Text
  pub exists : ℕ → State → Text → Bool
  pub set : ℕ → Text → Text → ℕ → State → State
  pub set_new : ℕ → Text → Text → ℕ → State → Bool × State

-- A key holds the value set last until that expires; `set_new` sets a key that holds nothing.
pub record IsCache (C : Cache) : Type 0 where
  pub get-set :
      (t now expire : ℕ) (k v j : Text) (s : C.State)
      → now ≤ t
      → C.get t (C.set now k v expire s) j
        ≡ (if text_eq k j then (if ltb t (now + expire) then some v else none) else C.get t s j)
  pub exists-none : (t : ℕ) (k : Text) (s : C.State) → C.get t s k ≡ none → C.exists t s k ≡ false
  pub exists-some :
      (t : ℕ) (k v : Text) (s : C.State) → C.get t s k ≡ some v → C.exists t s k ≡ true
  pub set_new-none :
      (now expire : ℕ) (k v : Text) (s : C.State)
      → C.get now s k ≡ none
      → C.set_new now k v expire s ≡ (true, C.set now k v expire s)
  pub set_new-some :
      (now expire : ℕ) (k v w : Text) (s : C.State)
      → C.get now s k ≡ some w
      → C.set_new now k v expire s ≡ (false, s)

-- `app.toolkit.security` over `passlib`, and `pydantic.validate_email`
pub record Credentials : Type 0 where
  pub make_password : Text → Text
  pub check_password : Text → Text → Bool
  pub is_email : Text → Bool
  pub strip : Text → Text

-- A mail that was scheduled: display name, address and code.
pub record Mail : Type 0 where
  pub display_name : Text
  pub email : Text
  pub code : Text

pub record UserDb (C : Cache) : Type 0 where
  pub users : List User
  pub accounts : List Account
  pub cache : C.State
  pub mails : List Mail
  pub drawn : ℕ
