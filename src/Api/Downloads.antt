-- ===== src/Api/Downloads.antt =====
-- Values that are kept for one download: app/api/shortcuts.py, over the cache of app/cache.py.
pub mod Once
use shelf_back.Base.{ℕ, ◌+◌, ◌≤◌, ◌≡◌, Bool, true, false, Option, none, some, ltb, if◌then◌else◌}
use shelf_back.Base.Text.{Text, text_eq}
use shelf_back.Base.Exec.{Exec, ok}

-- `cashews.Cache`: each method that depends on it is given the time in seconds.
pub record ValueCache (A : Type 0) : Type 1 where
  pub State : Type 0
  pub get : ℕ → State → Text → Option A
  pub set : ℕ → Text → A → ℕ → State → State
  pub delete : Text → State → State

-- A key holds the value set last until that expires or is deleted.
pub record IsValueCache {A : Type 0} (C : ValueCache A) : Type 0 where
  pub get-set :
      (t now expire : ℕ) (k : Text) (v : A) (s : C.State)
      → now ≤ t
      → C.get t (C.set now k v expire s) k ≡ (if ltb t (now + expire) then some v else none)
  pub get-delete : (t : ℕ) (k : Text) (s : C.State) → C.get t (C.delete k s) k ≡ none

module _ {A : Type 0} (C : ValueCache A) where
  -- `create_download_cache`, where `token` is what `secrets.token_urlsafe` returns
  unfoldable pub create_download_cache : ℕ → Text → A → Exec C.State Text
  create_download_cache now token value s = (ok token, C.set now token value 60 s)

  abbrev popped : Option A → Text → Exec C.State (Option A)
  popped none token s = (ok none, s)
  popped (some value) token s = (ok (some value), C.delete token s)

  unfoldable pub pop_download_cache : ℕ → Text → Exec C.State (Option A)
  pop_download_cache t token s = popped (C.get t s token) token s
