-- ===== src/Api/Downloads/Once.antt =====
-- A value that is kept for a download is given once: app/api/shortcuts.py.
use shelf_back.Base.{ℕ, ◌+◌, ◌≤◌, ◌<◌, ◌≡◌, refl, true, false, none, some, ltb, arith}
use shelf_back.Base.Text.{Text}
use shelf_back.Base.Exec.{ok}
use shelf_back.Api.Downloads.{ValueCache, IsValueCache, pop_download_cache}

module _ {A : Type 0} (C : ValueCache A) (L : IsValueCache C) where
  -- Within a minute the value is there, and is deleted.
  pub pop-set :
      (now t : ℕ) (token : Text) (value : A) (s : C.State)
      → now ≤ t
      → t < now + 60
      → pop_download_cache C t token (C.set now token value 60 s)
        ≡ (ok (some value), C.delete token (C.set now token value 60 s))
  unfolding pop_download_cache
  pop-set now t token value s h k =
      let in_time : ltb t (now + 60) ≡ true = ground (arith, k) in
      rw (L.get-set t now 60 token value s h, in_time) refl

  pub pop-expired :
      (now t : ℕ) (token : Text) (value : A) (s : C.State)
      → now + 60 ≤ t
      → pop_download_cache C t token (C.set now token value 60 s)
        ≡ (ok none, (C.set now token value 60 s))
  unfolding pop_download_cache
  pop-expired now t token value s h =
      let late : ltb t (now + 60) ≡ false = ground (arith, h) in
      rw (L.get-set t now 60 token value s (omega (arith, h)), late) refl

  pub pop-delete :
      (t : ℕ) (token : Text) (s : C.State)
      → pop_download_cache C t token (C.delete token s) ≡ (ok none, C.delete token s)
  unfolding pop_download_cache
  pop-delete t token s = rw (L.get-delete t token s) refl
