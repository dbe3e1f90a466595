-- ===== src/FilePath/Normal.antt =====
-- The paths that the operations of `Path` make: app/app/files/domain/path.py.
use shelf_back.Base.{◌≡◌, Bool, true, List, [], ◌∷◌, map, all, refl}
use shelf_back.Base.Text.{Text, text_eq, text_eq_refl}
use shelf_back.OsPath.{normpath, pure_parents}
use shelf_back.OsPath.Normal.{normpath-normpath}
use shelf_back.FilePath.{FilePath, path_of, truediv, rtruediv, parent, parents}

-- The text of the path is what `os.path.normpath` makes of it.
unfoldable pub is_normal : FilePath → Bool
is_normal p = text_eq (normpath p.text) p.text

path_of-is_normal : (s : Text) → is_normal (path_of s) ≡ true
unfolding is_normal
path_of-is_normal s = rw (normpath-normpath s) (text_eq_refl (normpath s))

map-is_normal : (ss : List Text) → all is_normal (map path_of ss) ≡ true
unfolding all
map-is_normal [] = refl
map-is_normal (s ∷ ss) = rw (path_of-is_normal s, map-is_normal ss)

-- `Path(…)`, `/` with a text on either side, `parent` and `parents` return normalised paths, so
-- that wrapping the text of a path once more gives the same path.
pub operations-is_normal :
    (s key : Text) (p : FilePath)
    → (path_of (path_of s).text ≡ path_of s)
      × (is_normal (truediv p key) ≡ true)
      × (is_normal (rtruediv key p) ≡ true)
      × (is_normal (parent p) ≡ true)
      × (all is_normal (parents p) ≡ true)
unfolding truediv rtruediv parent parents
operations-is_normal s key p = (
  λ i. record { text = normpath-normpath s i },
  path_of-is_normal _,
  path_of-is_normal _,
  path_of-is_normal _,
  map-is_normal (pure_parents p.text),
)
