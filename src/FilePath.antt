-- ===== src/FilePath.antt =====
-- Paths in a namespace, `Path` of app/app/files/domain/path.py: a normalised text that is compared
-- without regard to case. Code points are folded by an interface, `Casing`; a path is passed to the
-- operations as a `FilePath`, and a plain `str` argument as a `Text`.
pub mod Normal
pub mod Relative
pub mod Suffix
use shelf_back.Base.{
  ℕ, zero, suc, ◌≡◌, Bool, true, false, not, ◌&&◌, ◌||◌, Option, none, some, List, [], ◌∷◌, ◌++◌,
  map, length, drop, ltb, if◌then◌else◌,
}
use shelf_back.Base.Text.{Text, codes, text_eq, has_prefix}
use shelf_back.OsPath.{normpath, join, basename, dirname, splitext, pure_parents, text_lt}
use shelf_back.Base.Exec.{Result, ok, err, value_error}

-- `str.casefold`, one code point at a time: `casefold("ß")` is `"ss"`.
pub record Casing : Type 0 where
  pub fold : ℕ → Text

-- `Path`: `_path` is what `os.path.normpath` returned.
pub record FilePath : Type 0 where
  pub text : Text

-- `Path(path)`
abbrev pub path_of : Text → FilePath
path_of s = record { text = normpath s }

-- `Path.__truediv__` and `Path.__rtruediv__`
unfoldable pub truediv : FilePath → Text → FilePath
truediv p key = path_of (join p.text key)

unfoldable pub rtruediv : Text → FilePath → FilePath
rtruediv key p = path_of (join key p.text)

-- `Path.name`
unfoldable pub name : FilePath → Text
name p = basename p.text

-- `Path.parent`
unfoldable pub parent : FilePath → FilePath
parent p = path_of (dirname p.text)

-- `Path.parents`
unfoldable pub parents : FilePath → List FilePath
parents p = map path_of (pure_parents p.text)

module _ (C : Casing) where
  unfoldable pub casefold : Text → Text
  casefold [] = []
  casefold (c ∷ s) = C.fold c ++ casefold s

  -- `Path.__eq__` between two paths
  unfoldable pub path_eq : FilePath → FilePath → Bool
  path_eq p q = text_eq (casefold p.text) (casefold q.text)

  -- `Path.__eq__` with a `str`
  unfoldable pub path_eq_str : FilePath → Text → Bool
  path_eq_str p s = text_eq (casefold p.text) (casefold s)

  -- `Path.__lt__`, `__gt__`, `__le__` and `__ge__`
  unfoldable pub path_lt : FilePath → FilePath → Bool
  path_lt p q = text_lt (casefold p.text) (casefold q.text)

  unfoldable pub path_gt : FilePath → FilePath → Bool
  path_gt p q = text_lt (casefold q.text) (casefold p.text)

  unfoldable pub path_le : FilePath → FilePath → Bool
  path_le p q = not (text_lt (casefold q.text) (casefold p.text))

  unfoldable pub path_ge : FilePath → FilePath → Bool
  path_ge p q = not (text_lt (casefold p.text) (casefold q.text))

  -- `Path.is_relative_to`, for a `str`
  unfoldable pub is_relative_to : FilePath → Text → Bool
  is_relative_to p path =
      text_eq path (codes ".")
      || (path_eq_str p path
          || has_prefix (casefold (normpath path) ++ codes "/") (casefold p.text))

  -- `Path.with_restored_casing`, for a `str`
  unfoldable pub with_restored_casing : FilePath → Text → Result FilePath
  with_restored_casing p given =
      if not (is_relative_to p given)
      then err value_error
      else let path = path_of given in
        if text_eq path.text (codes ".")
        then ok p
        else ok (path_of (path.text ++ drop (length path.text) p.text))

module _ (encodings_map : Text → Bool) where
  -- `_splitext`
  unfoldable pub split_suffix : Text → Text × Text
  split_suffix s =
      let (stem, suffix) = splitext s in
      if encodings_map suffix
      then (let (stem', suffix') = splitext stem in (stem', suffix' ++ suffix))
      else (stem, suffix ++ [])

  -- `Path.stem` and `Path.suffix`
  unfoldable pub stem : FilePath → Text
  stem p = (split_suffix (name p)).0

  unfoldable pub suffix : FilePath → Text
  suffix p = (split_suffix (name p)).1

  -- `Path.with_stem`
  unfoldable pub with_stem : FilePath → Text → FilePath
  with_stem p next_stem = truediv (parent p) (next_stem ++ suffix p)
