-- ===== src/Tests/FilePath.antt =====
-- Paths as the test suite of the repository has them, tests/app/files/domain/test_path.py.
use shelf_back.Base.{
  ℕ, zero, suc, ◌≡◌, refl, Bool, true, false, List, [], ◌∷◌, map, if◌then◌else◌, leb, ◌+◌, ◌&&◌,
  ◌||◌,
}
use shelf_back.Base.Text.{Text, codes, text_eq, has_prefix}
use shelf_back.Base.{◌++◌, all, arith}
use shelf_back.OsPath.{is_slash}
use shelf_back.OsPath.Normal.{no_slash}
use shelf_back.FilePath.{rtruediv}
use shelf_back.FilePath.Normal.{is_normal, operations-is_normal}
use shelf_back.FilePath.Relative.{words_prefix, IsCasing, is_relative_to-words_prefix}
use shelf_back.FilePath.Suffix.{stem-append-suffix}
use shelf_back.Base.Exec.{ok, err, value_error}
use shelf_back.OsPath.{
  normpath, join, split, initial_slashes, collapse, push, joined, rev_onto, splitext,
  split_last_dot, basename, dirname, partition_last, strip_slashes, pure_parents, prefixes, parts,
}
use shelf_back.FilePath.{
  FilePath, Casing, path_of, name, parent, parents, stem, suffix, with_stem, is_relative_to,
  with_restored_casing, casefold, path_eq_str, split_suffix, truediv,
}

-- ASCII letters, and the German sharp s.
abbrev pub ascii : Casing
ascii = record {
  fold = λ c.
      if leb 65 c && leb c 90
      then (c + 32) ∷ []
      else if leb 223 c && leb c 223
      then 115 ∷ 115 ∷ []
      else c ∷ [];
}

abbrev pub encodings : Text → Bool
encodings s = text_eq s (codes ".gz") || text_eq s (codes ".xz")

run : Text → Text
unfolding normpath initial_slashes collapse push rev_onto joined split text_eq has_prefix
run s = normpath s

normpaths :
    map run (
      codes ""
      ∷ codes "a/./b//c/../d/"
      ∷ codes "../../x"
      ∷ codes "/../x"
      ∷ codes "//a"
      ∷ codes "///a"
      ∷ codes "./a/.."
      ∷ [])
    ≡ codes "."
      ∷ codes "a/b/d"
      ∷ codes "../../x"
      ∷ codes "/x"
      ∷ codes "//a"
      ∷ codes "/a"
      ∷ codes "."
      ∷ []
unfolding run
normpaths = refl

names : name (path_of (codes "a/b/f.tar.gz")) ≡ codes "f.tar.gz"
unfolding name run basename partition_last
names = refl

suffixes :
    map
      (λ s. suffix encodings (path_of s))
      (codes "a/f.tar.gz" ∷ codes ".bashrc" ∷ codes "f" ∷ codes "..a.b" ∷ [])
    ≡ codes ".tar.gz" ∷ [] ∷ [] ∷ codes ".b" ∷ []
unfolding suffix name run basename partition_last split_suffix splitext split_last_dot
suffixes = refl

all_parents :
    parents (path_of (codes "a/b/c"))
    ≡ path_of (codes "a/b") ∷ path_of (codes "a") ∷ path_of (codes ".") ∷ []
unfolding parents run pure_parents prefixes parts shelf_back.Base.keep_if
all_parents = refl

renamed :
    with_stem encodings (path_of (codes "a/f.tar.gz")) (codes "f (1)")
    ≡ path_of (codes "a/f (1).tar.gz")
unfolding with_stem suffix truediv parent join name run basename dirname partition_last
    strip_slashes split_suffix splitext split_last_dot
renamed = refl

restored :
    with_restored_casing ascii (path_of (codes "home/Docs/F.txt")) (codes "Home/docs")
    ≡ ok (path_of (codes "Home/docs/F.txt"))
unfolding with_restored_casing is_relative_to path_eq_str casefold run
restored = refl

not_relative : with_restored_casing ascii (path_of (codes "home")) (codes "Trash") ≡ err value_error
unfolding with_restored_casing is_relative_to path_eq_str casefold run
not_relative = refl

abbrev docs : FilePath
docs = path_of (codes "home/Docs")

operations-is_normal_example :
    (path_of (path_of (codes "a//b")).text ≡ path_of (codes "a//b"))
    × (is_normal (truediv docs (codes "../c")) ≡ true)
    × (is_normal (rtruediv (codes "../c") docs) ≡ true)
    × (is_normal (parent docs) ≡ true)
    × (all is_normal (parents docs) ≡ true)
operations-is_normal_example = operations-is_normal (codes "a//b") (codes "../c") docs

fold-no_slash : (c : ℕ) → is_slash c ≡ false → no_slash (ascii.fold c) ≡ true
fold-no_slash c h = ground arith

ascii-IsCasing : IsCasing ascii
ascii-IsCasing = record { fold-slash = refl; fold_word = fold-no_slash }

trash_normal : normpath (codes "Trash/a") ≡ codes "Trash/a"
unfolding run
trash_normal = refl

is_relative_to-words_prefix_example : is_relative_to ascii docs (codes "Trash/a") ≡ (
    text_eq (codes "Trash/a") (codes ".")
    || words_prefix
        (map (casefold ascii) (split (codes "Trash/a")))
        (map (casefold ascii) (split docs.text)))
is_relative_to-words_prefix_example =
    is_relative_to-words_prefix ascii ascii-IsCasing docs (codes "Trash/a") trash_normal

stem-append-suffix_example :
    stem encodings (path_of (codes "f.tar.gz")) ++ suffix encodings (path_of (codes "f.tar.gz"))
    ≡ name (path_of (codes "f.tar.gz"))
stem-append-suffix_example = stem-append-suffix encodings (path_of (codes "f.tar.gz"))
