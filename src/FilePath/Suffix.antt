-- ===== src/FilePath/Suffix.antt =====
-- The two parts of a name, `Path.stem` and `Path.suffix` of app/app/files/domain/path.py.
use shelf_back.Base.{◌≡◌, Bool, inl, inr, some, [], ◌∷◌, ◌++◌, arith, Bool-cases, Option-cases}
use mathlib.Core.List.{append-nil, append_assoc}
use shelf_back.Base.Text.{Text}
use shelf_back.OsPath.{split_last_dot, only_dots, splitext}
use shelf_back.FilePath.{FilePath, name, split_suffix, stem, suffix}

split_last_dot-append : (s a b : Text) → split_last_dot s ≡ some (a, b) → a ++ b ≡ s
unfolding split_last_dot
split_last_dot-append [] a b h = cc
split_last_dot-append (c ∷ s) a b h = elim (Option-cases (split_last_dot s)) [
  | inl e ↦ ground (arith, e)
  | inr ((a', b'), e) ↦ ground (arith, e, split_last_dot-append s a' b' e)
]

splitext-append : (s : Text) → (splitext s).0 ++ (splitext s).1 ≡ s
unfolding splitext
splitext-append s = elim (Option-cases (split_last_dot s)) [
  | inl e ↦ rw (e, splitext) (append-nil s)
  | inr ((a, b), e) ↦
      rw (e, splitext)
        (elim (Bool-cases (only_dots a)) [
          | inl f ↦ rw f (append-nil s)
          | inr f ↦ rw f (split_last_dot-append s a b e)
        ])
]

split_suffix-append :
    (encodings_map : Text → Bool) (s : Text)
    → (split_suffix encodings_map s).0 ++ (split_suffix encodings_map s).1 ≡ s
unfolding split_suffix
split_suffix-append encodings_map s = elim (Bool-cases (encodings_map (splitext s).1)) [
  | inl e ↦ rw (e, split_suffix, ← append_assoc, splitext-append, splitext-append)
  | inr e ↦ rw (e, split_suffix, append-nil, splitext-append)
]

-- The stem and the suffix of a path make up its name, whatever `mimetypes.encodings_map` holds.
pub stem-append-suffix :
    (encodings_map : Text → Bool) (p : FilePath)
    → stem encodings_map p ++ suffix encodings_map p ≡ name p
unfolding stem suffix
stem-append-suffix encodings_map p = split_suffix-append encodings_map (name p)
