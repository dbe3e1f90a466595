-- ===== src/FilePath/Relative.antt =====
-- `Path.is_relative_to` of app/app/files/domain/path.py works on texts; here it is compared with the
-- relation on lists of components that it stands for.
use shelf_back.Base.{
  ℕ, ◌≡◌, refl, Bool, true, false, ◌&&◌, ◌||◌, List, [], ◌∷◌, ◌++◌, map, arith, ◌==◌, if◌then◌else◌,
  Bool-cases, ==_iff, inl, inr,
}
use shelf_back.Base.Text.{Text, codes, text_eq, has_prefix}
use shelf_back.OsPath.{slash, is_slash, split, normpath}
use shelf_back.OsPath.Normal.{no_slash}
use shelf_back.FilePath.{FilePath, Casing, casefold, path_eq_str, is_relative_to}

-- The first list of words begins the second.
unfoldable pub words_prefix : List Text → List Text → Bool
words_prefix [] vs = true
words_prefix (w ∷ ws) [] = false
words_prefix (w ∷ ws) (v ∷ vs) = text_eq w v && words_prefix ws vs

split-cons : (s : Text) → (w : Text) × (ws : List Text) × (split s ≡ w ∷ ws)
unfolding split
split-cons [] = ([], [], refl)
split-cons (c ∷ s) = elim (Bool-cases (is_slash c)) [
  | inl e ↦ ([], split s, rw e)
  | inr e ↦ let (w, ws, h) = split-cons s in (c ∷ w, ws, rw (e, h))
]

-- One character of both texts, before the words of what follows.
module _ (a c : ℕ) (w v : Text) (ws vs : List Text) where
  step :
      (b : Bool)
      → b ≡ words_prefix (w ∷ ws) (v ∷ vs)
      → (a == c && b)
        ≡ words_prefix
            (if is_slash a then [] ∷ w ∷ ws else (a ∷ w) ∷ ws)
            (if is_slash c then [] ∷ v ∷ vs else (c ∷ v) ∷ vs)
  unfolding words_prefix text_eq
  step b e = ground (arith, e)

  step_left : words_prefix (if is_slash a then [] ∷ w ∷ ws else (a ∷ w) ∷ ws) ([] ∷ []) ≡ false
  unfolding words_prefix text_eq
  step_left = ground arith

  step_right :
      words_prefix ([] ∷ []) (if is_slash c then [] ∷ v ∷ vs else (c ∷ v) ∷ vs) ≡ is_slash c
  unfolding words_prefix text_eq
  step_right = ground arith

words_prefix-split :
    (t s : Text) → (text_eq s t || has_prefix (t ++ codes "/") s) ≡ words_prefix (split t) (split s)
unfolding split text_eq has_prefix
words_prefix-split [] [] = unfold words_prefix in refl
words_prefix-split [] (c ∷ s) =
    let (v, vs, e) = split-cons s in rw (e, step_right 0 c [] v [] vs) (ground arith)
words_prefix-split (a ∷ t) [] = let (w, ws, e) = split-cons t in rw (e, step_left a 0 w [] ws [])
words_prefix-split (a ∷ t) (c ∷ s) =
    let (w, ws, e) = split-cons t in
    let (v, vs, f) = split-cons s in
    let ih = rw (e, f) at (words_prefix-split t s) in
    rw (e, f, ← step a c w v ws vs (text_eq s t || has_prefix (t ++ codes "/") s) ih) (ground arith)

-- Folding keeps the separator, and makes it from nothing else (Unicode, CaseFolding.txt).
pub record IsCasing (C : Casing) : Type 0 where
  pub fold-slash : C.fold slash ≡ slash ∷ []
  pub fold_word : (c : ℕ) → is_slash c ≡ false → no_slash (C.fold c) ≡ true

append_head : Text → List Text → List Text
append_head u [] = u ∷ []
append_head u (w ∷ ws) = (u ++ w) ∷ ws

split-append_word : (u s : Text) → no_slash u ≡ true → split (u ++ s) ≡ append_head u (split s)
unfolding split append_head
split-append_word [] s h = let (w, ws, e) = split-cons s in rw e
split-append_word (c ∷ u) s h =
    let (w, ws, e) = split-cons s in
    let ih = rw e at (split-append_word u s (ground arith)) in rw (e, ih) (ground arith)

module _ (C : Casing) (F : IsCasing C) where
  split-casefold : (s : Text) → split (casefold C s) ≡ map (casefold C) (split s)
  unfolding split casefold
  split-casefold [] = refl
  split-casefold (c ∷ s) = elim (Bool-cases (is_slash c)) [
    | inl e ↦
        let at_slash : c ≡ slash = (==_iff c slash).0 e in
        rw at_slash (rw F.fold-slash (rw (split-casefold s)))
    | inr e ↦
        let (w, ws, h) = split-cons s in
        rw (split-append_word (C.fold c) (casefold C s) (F.fold_word c e), (split-casefold s), e, h)
          (unfold append_head in refl)
  ]

  -- A path is relative to a normalised path `q` exactly if `q` is "." or the components of `q`,
  -- without regard to case, are the first components of the path.
  pub is_relative_to-words_prefix :
      (p : FilePath) (q : Text)
      → normpath q ≡ q
      → is_relative_to C p q ≡ (
          text_eq q (codes ".")
          || words_prefix (map (casefold C) (split q)) (map (casefold C) (split p.text)))
  unfolding is_relative_to path_eq_str
  is_relative_to-words_prefix p q normal =
      rw (normal, words_prefix-split, split-casefold q, split-casefold p.text)
