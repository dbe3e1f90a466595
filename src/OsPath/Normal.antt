-- ===== src/OsPath/Normal.antt =====
-- `os.path.normpath` returns a normal form: it changes nothing when it is applied once more.
use shelf_back.Base.{
  ℕ, zero, suc, ◌<◌, ◌≡◌, refl, ap, ◌∙◌, inl, inr, Bool, true, false, not, ◌&&◌, List, [], ◌∷◌,
  ◌++◌, arith, ltb, if◌then◌else◌, is_nil, Bool-cases,
}
use mathlib.Core.List.{append-nil}
use shelf_back.Base.Text.{Text, codes, text_eq, has_prefix}
use shelf_back.OsPath.{
  slash, is_slash, cons_head, split, joined, initial_slashes, slashes, is_skipped, is_kept, pop,
  push, collapse, rev_onto, or_dot, normpath,
}

-- The word has no slash.
abbrev pub no_slash : Text → Bool
no_slash [] = true
no_slash (c ∷ s) = not (is_slash c) && no_slash s

-- A component that can stand in a normal form.
abbrev pub is_word : Text → Bool
is_word w = not (is_skipped w) && no_slash w

-- `new_comps` as the loop keeps it, last component first.
abbrev pub IsStack : Bool → List Text → Type 0
IsStack rooted [] = Unit
IsStack rooted (w ∷ ws) = (is_word w ≡ true) × (is_kept rooted ws w ≡ true) × IsStack rooted ws

abbrev pub Words : List Text → Type 0
Words [] = Unit
Words (w ∷ ws) = (no_slash w ≡ true) × Words ws

pub split-Words : (s : Text) → Words (split s)
unfolding split
split-Words [] = (refl, tt)
split-Words (c ∷ s) = go (is_slash c) refl (split s) (split-Words s)
  where
    go :
        (b : Bool)
        → is_slash c ≡ b
        → (ws : List Text) → Words ws
        → Words (if b then [] ∷ ws else cons_head c ws)
    go true e ws h = (refl, h)
    go false e [] h = (rw e refl, tt)
    go false e (w ∷ ws) h = (rw e h.0, h.1)

pop-IsStack : (rooted : Bool) (st : List Text) → IsStack rooted st → IsStack rooted (pop st)
pop-IsStack rooted [] k = k
pop-IsStack rooted (w ∷ ws) k = k.2

push-IsStack :
    (rooted : Bool) (st : List Text) (w : Text)
    → no_slash w ≡ true
    → IsStack rooted st
    → IsStack rooted (push rooted st w)
unfolding push
push-IsStack rooted st w h k = elim (Bool-cases (is_skipped w)) [
  | inl skipped ↦ rw skipped k
  | inr word ↦ rw word (elim (Bool-cases (is_kept rooted st w)) [
    | inl kept ↦ rw kept (rw (word, h) refl, kept, k)
    | inr popped ↦ rw popped (pop-IsStack rooted st k)
  ])
]

pub collapse-IsStack :
    (rooted : Bool) (ws st : List Text)
    → Words ws
    → IsStack rooted st
    → IsStack rooted (collapse rooted st ws)
unfolding collapse
collapse-IsStack rooted [] st h k = k
collapse-IsStack rooted (w ∷ ws) st h k =
    collapse-IsStack rooted ws (push rooted st w) h.1 (push-IsStack rooted st w h.0 k)

push-word :
    (rooted : Bool) (st : List Text) (w : Text)
    → IsStack rooted (w ∷ st)
    → push rooted st w ≡ w ∷ st
unfolding push
push-word rooted st w h = ground (arith, h.0, h.1)

pub IsStack-rev_onto :
    (rooted : Bool) (ws st : List Text) → IsStack rooted (rev_onto ws st) → IsStack rooted st
unfolding rev_onto
IsStack-rev_onto rooted [] st h = h
IsStack-rev_onto rooted (w ∷ ws) st h = (IsStack-rev_onto rooted ws (w ∷ st) h).2

-- The loop runs through a normal list of components without dropping any.
pub collapse-words :
    (rooted : Bool) (ws st : List Text)
    → IsStack rooted (rev_onto ws st)
    → collapse rooted st ws ≡ rev_onto ws st
unfolding collapse rev_onto
collapse-words rooted [] st h = refl
collapse-words rooted (w ∷ ws) st h =
    rw (push-word rooted st w (IsStack-rev_onto rooted ws (w ∷ st) h))
      (collapse-words rooted ws (w ∷ st) h)

pub rev_onto-rev_onto :
    (ws st acc : List Text) → rev_onto (rev_onto ws st) acc ≡ rev_onto st (ws ++ acc)
unfolding rev_onto
rev_onto-rev_onto [] st acc = refl
rev_onto-rev_onto (w ∷ ws) st acc = rev_onto-rev_onto ws (w ∷ st) acc

pub split-append : (w s : Text) → no_slash w ≡ true → split (w ++ (slash ∷ s)) ≡ w ∷ split s
unfolding split
split-append [] s h = refl
split-append (c ∷ w) s h = ground (arith, split-append w s)

split-word : (w : Text) → no_slash w ≡ true → split w ≡ w ∷ []
unfolding split
split-word [] h = refl
split-word (c ∷ w) h = ground (arith, split-word w)

-- Splitting undoes joining.
pub split-joined : (w : Text) (ws : List Text) → Words (w ∷ ws) → split (joined (w ∷ ws)) ≡ w ∷ ws
unfolding joined
split-joined w [] h = split-word w h.0
split-joined w (v ∷ ws) h =
    split-append w (joined (v ∷ ws)) h.0 ∙ ap (λ r. w ∷ r) (split-joined v ws h.1)

-- The text does not begin with a slash.
abbrev pub no_lead : Text → Bool
no_lead [] = true
no_lead (c ∷ _) = not (is_slash c)

abbrev pub first_is_word : List Text → Bool
first_is_word [] = true
first_is_word (w ∷ _) = is_word w

pub no_lead-joined : (cs : List Text) → first_is_word cs ≡ true → no_lead (joined cs) ≡ true
unfolding joined
no_lead-joined [] h = refl
no_lead-joined ([] ∷ ws) h = cc
no_lead-joined ((c ∷ w) ∷ []) h = ground arith
no_lead-joined ((c ∷ w) ∷ v ∷ ws) h = ground arith

pub initial_slashes-slashes :
    (n : ℕ) (t : Text) → n < 3 → no_lead t ≡ true → initial_slashes (slashes n ++ t) ≡ n
unfolding initial_slashes has_prefix
initial_slashes-slashes zero [] lt h = refl
initial_slashes-slashes zero (c ∷ t) lt h = ground arith
initial_slashes-slashes (suc zero) [] lt h = refl
initial_slashes-slashes (suc zero) (c ∷ t) lt h = ground arith
initial_slashes-slashes (suc (suc zero)) [] lt h = refl
initial_slashes-slashes (suc (suc zero)) (c ∷ t) lt h = ground arith
initial_slashes-slashes (suc (suc (suc n))) t lt h = absurd (omega arith)

initial_slashes-lt : (s : Text) → initial_slashes s < 3
unfolding initial_slashes
initial_slashes-lt s = ground arith

pub collapse-slashes :
    (rooted : Bool) (n : ℕ) (st : List Text) (s : Text)
    → collapse rooted st (split (slashes n ++ s)) ≡ collapse rooted st (split s)
unfolding collapse split push
collapse-slashes rooted zero st s = refl
collapse-slashes rooted (suc n) st s = collapse-slashes rooted n st s

IsStack-Words : (rooted : Bool) (st : List Text) → IsStack rooted st → Words st
IsStack-Words rooted [] k = tt
IsStack-Words rooted (w ∷ ws) k = (ground (arith, k.0), IsStack-Words rooted ws k.2)

-- The components of a normal form.
abbrev pub IsNormal : Bool → List Text → Type 0
IsNormal rooted cs = IsStack rooted (rev_onto cs [])

pub first_is_word_of_IsNormal :
    (rooted : Bool) (cs : List Text) → IsNormal rooted cs → first_is_word cs ≡ true
unfolding rev_onto
first_is_word_of_IsNormal rooted [] k = refl
first_is_word_of_IsNormal rooted (w ∷ ws) k = (IsStack-rev_onto rooted ws (w ∷ []) k).0

pub IsNormal-Words :
    (rooted : Bool) (ws st : List Text) → IsStack rooted (rev_onto ws st) → Words ws
unfolding rev_onto
IsNormal-Words rooted [] st k = tt
IsNormal-Words rooted (w ∷ ws) st k =
    (ground (arith, (IsStack-rev_onto rooted ws (w ∷ st) k).0), IsNormal-Words rooted ws (w ∷ st) k)

-- The loop rebuilds the components of a joined normal form.
pub collapse-joined :
    (rooted : Bool) (cs : List Text)
    → IsNormal rooted cs
    → collapse rooted [] (split (joined cs)) ≡ rev_onto cs []
unfolding collapse split joined push rev_onto
collapse-joined rooted [] k = refl
collapse-joined rooted (w ∷ ws) k =
    rw (split-joined w ws (IsNormal-Words rooted (w ∷ ws) [] k))
      (collapse-words rooted (w ∷ ws) [] k)

pub rev_onto_twice : (ws : List Text) → rev_onto (rev_onto ws []) [] ≡ ws
rev_onto_twice ws = rev_onto-rev_onto ws [] [] ∙ (unfold rev_onto in append-nil ws)

normpath-dot : normpath (codes ".") ≡ codes "."
unfolding normpath initial_slashes collapse push split joined rev_onto has_prefix text_eq
normpath-dot = refl

-- A text of the form that `normpath` returns is returned unchanged.
pub normpath-normal :
    (n : ℕ) (cs : List Text)
    → n < 3
    → IsNormal (ltb 0 n) cs
    → normpath (or_dot (slashes n ++ joined cs)) ≡ or_dot (slashes n ++ joined cs)
normpath-normal n cs lt k = elim (Bool-cases (is_nil (slashes n ++ joined cs))) [
  | inl e ↦ rw e normpath-dot
  | inr e ↦ rw e (
      unfold normpath in
      rw (
        e,
        initial_slashes-slashes n (joined cs) lt
            (no_lead-joined cs (first_is_word_of_IsNormal (ltb 0 n) cs k)),
        collapse-slashes (ltb 0 n) n [] (joined cs),
        collapse-joined (ltb 0 n) cs k,
        rev_onto_twice cs,
        e,
      ))
]

-- What `normpath` returns is of that form.
pub normpath_form :
    (s : Text)
    → (n : ℕ) × (cs : List Text) × (n < 3)
      × IsNormal (ltb 0 n) cs
      × (normpath s ≡ or_dot (slashes n ++ joined cs))
unfolding normpath
normpath_form [] = (0, [], omega arith, unfold rev_onto in tt, unfold joined in refl)
normpath_form (c ∷ s) =
    let n = initial_slashes (c ∷ s) in
    let st = collapse (ltb 0 n) [] (split (c ∷ s)) in
    (
      n,
      rev_onto st [],
      initial_slashes-lt (c ∷ s),
      rw rev_onto_twice (collapse-IsStack (ltb 0 n) (split (c ∷ s)) [] (split-Words (c ∷ s)) tt),
      refl,
    )

-- `normpath` is idempotent: the path of a path's text is the path.
pub normpath-normpath : (s : Text) → normpath (normpath s) ≡ normpath s
normpath-normpath s = let (n, cs, lt, k, e) = normpath_form s in rw e (normpath-normal n cs lt k)
