-- ===== src/OsPath/Inside.antt =====
-- Where `os.path.join` of a folder and a relative path leads, once it is normalised.
use shelf_back.Base.{
  ℕ, ◌≡◌, refl, sym, ap, ◌∙◌, inl, inr, Bool, true, false, not, ◌&&◌, ◌||◌, List, [], ◌∷◌, ◌++◌,
  arith, is_nil, Bool-cases,
}
use mathlib.Core.List.{append-nil, append_assoc}
use shelf_back.Base.Text.{
  Text, codes, text_eq, has_prefix, has_prefix-append, text_eq_refl, eq_of_text_eq,
}
use shelf_back.OsPath.{
  slash, split, joined, join, initial_slashes, is_dotdot, is_skipped, push, collapse, rev_onto,
  normpath, ends_with_slash,
}
use shelf_back.OsPath.Normal.{
  split-append, no_slash, is_word, IsStack, Words, IsNormal, no_lead, IsStack-rev_onto,
  first_is_word_of_IsNormal, IsNormal-Words, initial_slashes-slashes, collapse-slashes,
  collapse-words, rev_onto-rev_onto, normpath-normpath,
}
use shelf_back.OsPath.Climbs.{climbs, climbs-eq, ends_with_dotdot, ends_with_dotdot-collapse}

-- The path is normal, and it is the folder or begins with the folder's path and a slash.
abbrev pub Inside : Text → Text → Type 0
Inside location path =
    (normpath path ≡ path)
    × (text_eq path location || has_prefix (location ++ codes "/") path ≡ true)

abbrev no_dotdot : List Text → Bool
no_dotdot [] = true
no_dotdot (w ∷ ws) = not (is_dotdot w) && no_dotdot ws

-- One round of the loop below a folder whose components are `base`
push_below :
    (rooted : Bool) (base st : List Text) (w : Text)
    → no_dotdot st ≡ true
    → (is_dotdot w && is_nil st) ≡ false
    → (push rooted (st ++ base) w ≡ push false st w ++ base) × (no_dotdot (push false st w) ≡ true)
unfolding push
push_below rooted base [] w h k = elim (Bool-cases (is_skipped w)) [
  | inl e ↦ rw e (refl, refl)
  | inr e ↦
      let plain : is_dotdot w ≡ false = ground (arith, k) in
      rw (e, plain) (refl, ground (arith, plain))
]
push_below rooted base (v ∷ st) w h k = elim (Bool-cases (is_skipped w)) [
  | inl e ↦ rw e (refl, h)
  | inr e ↦ elim (Bool-cases (is_dotdot w)) [
    | inl d ↦
        let plain : is_dotdot v ≡ false = ground (arith, h) in
        rw (e, d, plain) (ground arith, ground (arith, h))
    | inr d ↦ rw (e, d) (refl, ground (arith, h, d))
  ]
]

climbs_at_once :
    (w : Text) (ws : List Text)
    → is_dotdot w ≡ true
    → ends_with_dotdot (collapse false [] (w ∷ ws)) ≡ true
unfolding collapse push ends_with_dotdot
climbs_at_once w ws d =
    rw (eq_of_text_eq w (codes "..") d)
      (unfold text_eq in ends_with_dotdot-collapse ws (codes ".." ∷ []) refl)

-- The loop below a folder: as long as the path does not climb, it leaves the folder's components alone.
pub collapse_below :
    (rooted : Bool) (base : List Text) (ws st : List Text)
    → no_dotdot st ≡ true
    → ends_with_dotdot (collapse false st ws) ≡ false
    → collapse rooted (st ++ base) ws ≡ collapse false st ws ++ base
unfolding collapse
collapse_below rooted base [] st h k = refl
collapse_below rooted base (w ∷ ws) [] h k = elim (Bool-cases (is_dotdot w)) [
  | inl d ↦ let up = climbs_at_once w ws d in cc
  | inr d ↦
      let (same, plain) = push_below rooted base [] w h (ground (arith, d)) in
      rw same (collapse_below rooted base ws (push false [] w) plain k)
]
collapse_below rooted base (w ∷ ws) (v ∷ st) h k =
    let (same, plain) = push_below rooted base (v ∷ st) w h (ground arith) in
    rw same (collapse_below rooted base ws (push false (v ∷ st) w) plain k)

split_below :
    (w : Text) (ws : List Text) (s : Text)
    → Words (w ∷ ws)
    → split (joined (w ∷ ws) ++ (slash ∷ s)) ≡ (w ∷ ws) ++ split s
unfolding joined
split_below w [] s h = split-append w s h.0
split_below w (v ∷ ws) s h =
    ap split (append_assoc w (slash ∷ joined (v ∷ ws)) (slash ∷ s))
    ∙ (split-append w (joined (v ∷ ws) ++ (slash ∷ s)) h.0
        ∙ ap (λ r. w ∷ r) (split_below v ws s h.1))

pub collapse-append :
    (rooted : Bool) (st xs ys : List Text)
    → collapse rooted st (xs ++ ys) ≡ collapse rooted (collapse rooted st xs) ys
unfolding collapse
collapse-append rooted st [] ys = refl
collapse-append rooted st (x ∷ xs) ys = collapse-append rooted (push rooted st x) xs ys

rev_onto-append : (xs ys acc : List Text) → rev_onto (xs ++ ys) acc ≡ rev_onto ys (rev_onto xs acc)
unfolding rev_onto
rev_onto-append [] ys acc = refl
rev_onto-append (x ∷ xs) ys acc = rev_onto-append xs ys (x ∷ acc)

joined-append :
    (w : Text) (ws : List Text) (v : Text) (vs : List Text)
    → joined ((w ∷ ws) ++ (v ∷ vs)) ≡ joined (w ∷ ws) ++ (slash ∷ joined (v ∷ vs))
unfolding joined
joined-append w [] v vs = refl
joined-append w (u ∷ ws) v vs =
    ap (λ r. w ++ (slash ∷ r)) (joined-append u ws v vs)
    ∙ sym (append_assoc w (slash ∷ joined (u ∷ ws)) (slash ∷ joined (v ∷ vs)))

no_lead_below :
    (w : Text) (ws : List Text) (s : Text)
    → is_word w ≡ true
    → no_lead (joined (w ∷ ws) ++ s) ≡ true
unfolding joined
no_lead_below [] ws s h = cc
no_lead_below (c ∷ w) [] s h = ground (arith, h)
no_lead_below (c ∷ w) (v ∷ ws) s h = ground (arith, h)

pub ends_word : (w : Text) → is_word w ≡ true → ends_with_slash w ≡ false
ends_word w h = go w (ground (arith, h))
  where
    go : (v : Text) → no_slash v ≡ true → ends_with_slash v ≡ false
    go [] k = refl
    go (c ∷ []) k = ground (arith, k)
    go (c ∷ d ∷ v) k = go (d ∷ v) (ground (arith, k))

pub ends_append :
    (w : Text) (c : ℕ) (s : Text) → ends_with_slash (w ++ (c ∷ s)) ≡ ends_with_slash (c ∷ s)
ends_append [] c s = refl
ends_append (a ∷ []) c s = refl
ends_append (a ∷ b ∷ w) c s = ends_append (b ∷ w) c s

-- The words of a stack whose first is not `..`, in the order of the path
abbrev AllWords : List Text → Type 0
AllWords [] = Unit
AllWords (w ∷ ws) = (is_word w ≡ true) × AllWords ws

ends_joined :
    (w : Text) (ws : List Text)
    → AllWords (w ∷ ws)
    → ends_with_slash (slash ∷ joined (w ∷ ws)) ≡ false
unfolding joined
ends_joined [] ws h = cc
ends_joined (c ∷ w) [] h = ends_word (c ∷ w) h.0
ends_joined (c ∷ w) (v ∷ ws) h = ends_append (c ∷ w) slash (joined (v ∷ ws)) ∙ ends_joined v ws h.1

AllWords-IsNormal :
    (rooted : Bool) (ws st : List Text) → IsStack rooted (rev_onto ws st) → AllWords ws
unfolding rev_onto
AllWords-IsNormal rooted [] st h = tt
AllWords-IsNormal rooted (w ∷ ws) st h =
    ((IsStack-rev_onto rooted ws (w ∷ st) h).0, AllWords-IsNormal rooted ws (w ∷ st) h)

-- A path that does not climb has no leading `..` in the loop.
pub stays :
    (key : Text)
    → climbs key ≡ false
    → has_prefix (codes "/") key ≡ false
    → ends_with_dotdot (collapse false [] (split key)) ≡ false
unfolding split collapse push ends_with_dotdot
stays [] h k = refl
stays (c ∷ s) h k = sym (climbs-eq c s k) ∙ h

-- A folder below the root, by the components of its path
module _ (d : Text) (ds : List Text) (normal : IsNormal true (d ∷ ds)) where
  abbrev pub location : Text
  location = slash ∷ joined (d ∷ ds)

  abbrev below : Text → List Text
  below key = rev_onto (collapse false [] (split key)) []

  stack_below :
      (key : Text)
      → ends_with_dotdot (collapse false [] (split key)) ≡ false
      → collapse true [] (split (slash ∷ (joined (d ∷ ds) ++ (slash ∷ key))))
        ≡ collapse false [] (split key) ++ rev_onto (d ∷ ds) []
  stack_below key h =
      collapse-slashes true 1 [] (joined (d ∷ ds) ++ (slash ∷ key))
      ∙ (ap (collapse true []) (split_below d ds key (IsNormal-Words true (d ∷ ds) [] normal))
          ∙ (collapse-append true [] (d ∷ ds) (split key)
              ∙ (ap (λ st. collapse true st (split key)) (collapse-words true (d ∷ ds) [] normal)
                  ∙ collapse_below true (rev_onto (d ∷ ds) []) (split key) [] refl h)))

  components_below :
      (key : Text)
      → ends_with_dotdot (collapse false [] (split key)) ≡ false
      → rev_onto (collapse true [] (split (slash ∷ (joined (d ∷ ds) ++ (slash ∷ key))))) []
        ≡ (d ∷ ds) ++ below key
  components_below key h =
      ap (λ st. rev_onto st []) (stack_below key h)
      ∙ (rev_onto-append (collapse false [] (split key)) (rev_onto (d ∷ ds) []) []
          ∙ (rev_onto-rev_onto (d ∷ ds) [] (below key) ∙ (unfold rev_onto in refl)))

  initial_slashes_below :
      (key : Text) → initial_slashes (slash ∷ (joined (d ∷ ds) ++ (slash ∷ key))) ≡ 1
  initial_slashes_below key =
      initial_slashes-slashes 1 (joined (d ∷ ds) ++ (slash ∷ key)) (omega arith)
        (no_lead_below d ds (slash ∷ key) (first_is_word_of_IsNormal true (d ∷ ds) normal))

  join-eq :
      (key : Text)
      → has_prefix (codes "/") key ≡ false
      → join location key ≡ location ++ (slash ∷ key)
  unfolding join
  join-eq key k = rw (k, ends_joined d ds (AllWords-IsNormal true (d ∷ ds) [] normal)) refl

  normpath-below :
      (key : Text)
      → climbs key ≡ false
      → has_prefix (codes "/") key ≡ false
      → normpath (join location key) ≡ slash ∷ joined ((d ∷ ds) ++ below key)
  normpath-below key h k =
      ap normpath (join-eq key k)
      ∙ (unfold normpath in
          rw (initial_slashes_below key, components_below key (stays key h k)) refl)

  inside_joined :
      (ks : List Text)
      → (text_eq (slash ∷ joined ((d ∷ ds) ++ ks)) location
          || has_prefix (location ++ codes "/") (slash ∷ joined ((d ∷ ds) ++ ks)))
        ≡ true
  inside_joined [] = rw (append-nil (d ∷ ds), text_eq_refl location) refl
  inside_joined (v ∷ vs) =
      let under : has_prefix (location ++ codes "/") (location ++ (slash ∷ joined (v ∷ vs)))
          ≡ true =
        rw (sym (append_assoc location (codes "/") (joined (v ∷ vs))))
          (has_prefix-append (location ++ codes "/") (joined (v ∷ vs))) in
      rw (joined-append d ds v vs, under) (ground arith)

  -- A relative path that does not climb stays inside.
  pub join-Inside :
      (key : Text)
      → climbs key ≡ false
      → has_prefix (codes "/") key ≡ false
      → Inside location (normpath (join location key))
  join-Inside key h k = (
    normpath-normpath (join location key),
    rw (normpath-below key h k) (inside_joined (below key)),
  )
