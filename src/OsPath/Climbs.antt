-- ===== src/OsPath/Climbs.antt =====
-- Relative paths whose normal form begins with `..`, for `os.path.normpath`.
use shelf_back.Base.{
  ℕ, ◌≡◌, refl, ap, ◌∙◌, inl, inr, Bool, true, false, List, [], ◌∷◌, ◌++◌, arith, is_nil,
  Bool-cases,
}
use shelf_back.Base.Text.{Text, codes, text_eq, has_prefix}
use shelf_back.OsPath.{
  split, joined, initial_slashes, is_dotdot, is_skipped, top_is_dotdot, is_kept, pop, push,
  collapse, rev_onto, or_dot, normpath,
}
use shelf_back.OsPath.Normal.{
  split-joined, collapse-IsStack, split-Words, split-append, no_slash, is_word, Words, IsNormal,
  rev_onto_twice, first_is_word, first_is_word_of_IsNormal, IsNormal-Words,
}

-- The normal form of the path begins with `..`.
unfoldable pub climbs : Text → Bool
climbs path = top_is_dotdot (split (normpath path))

-- The first component, where the last stands first.
unfoldable pub ends_with_dotdot : List Text → Bool
ends_with_dotdot [] = false
ends_with_dotdot (w ∷ []) = is_dotdot w
ends_with_dotdot (_ ∷ v ∷ ws) = ends_with_dotdot (v ∷ ws)

ends_with_dotdot-cons :
    (w : Text) (st : List Text) → ends_with_dotdot st ≡ true → ends_with_dotdot (w ∷ st) ≡ true
unfolding ends_with_dotdot
ends_with_dotdot-cons w [] h = cc
ends_with_dotdot-cons w (v ∷ st) h = h

ends_with_dotdot-pop :
    (st : List Text)
    → ends_with_dotdot st ≡ true
    → top_is_dotdot st ≡ false
    → ends_with_dotdot (pop st) ≡ true
unfolding ends_with_dotdot
ends_with_dotdot-pop [] h k = h
ends_with_dotdot-pop (w ∷ []) h k = cc
ends_with_dotdot-pop (w ∷ v ∷ st) h k = h

is_kept-top : (st : List Text) (w : Text) → is_kept false st w ≡ false → top_is_dotdot st ≡ false
is_kept-top st w h = ground (arith, h)

ends_with_dotdot-push :
    (st : List Text) (w : Text)
    → ends_with_dotdot st ≡ true
    → ends_with_dotdot (push false st w) ≡ true
unfolding push
ends_with_dotdot-push st w h = elim (Bool-cases (is_skipped w)) [
  | inl skipped ↦ rw skipped h
  | inr word ↦ rw word (elim (Bool-cases (is_kept false st w)) [
    | inl kept ↦ rw kept (ends_with_dotdot-cons w st h)
    | inr popped ↦ rw popped (ends_with_dotdot-pop st h (is_kept-top st w popped))
  ])
]

-- Nothing takes a leading `..` away.
pub ends_with_dotdot-collapse :
    (ws st : List Text)
    → ends_with_dotdot st ≡ true
    → ends_with_dotdot (collapse false st ws) ≡ true
unfolding collapse
ends_with_dotdot-collapse [] st h = h
ends_with_dotdot-collapse (w ∷ ws) st h =
    ends_with_dotdot-collapse ws (push false st w) (ends_with_dotdot-push st w h)

top-rev_onto :
    (w : Text) (st acc : List Text)
    → top_is_dotdot (rev_onto (w ∷ st) acc) ≡ ends_with_dotdot (w ∷ st)
unfolding rev_onto ends_with_dotdot
top-rev_onto w [] acc = refl
top-rev_onto w (v ∷ st) acc = top-rev_onto v st (w ∷ acc)

joined-is_nil : (v : Text) (vs : List Text) → is_word v ≡ true → is_nil (joined (v ∷ vs)) ≡ false
unfolding joined
joined-is_nil [] vs h = cc
joined-is_nil (c ∷ v) [] h = refl
joined-is_nil (c ∷ v) (u ∷ vs) h = refl

climbs_joined :
    (cs : List Text)
    → first_is_word cs ≡ true
    → Words cs
    → top_is_dotdot (split (or_dot (joined cs))) ≡ top_is_dotdot cs
unfolding joined split text_eq
climbs_joined [] h k = refl
climbs_joined (v ∷ vs) h k = rw (joined-is_nil v vs h, split-joined v vs k) refl

top-rev_onto_nil : (st : List Text) → top_is_dotdot (rev_onto st []) ≡ ends_with_dotdot st
unfolding rev_onto ends_with_dotdot
top-rev_onto_nil [] = refl
top-rev_onto_nil (w ∷ st) = top-rev_onto w st []

-- The components that the loop of `normpath` leaves of a path that is not rooted
pub stack-IsNormal : (s : Text) → IsNormal false (rev_onto (collapse false [] (split s)) [])
stack-IsNormal s =
    rw (rev_onto_twice (collapse false [] (split s)))
      (collapse-IsStack false (split s) [] (split-Words s) tt)

pub normpath_relative :
    (c : ℕ) (s : Text)
    → has_prefix (codes "/") (c ∷ s) ≡ false
    → normpath (c ∷ s) ≡ or_dot (joined (rev_onto (collapse false [] (split (c ∷ s))) []))
unfolding normpath initial_slashes
normpath_relative c s h = rw h refl

-- A path that is not rooted climbs when the loop of `normpath` ends with `..` as its first component.
pub climbs-eq :
    (c : ℕ) (s : Text)
    → has_prefix (codes "/") (c ∷ s) ≡ false
    → climbs (c ∷ s) ≡ ends_with_dotdot (collapse false [] (split (c ∷ s)))
unfolding climbs
climbs-eq c s h =
    let cs = rev_onto (collapse false [] (split (c ∷ s))) [] in
    let normal = stack-IsNormal (c ∷ s) in
    ap (λ p. top_is_dotdot (split p)) (normpath_relative c s h)
    ∙ (climbs_joined cs (first_is_word_of_IsNormal false cs normal)
          (IsNormal-Words false cs [] normal)
        ∙ top-rev_onto_nil (collapse false [] (split (c ∷ s))))

split-out :
    (w r : Text)
    → no_slash w ≡ true
    → split (w ++ (codes "/../../" ++ r)) ≡ w ∷ codes ".." ∷ codes ".." ∷ split r
unfolding split
split-out w r h = split-append w (codes "../../" ++ r) h

pub push-plain : (w : Text) → is_word w ≡ true → is_dotdot w ≡ false → push false [] w ≡ w ∷ []
unfolding push
push-plain w h k = let word : is_skipped w ≡ false = ground (arith, h) in rw (word, k) refl

collapse-out :
    (w : Text) (ws : List Text)
    → is_word w ≡ true
    → is_dotdot w ≡ false
    → ends_with_dotdot (collapse false [] (w ∷ codes ".." ∷ codes ".." ∷ ws)) ≡ true
unfolding collapse
collapse-out w ws h k = rw (push-plain w h k) (
    unfold push text_eq in
    rw k (ends_with_dotdot-collapse ws (codes ".." ∷ []) (unfold ends_with_dotdot text_eq in refl)))

-- `w/../../r` climbs.
pub climbs-out :
    (w r : Text)
    → is_word w ≡ true
    → is_dotdot w ≡ false
    → climbs (w ++ (codes "/../../" ++ r)) ≡ true
climbs-out [] r h k = cc
climbs-out (c ∷ w) r h k =
    climbs-eq c (w ++ (codes "/../../" ++ r)) (unfold has_prefix in ground (arith, h))
    ∙ (ap (λ ws. ends_with_dotdot (collapse false [] ws)) (split-out (c ∷ w) r (ground (arith, h)))
        ∙ collapse-out (c ∷ w) (split r) h k)
