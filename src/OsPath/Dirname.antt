-- ===== src/OsPath/Dirname.antt =====
-- `os.path.dirname` of a relative path.
use shelf_back.Base.{
  ℕ, ◌≡◌, ◌⊎◌, refl, sym, ap, ◌∙◌, inl, inr, true, false, not, ◌&&◌, List, [], ◌∷◌, ◌++◌, arith,
  is_nil, Bool-cases,
}
use shelf_back.Base.Text.{Text, codes, text_eq, has_prefix}
use shelf_back.OsPath.{
  slash, is_slash, split, collapse, normpath, partition_last, strip_slashes, only_slashes, dirname,
}
use shelf_back.OsPath.Climbs.{climbs, climbs-eq, ends_with_dotdot, ends_with_dotdot-collapse}
use shelf_back.OsPath.Inside.{collapse-append}

is_slash-eq : (c : ℕ) → is_slash c ≡ true → c ≡ slash
is_slash-eq c h = ground (arith, h)

split_cons : (s : Text) → (w : Text) × (ws : List Text) × (split s ≡ w ∷ ws)
unfolding split
split_cons [] = ([], [], refl)
split_cons (c ∷ s) = elim (Bool-cases (is_slash c)) [
  | inl e ↦ ([], split s, rw e refl)
  | inr e ↦ let (w, ws, eq) = split_cons s in (c ∷ w, ws, rw (e, eq) refl)
]

split-at : (p q : Text) → split (p ++ (slash ∷ q)) ≡ split p ++ split q
unfolding split
split-at [] q = refl
split-at (c ∷ p) q = elim (Bool-cases (is_slash c)) [
  | inl e ↦ rw (e, split-at p q) refl
  | inr e ↦ let (w, ws, eq) = split_cons p in rw (e, split-at p q, eq) refl
]

-- The text goes on with a slash after its directory, if it has one.
abbrev After : Text → Text → Type 0
After head s = (head ≡ []) ⊎ ((q : Text) × (s ≡ strip_slashes head ++ (slash ∷ q)))

After-cons :
    (c : ℕ) (s head : Text)
    → (is_nil head && not (is_slash c)) ≡ false
    → After head s
    → After (c ∷ head) (c ∷ s)
unfolding strip_slashes
After-cons c s head h (inl e) =
    let lead : is_slash c ≡ true = ground (arith, h, e) in
    inr (s, rw (e, lead) (ap (λ d. d ∷ s) (is_slash-eq c lead)))
After-cons c s head h (inr (q, e)) = elim (Bool-cases (is_nil (strip_slashes head) && is_slash c)) [
  | inl k ↦ inr (s, rw k (ap (λ d. d ∷ s) (is_slash-eq c (ground (arith, k)))))
  | inr k ↦ inr (q, rw (k, e) refl)
]

After-head : (s : Text) → After (partition_last s).0 s
unfolding partition_last
After-head [] = inl refl
After-head (c ∷ s) = elim (Bool-cases (is_nil (partition_last s).0 && not (is_slash c))) [
  | inl e ↦ inl (rw e refl)
  | inr e ↦ rw e (After-cons c s (partition_last s).0 e (After-head s))
]

strip_only_slashes : (s : Text) → only_slashes s ≡ true → strip_slashes s ≡ []
unfolding strip_slashes
strip_only_slashes [] h = refl
strip_only_slashes (c ∷ s) h =
    let lead : is_slash c ≡ true = ground (arith, h) in
    rw (strip_only_slashes s (ground (arith, h)), lead) refl

contradict : (s q : Text) → s ≡ slash ∷ q → has_prefix (codes "/") s ≡ true
unfolding has_prefix
contradict s q e = rw e refl

dirname-cases :
    (s : Text)
    → has_prefix (codes "/") s ≡ false
    → (dirname s ≡ []) ⊎ ((q : Text) × (s ≡ dirname s ++ (slash ∷ q)))
unfolding dirname has_prefix
dirname-cases s h = elim (After-head s) [
  | inl e ↦ inl (rw e refl)
  | inr (q, e) ↦ elim (Bool-cases (only_slashes (partition_last s).0)) [
    | inl k ↦
        let rooted : s ≡ slash ∷ q = e ∙ ap (λ p. p ++ (slash ∷ q)) (strip_only_slashes _ k) in
        absurd (let lead = contradict s q rooted in cc)
    | inr k ↦ inr (q, rw k e)
  ]
]

climbs_nil : climbs [] ≡ false
unfolding climbs normpath split text_eq
climbs_nil = refl

parent_stays :
    (p q : Text)
    → climbs (p ++ (slash ∷ q)) ≡ false
    → has_prefix (codes "/") (p ++ (slash ∷ q)) ≡ false
    → (climbs p ≡ false) × (has_prefix (codes "/") p ≡ false)
unfolding has_prefix
parent_stays [] q h k = (climbs_nil, refl)
parent_stays (c ∷ p) q h k =
    elim (Bool-cases (ends_with_dotdot (collapse false [] (split (c ∷ p))))) [
      | inl up ↦
          let whole =
            ap (collapse false []) (split-at (c ∷ p) q)
            ∙ collapse-append false [] (split (c ∷ p)) (split q) in
          let up2 = ends_with_dotdot-collapse (split q) _ up in
          let here = sym (climbs-eq c (p ++ (slash ∷ q)) k) ∙ h in
          absurd (let same = ap ends_with_dotdot whole in cc)
      | inr down ↦ (climbs-eq c p k ∙ down, k)
    ]

-- The directory of a path that does not climb does not climb, and is relative as the path is.
pub dirname-stays :
    (s : Text)
    → climbs s ≡ false
    → has_prefix (codes "/") s ≡ false
    → (climbs (dirname s) ≡ false) × (has_prefix (codes "/") (dirname s) ≡ false)
unfolding has_prefix
dirname-stays s h k = elim (dirname-cases s k) [
  | inl e ↦ rw e (climbs_nil, refl)
  | inr (q, e) ↦ parent_stays (dirname s) q (rw (sym e) h) (rw (sym e) k)
]
