-- ===== src/S3/Batches.antt =====
-- The batches in which objects are deleted: app/infrastructure/storage/s3/clients/async_client.py.
use shelf_back.Base.{
  ℕ, zero, suc, ◌+◌, ◌≤◌, ◌≡◌, refl, ap, ◌∙◌, inl, inr, List, [], ◌∷◌, ◌++◌, length, take, drop,
  ◌==◌, arith, false, is_nil, Bool-cases, length-append,
}
use mathlib.Core.List.{append_assoc}
use shelf_back.Base.Text.{Text}
use shelf_back.S3.{delete_limit, slices, batches}

abbrev pub flat {ℓ} : {A : Type ℓ} → List (List A) → List A
flat [] = []
flat (xs ∷ xss) = xs ++ flat xss

-- None of the batches is empty, or longer than a request may be.
abbrev pub Short : List (List Text) → Type 0
Short [] = Unit
Short (xs ∷ xss) = (is_nil xs ≡ false) × (length xs ≤ delete_limit) × Short xss

pub take-append-drop {ℓ} : {A : Type ℓ} (n : ℕ) (xs : List A) → take n xs ++ drop n xs ≡ xs
take-append-drop zero xs = refl
take-append-drop (suc n) [] = refl
take-append-drop (suc n) (x ∷ xs) = ap (λ r. x ∷ r) (take-append-drop n xs)

pub length-take {ℓ} : {A : Type ℓ} (n : ℕ) (xs : List A) → length (take n xs) ≤ n
length-take zero xs = omega arith
length-take (suc n) [] = omega arith
length-take (suc n) (x ∷ xs) = omega (arith, length-take n xs)

length-drop {ℓ} : {A : Type ℓ} (n : ℕ) (xs : List A) → length (drop n xs) ≤ length xs
length-drop zero xs = omega arith
length-drop (suc n) [] = omega arith
length-drop (suc n) (x ∷ xs) = omega (arith, length-drop n xs)

pub flat-slices :
    (fuel : ℕ) (files : List Text) → length files ≤ fuel → flat (slices fuel files) ≡ files
unfolding slices
flat-slices zero [] h = refl
flat-slices zero (f ∷ files) h = absurd (omega (arith, h))
flat-slices (suc fuel) [] h = refl
flat-slices (suc fuel) (f ∷ files) h =
    ap (λ rest. take delete_limit (f ∷ files) ++ rest)
      (flat-slices fuel (drop delete_limit (f ∷ files)) (omega (arith, h, length-drop 999 files)))
    ∙ take-append-drop delete_limit (f ∷ files)

pub slices-Short : (fuel : ℕ) (files : List Text) → Short (slices fuel files)
unfolding slices
slices-Short zero files = tt
slices-Short (suc fuel) [] = tt
slices-Short (suc fuel) (f ∷ files) =
    (refl, length-take delete_limit (f ∷ files), slices-Short fuel (drop delete_limit (f ∷ files)))

pub flat-batches : (files listed : List Text) → flat (batches files listed) ≡ files ++ listed
unfolding batches
flat-batches [] [] = refl
flat-batches (f ∷ files) [] = refl
flat-batches files (g ∷ listed) = elim (Bool-cases (length (files ++ (g ∷ [])) == delete_limit)) [
  | inl e ↦ rw e (
      ap (λ rest. (files ++ (g ∷ [])) ++ rest) (flat-batches [] listed)
      ∙ append_assoc files (g ∷ []) listed)
  | inr e ↦ rw e (flat-batches (files ++ (g ∷ [])) listed ∙ append_assoc files (g ∷ []) listed)
]

is_nil-append : (xs : List Text) (x : Text) → is_nil (xs ++ (x ∷ [])) ≡ false
is_nil-append [] x = refl
is_nil-append (y ∷ xs) x = refl

pub batches-Short :
    (files listed : List Text) → length files + 1 ≤ delete_limit → Short (batches files listed)
unfolding batches
batches-Short [] [] h = tt
batches-Short (f ∷ files) [] h = (refl, omega (arith, h), tt)
batches-Short files (g ∷ listed) h =
    elim (Bool-cases (length (files ++ (g ∷ [])) == delete_limit)) [
      | inl e ↦ rw e (
        is_nil-append files g,
        omega (arith, h, length-append files (g ∷ [])),
        batches-Short [] listed (omega arith),
      )
      | inr e ↦ rw e (
          batches-Short (files ++ (g ∷ [])) listed
            (ground (arith, h, e, length-append files (g ∷ []))))
    ]
