-- ===== src/S3/Parts.antt =====
-- The parts in which a content is uploaded: app/infrastructure/storage/s3/clients/async_client.py.
use shelf_back.Base.{
  ℕ, zero, suc, ◌+◌, ◌*◌, ◌<◌, ◌≤◌, ◌≡◌, refl, ap, ◌∙◌, inl, inr, List, [], ◌∷◌, ◌++◌, length, take,
  drop, ltb, ◌==◌, arith, Bool-cases, length-append,
}
use Prim.Native.Nat.{◌/◌}
use mathlib.Core.List.{append-nil}
use shelf_back.Base.Text.{Text}
use shelf_back.S3.Multipart.{five_mb, part_size, read_chunks}
use shelf_back.S3.Batches.{flat, take-append-drop, length-take}

-- Full chunks, and a last one that is shorter and may be empty
abbrev pub IsChunked : ℕ → List Text → Type 0
IsChunked n [] = ⊥
IsChunked n (c ∷ []) = length c < n
IsChunked n (c ∷ d ∷ cs) = (length c ≡ n) × IsChunked n (d ∷ cs)

IsChunked-cons :
    (n : ℕ) (c : Text) (cs : List Text) → length c ≡ n → IsChunked n cs → IsChunked n (c ∷ cs)
IsChunked-cons n c [] h k = absurd k
IsChunked-cons n c (d ∷ cs) h k = (h, k)

take_short : (n : ℕ) (xs : Text) → length (take n xs) < n → take n xs ≡ xs
take_short zero xs h = absurd (omega (arith, h))
take_short (suc n) [] h = refl
take_short (suc n) (x ∷ xs) h = ap (λ r. x ∷ r) (take_short n xs (omega (arith, h)))

length-take-drop : (n : ℕ) (xs : Text) → length (take n xs) + length (drop n xs) ≡ length xs
length-take-drop zero xs = omega arith
length-take-drop (suc n) [] = omega arith
length-take-drop (suc n) (x ∷ xs) = omega (arith, length-take-drop n xs)

-- The chunks one after the other are the content.
flat-read_chunks :
    (fuel n : ℕ) (bytes : Text)
    → 1 ≤ n
    → length bytes + 1 ≤ fuel
    → flat (read_chunks fuel n bytes) ≡ bytes
unfolding read_chunks
flat-read_chunks zero n bytes h k = absurd (omega (arith, k))
flat-read_chunks (suc fuel) n bytes h k = elim (Bool-cases (length (take n bytes) == n)) [
  | inl e ↦ rw e (
      ap (λ r. take n bytes ++ r)
        (flat-read_chunks fuel n (drop n bytes) h
          (ground (arith, h, k, e, length-take-drop n bytes)))
      ∙ take-append-drop n bytes)
  | inr e ↦
      rw e (append-nil (take n bytes) ∙ take_short n bytes (ground (arith, e, length-take n bytes)))
]

read_chunks-IsChunked :
    (fuel n : ℕ) (bytes : Text)
    → 1 ≤ n
    → length bytes + 1 ≤ fuel
    → IsChunked n (read_chunks fuel n bytes)
unfolding read_chunks
read_chunks-IsChunked zero n bytes h k = absurd (omega (arith, k))
read_chunks-IsChunked (suc fuel) n bytes h k = elim (Bool-cases (length (take n bytes) == n)) [
  | inl e ↦ rw e (
      IsChunked-cons n (take n bytes) (read_chunks fuel n (drop n bytes)) (ground (arith, e)) (
        read_chunks-IsChunked fuel n (drop n bytes) h
          (ground (arith, h, k, e, length-take-drop n bytes))))
  | inr e ↦ rw e (ground (arith, e, length-take n bytes))
]

count_bound : (n : ℕ) (cs : List Text) → IsChunked n cs → length cs * n ≤ length (flat cs) + n
count_bound n [] h = absurd h
count_bound n (c ∷ []) h = omega (arith, h, length-append c [])
count_bound n (c ∷ d ∷ cs) (h, hs) =
    omega (arith, h, length-append c (flat (d ∷ cs)), count_bound n (d ∷ cs) hs)

part_size_small : (size : ℕ) → size < five_mb * 10000 → part_size size ≡ five_mb
unfolding part_size
part_size_small size h = elim (Bool-cases (ltb five_mb (size / (five_mb * 10000)))) [
  | inl e ↦ absurd (ground (arith, h, e))
  | inr e ↦ rw e refl
]

-- A content whose size is less than 50000 MB, and which gives no more than its size, is cut into parts
-- that are it, one after the other: of 5 MB each but for the last, which is shorter, and not more than
-- the 10000 that an upload may have.
pub read_chunks_lem :
    (size : ℕ) (bytes : Text)
    → size < five_mb * 10000
    → length bytes ≤ size
    → let chunks = read_chunks (suc (length bytes)) (part_size size) bytes in
      (flat chunks ≡ bytes) × IsChunked five_mb chunks × (length chunks ≤ 10000)
read_chunks_lem size bytes h l = rw (part_size_small size h) (
    let chunks = read_chunks (suc (length bytes)) five_mb bytes in
    let content : flat chunks ≡ bytes =
      flat-read_chunks (suc (length bytes)) five_mb bytes (omega arith) (omega arith) in
    let chunked : IsChunked five_mb chunks =
      read_chunks-IsChunked (suc (length bytes)) five_mb bytes (omega arith) (omega arith) in
    (content, chunked, omega (arith, h, l, ap length content, count_bound five_mb chunks chunked)))
