-- ===== src/Photos/AlbumService/Finding.antt =====
-- Pairs, rows and sorted rows of albums and media items, for what an album shows:
-- app/infrastructure/database/tortoise/repositories/album.py.
use shelf_back.Base.{
  ℕ, zero, suc, ◌+◌, ◌≤◌, ◌≡◌, refl, ap, Bool, true, false, ◌&&◌, ◌||◌, inl, inr, some, List, [],
  ◌∷◌, ◌++◌, ◌==◌, ==_iff, ==_refl, if◌then◌else◌, keep_if, any, contains, find_first, sort_by,
  insert_sorted, length, take, Bool-cases, arith,
}
use shelf_back.Base.Exec.{Result, ok, err, rollback}
use shelf_back.Photos.{Album, MediaItem}
use shelf_back.Photos.Albums.{has_item, add_pairs, ids_of, is_live}

has_item-append :
    (ps qs : List (ℕ × ℕ)) (album_id id : ℕ)
    → has_item (ps ++ qs) album_id id ≡ (has_item ps album_id id || has_item qs album_id id)
unfolding has_item
has_item-append [] qs album_id id = refl
has_item-append ((a, i) ∷ ps) qs album_id id = ground (arith, has_item-append ps qs album_id id)

has_item-grown :
    (album_id i id : ℕ) (pairs : List (ℕ × ℕ)) (rest : Bool)
    → has_item pairs album_id id || ((i == id) || rest) ≡ true
    → has_item
          (if has_item pairs album_id i then pairs else pairs ++ ((album_id, i) ∷ []))
          album_id
          id
        || rest
      ≡ true
unfolding has_item
has_item-grown album_id i id pairs rest h = elim (Bool-cases (i == id)) [
  | inl e ↦ elim (Bool-cases (has_item pairs album_id i)) [
    | inl k ↦ rw (k, rw ((==_iff i id).0 e) at k) refl
    | inr k ↦
        rw (k, has_item-append pairs ((album_id, i) ∷ []) album_id id, ==_refl album_id, e)
          (ground arith)
  ]
  | inr e ↦ elim (Bool-cases (has_item pairs album_id i)) [
    | inl k ↦ rw k (ground (arith, h, e))
    | inr k ↦ rw (k, has_item-append pairs ((album_id, i) ∷ []) album_id id) (ground (arith, h, e))
  ]
]

pub has_item-add_pairs :
    (album_id id : ℕ) (ids : List ℕ) (pairs : List (ℕ × ℕ))
    → has_item pairs album_id id || contains ids id ≡ true
    → has_item (add_pairs album_id ids pairs) album_id id ≡ true
unfolding add_pairs has_item contains
has_item-add_pairs album_id id [] pairs h = ground (arith, h)
has_item-add_pairs album_id id (i ∷ ids) pairs h =
    has_item-add_pairs album_id id ids
      (if has_item pairs album_id i then pairs else pairs ++ ((album_id, i) ∷ []))
      (has_item-grown album_id i id pairs (contains ids id) h)

pub any-keep_if-found :
    (p r : Album → Bool) (albums : List Album) (b : Album)
    → find_first p albums ≡ some b
    → r b ≡ true
    → any r (keep_if p albums) ≡ true
unfolding any keep_if find_first
any-keep_if-found p r [] b h k = cc
any-keep_if-found p r (a ∷ albums) b h k = ground (arith, any-keep_if-found p r albums b)

pub any-keep_if-live :
    (id : ℕ) (q : MediaItem → Bool) (ms : List MediaItem)
    → ((n : MediaItem) → (n.id == id) ≡ true → is_live n ≡ true → q n ≡ true)
    → any (λ n. n.id == id && is_live n) ms ≡ true
    → any (λ n. n.id == id) (keep_if q ms) ≡ true
unfolding any keep_if
any-keep_if-live id q [] f h = cc
any-keep_if-live id q (n ∷ ms) f h = ground (arith, f n, any-keep_if-live id q ms f)

pub contains-live :
    (ids : List ℕ) (id : ℕ) (ms : List MediaItem)
    → any (λ n. n.id == id && is_live n) ms ≡ true
    → contains ids id ≡ true
    → contains (ids_of (keep_if (λ m. contains ids m.id) ms)) id ≡ true
unfolding any contains keep_if
contains-live ids id [] h k = cc
contains-live ids id (m ∷ ms) h k = ground (arith, contains-live ids id ms)

pub or_true : (a b : Bool) → b ≡ true → a || b ≡ true
or_true a b h = ground (arith, h)

pub length-keep_if : {A : Type 0} (q : A → Bool) (xs : List A) → length (keep_if q xs) ≤ length xs
unfolding keep_if
length-keep_if q [] = omega arith
length-keep_if q (x ∷ xs) = ground (arith, length-keep_if q xs)

length-insert_sorted :
    {A : Type 0} (lt : A → A → Bool) (x : A) (xs : List A)
    → length (insert_sorted lt x xs) ≡ length xs + 1
unfolding insert_sorted
length-insert_sorted lt x [] = refl
length-insert_sorted lt x (y ∷ xs) = ground (arith, length-insert_sorted lt x xs)

pub length-sort_by :
    {A : Type 0} (lt : A → A → Bool) (xs : List A) → length (sort_by lt xs) ≡ length xs
unfolding sort_by
length-sort_by lt [] = refl
length-sort_by lt (x ∷ xs) =
    omega (arith, length-insert_sorted lt x (sort_by lt xs), length-sort_by lt xs)

pub take_all : {A : Type 0} (n : ℕ) (xs : List A) → length xs ≤ n → take n xs ≡ xs
take_all zero [] h = refl
take_all zero (x ∷ xs) h = absurd (omega (arith, h))
take_all (suc n) [] h = refl
take_all (suc n) (x ∷ xs) h = ap (λ r. x ∷ r) (take_all n xs (omega (arith, h)))

pub rollback_ok :
    {S A : Type 0} (x : Result A × S) (s t : S) (a : A) → rollback x s ≡ (ok a, t) → x ≡ (ok a, t)
rollback_ok (ok b, u) s t a h = h
rollback_ok (err e, u) s t a h = let no = ap (λ x. x.0) h in cc

pub kept_id :
    (b : Bool) (a : Album) (change : Album → Album)
    → (change a).id ≡ a.id
    → (if b then change a else a).id ≡ a.id
kept_id true a change h = h
kept_id false a change h = refl
