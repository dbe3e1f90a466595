-- ===== src/Photos/AlbumService/Latest.antt =====
-- Which item is the cover that an album gets: the query of `AlbumRepository.list_cover_candidates`,
-- app/infrastructure/database/tortoise/repositories/album.py.
use shelf_back.Base.{
  ℕ, ◌≡◌, refl, Bool, true, false, ◌&&◌, ◌||◌, ◌⊎◌, inl, inr, Option, none, some, List, [], ◌∷◌,
  map, ◌==◌, ltb, if◌then◌else◌, keep_if, any, Bool-cases, Option-cases, arith,
}
use shelf_back.Base.Exec.{ok}
use shelf_back.Photos.{MediaItem, PhotoDb}
use shelf_back.Photos.Albums.{cover_candidate, first_item, comes_first, has_item, is_live}
use shelf_back.Photos.AlbumService.{reassign_covers}
use shelf_back.Photos.AlbumService.Covers.{recover, reassign_covers_lem}

-- `k` was modified after `m`, or at the same time with a smaller identifier.
unfoldable pub is_later : MediaItem → MediaItem → Bool
is_later k m = ltb m.modified_at k.modified_at || (k.modified_at == m.modified_at && ltb k.id m.id)

-- `m` is a row of the list.
abbrev pub IsRow : MediaItem → List MediaItem → Type 0
IsRow m [] = ⊥
IsRow m (k ∷ ms) = (k ≡ m) ⊎ IsRow m ms

-- Of the rows that pass the test this is the latest, or there is none.
abbrev pub IsLatest : (MediaItem → Bool) → List MediaItem → Option MediaItem → Type 0
IsLatest p ms none = any p ms ≡ false
IsLatest p ms (some m) = IsRow m ms × (p m ≡ true) × (any (λ k. p k && is_later k m) ms ≡ false)

-- The items of the album that are not deleted
abbrev pub shows : PhotoDb → ℕ → MediaItem → Bool
shows db album_id m = has_item db.album_items album_id m.id && is_live m

none_later :
    (p : MediaItem → Bool) (j m : MediaItem) (ms : List MediaItem)
    → is_later j m ≡ false
    → any (λ k. p k && is_later k j) ms ≡ false
    → any (λ k. p k && is_later k m) ms ≡ false
unfolding any is_later
none_later p j m [] h e = refl
none_later p j m (k ∷ ms) h e = elim (Bool-cases (p k)) [
  | inl q ↦ rw q (ground (arith, h, e, q, none_later p j m ms h))
  | inr q ↦ rw q (none_later p j m ms h (rw q at e))
]

none_passes :
    (p : MediaItem → Bool) (m : MediaItem) (ms : List MediaItem)
    → any p ms ≡ false
    → any (λ k. p k && is_later k m) ms ≡ false
unfolding any
none_passes p m [] e = refl
none_passes p m (k ∷ ms) e = ground (arith, e, none_passes p m ms)

not_later : (m : MediaItem) → is_later m m ≡ false
unfolding is_later
not_later m = ground arith

asymmetric : (j k : MediaItem) → comes_first j k ≡ true → is_later k j ≡ false
unfolding is_later
asymmetric j k h = ground (arith, h)

same_order : (j k : MediaItem) → comes_first j k ≡ false → is_later j k ≡ false
unfolding is_later
same_order j k h = h

-- The better of an item and the latest of the rest
abbrev better : MediaItem → Option MediaItem → Option MediaItem
better k none = some k
better k (some j) = if comes_first j k then some j else some k

better-IsLatest :
    (p : MediaItem → Bool) (k : MediaItem) (ms : List MediaItem) (r : Option MediaItem)
    → p k ≡ true
    → IsLatest p ms r
    → IsLatest p (k ∷ ms) (better k r)
unfolding any
better-IsLatest p k ms none q e = (inl refl, q, rw (q, not_later k) (none_passes p k ms e))
better-IsLatest p k ms (some j) q (row, pj, e) = elim (Bool-cases (comes_first j k)) [
  | inl c ↦ rw c (inr row, pj, rw (q, asymmetric j k c) e)
  | inr c ↦ rw c (inl refl, q, rw (q, not_later k) (none_later p j k ms (same_order j k c) e))
]

first_item-better :
    (k : MediaItem) (ms : List MediaItem) → first_item (k ∷ ms) ≡ better k (first_item ms)
unfolding first_item
first_item-better k ms = elim (Option-cases (first_item ms)) [
  | inl e ↦ rw e refl
  | inr (j, e) ↦ rw e refl
]

-- An item that does not pass the test changes nothing.
skip-IsLatest :
    (p : MediaItem → Bool) (k : MediaItem) (ms : List MediaItem) (r : Option MediaItem)
    → p k ≡ false
    → IsLatest p ms r
    → IsLatest p (k ∷ ms) r
unfolding any
skip-IsLatest p k ms none q e = rw q e
skip-IsLatest p k ms (some m) q (row, pm, e) = (inr row, pm, rw q e)

first_item-keep_if-IsLatest :
    (p : MediaItem → Bool) (ms : List MediaItem) → IsLatest p ms (first_item (keep_if p ms))
unfolding keep_if
first_item-keep_if-IsLatest p [] = unfold first_item any in refl
first_item-keep_if-IsLatest p (k ∷ ms) = elim (Bool-cases (p k)) [
  | inl q ↦
      rw (q, first_item-better k (keep_if p ms))
        (better-IsLatest p k ms _ q (first_item-keep_if-IsLatest p ms))
  | inr q ↦ rw q (skip-IsLatest p k ms _ q (first_item-keep_if-IsLatest p ms))
]

-- `reassign_covers` always succeeds. It gives each of the named albums the cover that the query
-- `cover_candidate` names and changes nothing else, the other albums' covers included; and what the query
-- names for an album is an item of it that is not deleted, such that no other is later, or none if the
-- album has no such item. Of two items modified at the same time, the one with the smaller identifier is
-- the later one.
pub reassign_covers-IsLatest :
    (ids : List ℕ) (album_id : ℕ) (db : PhotoDb)
    → (reassign_covers ids db ≡ (ok tt, record db { albums = map (recover db ids) db.albums }))
      × IsLatest (shows db album_id) db.media_items (cover_candidate db album_id)
unfolding cover_candidate
reassign_covers-IsLatest ids album_id db =
    (reassign_covers_lem ids db, first_item-keep_if-IsLatest (shows db album_id) db.media_items)
