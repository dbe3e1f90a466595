-- ===== src/Photos/MediaItemService/Deletion.antt =====
-- The covers of albums and `MediaItemUseCase.delete_batch`, app/app/photos/usecases/media_item.py.
use shelf_back.Base.{
  ℕ, ◌≡◌, refl, sym, ap, ◌∙◌, Bool, true, false, not, ◌&&◌, ◌||◌, inl, inr, Option, some, List, [],
  ◌∷◌, map, ◌==◌, keep_if, any, contains, update_where, sort_by, insert_sorted, is_nil, Bool-cases,
  Option-cases, arith, ==_refl,
}
use shelf_back.Base.Exec.{ok}
use shelf_back.Photos.{Album, MediaItem, PhotoDb}
use shelf_back.Photos.Albums.{
  cover_candidate, cover_in, has_item, is_live, ids_of, first_item, list_ids_by_cover_ids,
}
use shelf_back.Photos.MediaItems.{mark_deleted, set_deleted_at_batch, latest_first}
use shelf_back.Photos.AlbumService.Covers.{recover, reassign_covers_lem, first_item-keep_if}
use shelf_back.Photos.MediaItemService.{soft_delete, delete_batch}

contains-insert_sorted :
    (lt : MediaItem → MediaItem → Bool) (m : MediaItem) (ms : List MediaItem) (k : ℕ)
    → contains (ids_of (insert_sorted lt m ms)) k ≡ (m.id == k || contains (ids_of ms) k)
unfolding contains insert_sorted
contains-insert_sorted lt m [] k = refl
contains-insert_sorted lt m (j ∷ ms) k = ground (arith, contains-insert_sorted lt m ms k)

contains-sort_by :
    (lt : MediaItem → MediaItem → Bool) (ms : List MediaItem) (k : ℕ)
    → contains (ids_of (sort_by lt ms)) k ≡ contains (ids_of ms) k
unfolding contains sort_by
contains-sort_by lt [] k = refl
contains-sort_by lt (m ∷ ms) k =
    contains-insert_sorted lt m (sort_by lt ms) k ∙ rw (contains-sort_by lt ms k)

-- A test that does not look at the time of deletion.
ids_of-mark_deleted :
    (p t : MediaItem → Bool) (d : Option ℕ) (ms : List MediaItem)
    → ((m : MediaItem) → p (mark_deleted d m) ≡ p m)
    → ids_of (keep_if p (update_where t (mark_deleted d) ms)) ≡ ids_of (keep_if p ms)
unfolding keep_if update_where
ids_of-mark_deleted p t d [] h = refl
ids_of-mark_deleted p t d (m ∷ ms) h = ground (arith, h m, ids_of-mark_deleted p t d ms h)

-- The live rows after a deletion are the live rows before that were not deleted.
live-mark_deleted :
    (p t : MediaItem → Bool) (now : ℕ) (ms : List MediaItem)
    → keep_if (λ m. p m && is_live m) (update_where t (mark_deleted (some now)) ms)
      ≡ keep_if (λ m. (p m && is_live m) && not (t m)) ms
unfolding keep_if update_where
live-mark_deleted p t now [] = refl
live-mark_deleted p t now (m ∷ ms) = ground (arith, live-mark_deleted p t now ms)

contains-keep_if :
    (q : Album → Bool) (albums : List Album) (k : ℕ)
    → contains (map (λ a. a.id) (keep_if q albums)) k ≡ any (λ a. q a && (a.id == k)) albums
unfolding contains keep_if any
contains-keep_if q [] k = refl
contains-keep_if q (a ∷ albums) k = ground (arith, contains-keep_if q albums k)

-- New covers that fail a test leave no album that passes it, if every album that did is among those
-- that get one.
none_left :
    (db : PhotoDb) (ids : List ℕ) (q : Album → Bool) (albums : List Album)
    → ((a : Album) → contains ids a.id ≡ true → q (recover db ids a) ≡ false)
    → ((k : ℕ) → any (λ a. q a && (a.id == k)) albums ≡ true → contains ids k ≡ true)
    → any q (map (recover db ids) albums) ≡ false
unfolding any recover
none_left db ids q [] h g = refl
none_left db ids q (a ∷ albums) h g =
    rw (none_left db ids q albums h (λ k e. g k (rw e (ground arith))))
      (elim (Bool-cases (contains ids a.id)) [
        | inl e ↦ rw (h a e)
        | inr e ↦ rw e (elim (Bool-cases (q a)) [
          | inl f ↦ ground (arith, g a.id (rw (f, ==_refl a.id)), e)
          | inr f ↦ rw f
        ])
      ])

module _ (now owner_id : ℕ) (ids : List ℕ) (db : PhotoDb) where
  abbrev named : MediaItem → Bool
  named m = contains ids m.id && (m.owner_id == owner_id)

  abbrev matching : List ℕ
  matching = ids_of (keep_if named db.media_items)

  -- The store once the items are marked.
  abbrev marked : PhotoDb
  marked = record db {
    media_items =
        update_where (λ m. contains matching m.id) (mark_deleted (some now)) db.media_items;
  }

  abbrev pub returned : List MediaItem
  returned = sort_by latest_first (keep_if named marked.media_items)

  contains-returned : (k : ℕ) → contains (ids_of returned) k ≡ contains matching k
  contains-returned k =
      contains-sort_by latest_first (keep_if named marked.media_items) k
      ∙ ap (λ ms. contains ms k)
          (ids_of-mark_deleted named (λ m. contains matching m.id) (some now) db.media_items
            (λ m. refl))

  candidate-returned :
      (album_id : ℕ) (m : MediaItem)
      → cover_candidate marked album_id ≡ some m
      → contains (ids_of returned) m.id ≡ false
  unfolding cover_candidate
  candidate-returned album_id m h =
      let rows =
        live-mark_deleted (λ k. has_item db.album_items album_id k.id) (λ k. contains matching k.id)
          now db.media_items in
      let kept = first_item-keep_if _ db.media_items m (ap first_item (sym rows) ∙ h) in
      contains-returned m.id ∙ ground (arith, kept.0)

  abbrev pub covered : Album → Bool
  covered a = a.owner_id == owner_id && cover_in (ids_of returned) a

  recover-covered :
      (album_ids : List ℕ) (a : Album)
      → contains album_ids a.id ≡ true
      → covered (recover marked album_ids a) ≡ false
  unfolding recover
  recover-covered album_ids a h = elim (Option-cases (cover_candidate marked a.id)) [
    | inl e ↦ rw (h, e) (ground arith)
    | inr (m, e) ↦ rw (h, e, candidate-returned a.id m e) (ground arith)
  ]

  covered_none :
      (ms : List MediaItem) (albums : List Album)
      → is_nil ms ≡ true
      → any (λ a. a.owner_id == owner_id && cover_in (ids_of ms) a) albums ≡ false
  unfolding any contains
  covered_none ms [] h = refl
  covered_none [] (a ∷ albums) h = ground (arith, covered_none [] albums h)
  covered_none (m ∷ ms) (a ∷ albums) h = cc

  -- `MediaItemUseCase.delete_batch` always succeeds and returns the rows of the owner with the given
  -- identifiers, which are marked as deleted, the latest first. Afterwards no album of the owner has
  -- one of them as its cover.
  pub delete_batch-covered :
      ((delete_batch now owner_id ids db).0 ≡ ok returned)
      × (any covered (delete_batch now owner_id ids db).1.albums ≡ false)
  unfolding delete_batch soft_delete set_deleted_at_batch list_ids_by_cover_ids
  delete_batch-covered = elim (Bool-cases (is_nil returned)) [
    | inl e ↦ rw e (refl, covered_none returned db.albums e)
    | inr e ↦
        let album_ids = map (λ a. a.id) (keep_if covered db.albums) in
        rw (e, reassign_covers_lem album_ids marked)
          (
            refl,
            none_left marked album_ids covered db.albums (recover-covered album_ids)
                (λ k h. contains-keep_if covered db.albums k ∙ h),
          )
  ]
