-- ===== src/Photos/AlbumService/Removal.antt =====
-- The covers of albums and `AlbumUseCase.remove_album_items`, app/app/photos/usecases/album.py.
use mathlib.Core.Option
use shelf_back.Base.{
  ℕ, ◌≡◌, refl, Bool, true, false, inl, inr, some, List, [], ◌∷◌, map, ◌==◌, if◌then◌else◌, keep_if,
  contains, find_first, update_where, length, is_nil, Bool-cases, Option-cases, arith, ==_refl,
}
use shelf_back.Base.Int.{pos, neg, ◌+ℤ◌}
use shelf_back.Base.Text.{Text}
use shelf_back.Base.Exec.{ok}
use shelf_back.Photos.{Album, MediaItem, PhotoDb}
use shelf_back.Photos.Albums.{
  cover_candidate, cover_in, has_item, ids_of, remove_pairs, items_in, is_album, get_by_slug,
  write_album, recount, remove_items,
}
use shelf_back.Photos.AlbumService.{remove_album_items}
use shelf_back.Photos.AlbumService.Covers.{
  any_id, recover, reassign_covers_lem, cover_candidate_lem,
}

pub contains-items_in :
    (ids : List ℕ) (id : ℕ) (ms : List MediaItem)
    → any_id id ms ≡ true
    → contains ids id ≡ true
    → contains (ids_of (keep_if (λ m. contains ids m.id) ms)) id ≡ true
unfolding any_id contains keep_if
contains-items_in ids id [] h k = cc
contains-items_in ids id (m ∷ ms) h k = ground (arith, contains-items_in ids id ms)

has_item-remove_pairs :
    (album_id : ℕ) (ids : List ℕ) (id : ℕ) (pairs : List (ℕ × ℕ))
    → contains ids id ≡ true
    → has_item (remove_pairs album_id ids pairs) album_id id ≡ false
unfolding has_item remove_pairs keep_if
has_item-remove_pairs album_id ids id [] h = refl
has_item-remove_pairs album_id ids id ((a, i) ∷ pairs) h =
    ground (arith, has_item-remove_pairs album_id ids id pairs h)

find_first-map :
    (p : Album → Bool) (f : Album → Album) (albums : List Album)
    → ((a : Album) → p (f a) ≡ p a)
    → find_first p (map f albums) ≡ Option.map f (find_first p albums)
unfolding find_first
find_first-map p f [] h = refl
find_first-map p f (a ∷ albums) h = ground (arith, h a, find_first-map p f albums h)

pub find_first-update_where :
    (p t : Album → Bool) (f : Album → Album) (albums : List Album)
    → ((a : Album) → p (f a) ≡ p a)
    → find_first p (update_where t f albums)
      ≡ Option.map (λ a. if t a then f a else a) (find_first p albums)
unfolding find_first update_where
find_first-update_where p t f [] h = refl
find_first-update_where p t f (a ∷ albums) h =
    ground (arith, h a, find_first-update_where p t f albums h)

is_album-recover :
    (db : PhotoDb) (ids : List ℕ) (owner_id : ℕ) (slug : Text) (a : Album)
    → is_album owner_id slug (recover db ids a) ≡ is_album owner_id slug a
unfolding recover
is_album-recover db ids owner_id slug a = ground arith

-- The database after the items are taken out of the album.
abbrev taken_out : Album → List ℕ → PhotoDb → PhotoDb
taken_out obj ids db = record db {
  album_items = remove_pairs obj.id (ids_of (items_in db ids)) db.album_items;
  albums =
      update_where (λ a. a.id == obj.id) (recount (obj.items_count +ℤ neg (pos (length ids))))
        db.albums;
}

removed_candidate :
    (obj : Album) (ids : List ℕ) (db : PhotoDb) (m : MediaItem)
    → cover_candidate (taken_out obj ids db) obj.id ≡ some m
    → contains ids m.id ≡ false
unfolding items_in
removed_candidate obj ids db m h =
    let c = cover_candidate_lem (taken_out obj ids db) obj.id m h in
    elim (Bool-cases (contains ids m.id)) [
      | inl e ↦ ground (
        arith,
        c,
        has_item-remove_pairs obj.id (ids_of (items_in db ids)) m.id db.album_items
            (contains-items_in ids m.id db.media_items c.1 e),
      )
      | inr e ↦ e
    ]

no_removed_cover :
    (obj : Album) (ids : List ℕ) (db : PhotoDb) (a : Album)
    → a.id ≡ obj.id
    → cover_in ids (recover (taken_out obj ids db) (obj.id ∷ []) a) ≡ false
unfolding recover contains
no_removed_cover obj ids db a same =
    elim (Option-cases (cover_candidate (taken_out obj ids db) obj.id)) [
      | inl e ↦ rw (same, ==_refl obj.id, e)
      | inr (m, e) ↦ rw (same, ==_refl obj.id, e) (removed_candidate obj ids db m e)
    ]

-- `remove_album_items` succeeds for an album that exists, given at least one media item that exists, and
-- the album that it returns has none of
-- the removed items as its cover, whatever the album held before and however often an item is
-- named.
pub remove_album_items-cover :
    (owner_id : ℕ) (slug : Text) (ids : List ℕ) (db : PhotoDb) (obj : Album)
    → find_first (is_album owner_id slug) db.albums ≡ some obj
    → is_nil (items_in db ids) ≡ false
    → (album : Album) × ((remove_album_items owner_id slug ids db).0 ≡ ok album)
      × (cover_in ids album ≡ false)
unfolding remove_album_items remove_items get_by_slug write_album
remove_album_items-cover owner_id slug ids db obj e some_item =
    let count = obj.items_count +ℤ neg (pos (length ids)) in
    let D = taken_out obj ids db in
    elim (Bool-cases (cover_in ids obj)) [
      | inl c ↦ (
        recover D (obj.id ∷ []) (recount count obj),
        rw (
          e,
          some_item,
          c,
          reassign_covers_lem (obj.id ∷ []) D,
          find_first-map (is_album owner_id slug) (recover D (obj.id ∷ [])) D.albums
              (is_album-recover D (obj.id ∷ []) owner_id slug),
          find_first-update_where (is_album owner_id slug) (λ a. a.id == obj.id) (recount count)
              db.albums (λ a. refl),
          e,
          ==_refl obj.id,
        ),
        no_removed_cover obj ids db (recount count obj) refl,
      )
      | inr c ↦ (recount count obj, rw (e, some_item, c), c)
    ]
