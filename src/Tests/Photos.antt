-- ===== src/Tests/Photos.antt =====
-- An album with three items, one of them deleted.
use shelf_back.Base.{
  is_nil, keep_if, contains, ℕ, ◌≡◌, refl, false, true, ◌&&◌, ◌==◌, List, contains, arith, Option,
  none, some, [], ◌∷◌, map, find_first,
}
use shelf_back.Base.Int.{pos}
use shelf_back.Base.Text.{codes, text_eq}
use shelf_back.Base.Exec.{ok}
use shelf_back.Photos.{Album, MediaItem, PhotoDb}
use shelf_back.Photos.Albums.{items_in, cover_candidate, is_album, cover_in, is_live, list_items}
use shelf_back.Photos.AlbumService.{reassign_covers, remove_album_items, add_album_items}
use shelf_back.Photos.AlbumService.Contents.{add_album_items-list_items}
use shelf_back.Photos.AlbumService.Covers.{recover}
use shelf_back.Photos.AlbumService.Latest.{IsLatest, shows, reassign_covers-IsLatest}
use shelf_back.Photos.AlbumService.Removal.{remove_album_items-cover}
use shelf_back.Base.{any}
use shelf_back.Photos.MediaItemService.{delete_batch}
use shelf_back.Photos.MediaItemService.Deletion.{returned, covered, delete_batch-covered}
use shelf_back.Photos.MediaItemService.Purge.{purge, purge_returns}
use shelf_back.Tests.Files.{home, ascii_env}

abbrev pub item : ℕ → Option ℕ → MediaItem
item id deleted_at = record {
  id = id;
  owner_id = 7;
  blob_id = id;
  name = codes "photo.jpg";
  created_at = id;
  modified_at = id;
  deleted_at = deleted_at;
}

abbrev trip : Album
trip = record {
  id = 3;
  owner_id = 7;
  title = codes "Trip";
  slug = codes "trip";
  cover = some 21;
  items_count = pos 3;
  created_at = 0;
}

abbrev pub pictures : PhotoDb
pictures = record {
  core = home;
  albums = trip ∷ [];
  album_items = (3, 20) ∷ (3, 21) ∷ (3, 22) ∷ [];
  media_items = item 20 none ∷ item 21 none ∷ item 22 (some 5) ∷ [];
  favourites = (7, 21) ∷ [];
}

is_trip : find_first (is_album 7 (codes "trip")) pictures.albums ≡ some trip
unfolding find_first text_eq
is_trip = refl

has_21 : is_nil (items_in pictures (21 ∷ [])) ≡ false
unfolding items_in keep_if contains
has_21 = refl

reassign_covers-IsLatest_example :
    (reassign_covers (3 ∷ []) pictures
      ≡ (ok tt, record pictures { albums = map (recover pictures (3 ∷ [])) pictures.albums }))
    × IsLatest (shows pictures 3) pictures.media_items (cover_candidate pictures 3)
reassign_covers-IsLatest_example = reassign_covers-IsLatest (3 ∷ []) 3 pictures

remove_album_items-cover_example :
    (album : Album) × ((remove_album_items 7 (codes "trip") (21 ∷ []) pictures).0 ≡ ok album)
    × (cover_in (21 ∷ []) album ≡ false)
remove_album_items-cover_example =
    remove_album_items-cover 7 (codes "trip") (21 ∷ []) pictures trip is_trip has_21

delete_batch-covered_example :
    ((delete_batch 9 7 (21 ∷ []) pictures).0 ≡ ok (returned 9 7 (21 ∷ []) pictures))
    × (any (covered 9 7 (21 ∷ []) pictures) (delete_batch 9 7 (21 ∷ []) pictures).1.albums ≡ false)
delete_batch-covered_example = delete_batch-covered 9 7 (21 ∷ []) pictures

purge_returns_example : (purge ascii_env 4 7 pictures).0 ≡ ok (some tt)
purge_returns_example = purge_returns ascii_env 7 0 pictures

-- An item of another user
abbrev foreign : MediaItem
foreign = record (item 23 none) { owner_id = 8 }

abbrev with_foreign : PhotoDb
with_foreign = record pictures { media_items = foreign ∷ pictures.media_items }

abbrev trip_of_four : Album
trip_of_four = record trip { items_count = pos 4 }

abbrev with_four : PhotoDb
with_four = (add_album_items 7 (codes "trip") (23 ∷ []) with_foreign).1

foreign-added :
    add_album_items 7 (codes "trip") (23 ∷ []) with_foreign ≡ (ok trip_of_four, with_four)
unfolding add_album_items shelf_back.Photos.Albums.add_items shelf_back.Photos.Albums.get_by_slug
    find_first text_eq shelf_back.Photos.Albums.write_album shelf_back.Base.Int.◌+ℤ◌
foreign-added = refl

foreign-there : any (λ n. n.id == 23 && is_live n) with_foreign.media_items ≡ true
unfolding any
foreign-there = refl

is_listed : contains (23 ∷ []) 23 ≡ true
unfolding contains
is_listed = refl

add_album_items-list_items_example :
    (items : List MediaItem) × (list_items 7 (codes "trip") 0 100 with_four ≡ (ok items, with_four))
    × (any (λ n. n.id == 23) items ≡ true)
add_album_items-list_items_example =
    add_album_items-list_items 7 (codes "trip") 23 100 (23 ∷ []) trip trip_of_four with_foreign
      with_four is_trip is_listed foreign-there (omega arith) foreign-added
