-- ===== src/Photos/MediaItems.antt =====
-- `MediaItemRepository` and `MediaItemFavouriteRepository`,
-- app/infrastructure/database/tortoise/repositories/media_item.py and media_item_favourite.py. An item
-- is its row; what the domain object has from the blob is read from the blob where it is used.
use shelf_back.Base.{
  ℕ, ◌+◌, Bool, true, false, not, ◌&&◌, Option, none, some, List, [], ◌∷◌, ◌++◌, map, ◌==◌, ltb,
  if◌then◌else◌, keep_if, any, update_where, sort_by, length, take, drop, contains,
}
use shelf_back.Base.Exec.{
  Exec, ok, media_item_not_found, pure, gets, modify, lift, one_of, not_found_as, ◌>>=◌, ◌>>◌,
}
use shelf_back.Files.Model.{Env}
use shelf_back.Photos.{Album, MediaItem, PhotoDb}
use shelf_back.Photos.Albums.{is_live, ids_of}

abbrev pub latest_first : MediaItem → MediaItem → Bool
latest_first m k = ltb k.modified_at m.modified_at

-- The two counts of `CountResult`: items that are not deleted, and items that are.
unfoldable pub count : ℕ → Exec PhotoDb (ℕ × ℕ)
count owner_id = gets (λ db.
    let base = keep_if (λ m. m.owner_id == owner_id) db.media_items in
    (length (keep_if is_live base), length (keep_if (λ m. not (is_live m)) base)))

-- `on_delete`: an album loses a cover that goes.
abbrev clear_cover : List ℕ → Album → Album
clear_cover ids a = record a {
  cover = elim a.cover [ none ↦ none | some id ↦ if contains ids id then none else some id ];
}

-- The rows go, and with them the pairs and the covers that refer to them.
unfoldable pub delete_batch : List ℕ → Exec PhotoDb Unit
delete_batch ids = modify (λ db. record db {
  media_items = keep_if (λ m. not (contains ids m.id)) db.media_items;
  album_items = keep_if (λ (a, i). not (contains ids i)) db.album_items;
  favourites = keep_if (λ (u, i). not (contains ids i)) db.favourites;
  albums = map (clear_cover ids) db.albums;
})

unfoldable pub get_by_id : ℕ → Exec PhotoDb MediaItem
get_by_id media_item_id db =
    lift
      (not_found_as media_item_not_found
        (one_of (keep_if (λ m. m.id == media_item_id) db.media_items)))
      db

unfoldable pub get_by_id_batch : List ℕ → Exec PhotoDb (List MediaItem)
get_by_id_batch ids =
    gets (λ db. sort_by latest_first (keep_if (λ m. contains ids m.id) db.media_items))

unfoldable pub get_for_owner : ℕ → ℕ → Exec PhotoDb MediaItem
get_for_owner owner_id media_item_id db =
    lift
      (not_found_as media_item_not_found
        (one_of (keep_if (λ m. m.id == media_item_id && (m.owner_id == owner_id)) db.media_items)))
      db

abbrev favourite_of : List (ℕ × ℕ) → ℕ → MediaItem → Bool
favourite_of pairs user_id m = any (λ (u, i). u == user_id && (i == m.id)) pairs

unfoldable pub list_by_owner : ℕ → Bool → ℕ → ℕ → Exec PhotoDb (List MediaItem)
list_by_owner owner_id only_favourites offset limit = gets (λ db.
    let qs = keep_if (λ m. m.owner_id == owner_id && is_live m) db.media_items in
    let found = if only_favourites then keep_if (favourite_of db.favourites owner_id) qs else qs in
    take limit (drop offset (sort_by latest_first found)))

-- `deleted_at DESC`
abbrev pub deleted_last : MediaItem → MediaItem → Bool
deleted_last m k = elim m.deleted_at [
  | none ↦ false
  | some t ↦ elim k.deleted_at [ none ↦ true | some s ↦ ltb s t ]
]

unfoldable pub list_deleted : ℕ → ℕ → ℕ → Exec PhotoDb (List MediaItem)
list_deleted owner_id offset limit = gets (λ db. take limit (
    drop offset (
      sort_by deleted_last
        (keep_if (λ m. m.owner_id == owner_id && not (is_live m)) db.media_items))))

unfoldable pub save : Env → MediaItem → Exec PhotoDb MediaItem
save V item db =
    let saved = record item { id = V.uuid db.core.drawn } in
    (
      ok saved,
      record db {
        media_items = db.media_items ++ (saved ∷ []);
        core = record db.core { drawn = db.core.drawn + 1 };
      },
    )

abbrev pub mark_deleted : Option ℕ → MediaItem → MediaItem
mark_deleted deleted_at m = record m { deleted_at = deleted_at }

unfoldable pub set_deleted_at_batch : ℕ → List ℕ → Option ℕ → Exec PhotoDb (List MediaItem)
set_deleted_at_batch owner_id ids deleted_at = do
  matching_ids ←
      gets
        (λ db. ids_of (keep_if (λ m. contains ids m.id && (m.owner_id == owner_id)) db.media_items))
  modify (λ db. record db {
    media_items =
        update_where (λ m. contains matching_ids m.id) (mark_deleted deleted_at) db.media_items;
  })
  gets (λ db.
      sort_by latest_first
        (keep_if (λ m. contains ids m.id && (m.owner_id == owner_id)) db.media_items))

-- `MediaItemFavouriteRepository`, `ignore_conflicts=True`: a pair that is there stays.
unfoldable pub add_favourites : ℕ → List ℕ → Exec PhotoDb Unit
add_favourites user_id [] = pure tt
add_favourites user_id (i ∷ ids) = do
  modify (λ db. record db {
    favourites =
        if any (λ (u, j). u == user_id && (j == i)) db.favourites
        then db.favourites
        else db.favourites ++ ((user_id, i) ∷ []);
  })
  add_favourites user_id ids

abbrev item_of : ℕ × ℕ → ℕ
item_of (u, i) = i

unfoldable pub list_favourites : ℕ → Exec PhotoDb (List ℕ)
list_favourites user_id = gets (λ db. map item_of (keep_if (λ (u, i). u == user_id) db.favourites))

unfoldable pub remove_favourites : ℕ → List ℕ → Exec PhotoDb Unit
remove_favourites user_id ids = modify (λ db. record db {
  favourites = keep_if (λ (u, i). not (u == user_id && contains ids i)) db.favourites;
})
