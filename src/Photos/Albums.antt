-- ===== src/Photos/Albums.antt =====
-- `AlbumRepository`, app/infrastructure/database/tortoise/repositories/album.py. An album is unique
-- by owner and slug.
use shelf_back.Base.{
  ℕ, ◌+◌, Bool, true, false, not, ◌&&◌, ◌||◌, Option, none, some, List, [], ◌∷◌, ◌++◌, map, ◌==◌,
  ltb, if◌then◌else◌, keep_if, find_first, any, is_nil, leb, update_where, sort_by, length, take,
  drop, contains,
}
use shelf_back.Base.Int.{ℤ, pos, ◌+ℤ◌, neg}
use shelf_back.Base.Text.{Text, text_eq}
use shelf_back.Base.Exec.{
  Exec, ok, err, album_not_found, integrity_error, operational_error, validation_error, pure, raise,
  gets, modify, or_raise, guard, ◌>>=◌, ◌>>◌,
}
use shelf_back.Files.Model.{Env}
use shelf_back.Photos.{Album, MediaItem, PhotoDb}

abbrev pub is_album : ℕ → Text → Album → Bool
is_album owner_id slug a = a.owner_id == owner_id && text_eq a.slug slug

-- `models.Album.get(owner_id=…, slug=…)`, with `except DoesNotExist: raise Album.NotFound()`
unfoldable pub get_by_slug : ℕ → Text → Exec PhotoDb Album
get_by_slug owner_id slug db =
    or_raise (find_first (is_album owner_id slug) db.albums) album_not_found db

-- `obj.save(update_fields=…)`: the row with the primary key of `obj`
unfoldable pub write_album : ℕ → (Album → Album) → Exec PhotoDb Unit
write_album id change =
    modify (λ db. record db { albums = update_where (λ a. a.id == id) change db.albums })

unfoldable pub has_item : List (ℕ × ℕ) → ℕ → ℕ → Bool
has_item [] album_id item_id = false
has_item ((a, i) ∷ pairs) album_id item_id =
    (a == album_id && (i == item_id)) || has_item pairs album_id item_id

-- `obj.items.add(*items)` inserts the pairs that are missing.
unfoldable pub add_pairs : ℕ → List ℕ → List (ℕ × ℕ) → List (ℕ × ℕ)
add_pairs album_id [] pairs = pairs
add_pairs album_id (i ∷ ids) pairs =
    add_pairs album_id ids
      (if has_item pairs album_id i then pairs else pairs ++ ((album_id, i) ∷ []))

-- `obj.items.remove(*items)`, which raises `OperationalError` when it is given no item
unfoldable pub remove_pairs : ℕ → List ℕ → List (ℕ × ℕ) → List (ℕ × ℕ)
remove_pairs album_id ids = keep_if (λ (a, i). not (a == album_id && contains ids i))

-- `models.MediaItem.filter(id__in=ids)`
unfoldable pub items_in : PhotoDb → List ℕ → List MediaItem
items_in db ids = keep_if (λ m. contains ids m.id) db.media_items

abbrev pub ids_of : List MediaItem → List ℕ
ids_of = map (λ m. m.id)

abbrev pub recount : ℤ → Album → Album
recount count a = record a { items_count = count }

unfoldable pub add_items : ℕ → Text → List ℕ → Exec PhotoDb Album
add_items owner_id slug media_item_ids = do
  obj ← get_by_slug owner_id slug
  modify (λ db. record db {
    album_items = add_pairs obj.id (ids_of (items_in db media_item_ids)) db.album_items;
  })
  let count = obj.items_count +ℤ pos (length media_item_ids)
  write_album obj.id (recount count)
  pure (recount count obj)

unfoldable pub remove_items : ℕ → Text → List ℕ → Exec PhotoDb Album
remove_items owner_id slug media_item_ids = do
  obj ← get_by_slug owner_id slug
  items ← gets (λ db. items_in db media_item_ids)
  guard (not (is_nil items)) operational_error
  modify (λ db. record db {
    album_items = remove_pairs obj.id (ids_of (items_in db media_item_ids)) db.album_items;
  })
  let count = obj.items_count +ℤ neg (pos (length media_item_ids))
  write_album obj.id (recount count)
  pure (recount count obj)

unfoldable pub count_by_slug_pattern : Env → ℕ → Text → Exec PhotoDb ℕ
count_by_slug_pattern V owner_id pattern =
    gets (λ db.
      length (keep_if (λ a. a.owner_id == owner_id && V.regex_match pattern a.slug) db.albums))

-- The row goes, and with it its pairs (`on_delete=CASCADE` of the through table).
unfoldable pub delete : ℕ → Text → Exec PhotoDb Album
delete owner_id slug = do
  obj ← get_by_slug owner_id slug
  modify (λ db. record db {
    albums = keep_if (λ a. not (a.id == obj.id)) db.albums;
    album_items = keep_if (λ (a, i). not (a == obj.id)) db.album_items;
  })
  pure obj

unfoldable pub exists_with_slug : ℕ → Text → Exec PhotoDb Bool
exists_with_slug owner_id slug = gets (λ db. any (is_album owner_id slug) db.albums)

unfoldable pub list_by_owner_id : Env → ℕ → ℕ → ℕ → Exec PhotoDb (List Album)
list_by_owner_id V owner_id offset limit = gets (λ db. take limit (
    drop offset (
      sort_by (λ a b. V.sql_lt a.title b.title) (keep_if (λ a. a.owner_id == owner_id) db.albums))))

abbrev pub is_live : MediaItem → Bool
is_live m = elim m.deleted_at [ none ↦ true | some _ ↦ false ]

-- `modified_at DESC, id ASC`
abbrev pub comes_first : MediaItem → MediaItem → Bool
comes_first m k =
    ltb k.modified_at m.modified_at || (m.modified_at == k.modified_at && ltb m.id k.id)

unfoldable pub first_item : List MediaItem → Option MediaItem
first_item [] = none
first_item (m ∷ ms) = elim (first_item ms) [
  | none ↦ some m
  | some k ↦ if comes_first k m then some k else some m
]

-- The subquery of `list_cover_candidates`
unfoldable pub cover_candidate : PhotoDb → ℕ → Option MediaItem
cover_candidate db album_id =
    first_item (keep_if (λ m. has_item db.album_items album_id m.id && is_live m) db.media_items)

unfoldable pub candidates_of : PhotoDb → List Album → List (ℕ × ℕ)
candidates_of db [] = []
candidates_of db (a ∷ albums) = elim (cover_candidate db a.id) [
  | none ↦ candidates_of db albums
  | some m ↦ (a.id, m.id) ∷ candidates_of db albums
]

unfoldable pub list_cover_candidates : List ℕ → Exec PhotoDb (List (ℕ × ℕ))
list_cover_candidates album_ids = gets (λ db.
    candidates_of db
      (sort_by (λ a b. ltb a.id b.id) (keep_if (λ a. contains album_ids a.id) db.albums)))

abbrev pub cover_in : List ℕ → Album → Bool
cover_in ids a = elim a.cover [ none ↦ false | some id ↦ contains ids id ]

unfoldable pub list_ids_by_cover_ids : ℕ → List ℕ → Exec PhotoDb (List ℕ)
list_ids_by_cover_ids owner_id cover_ids = gets (λ db.
    map (λ a. a.id) (keep_if (λ a. a.owner_id == owner_id && cover_in cover_ids a) db.albums))

abbrev pub latest_first : MediaItem → MediaItem → Bool
latest_first m k = ltb k.modified_at m.modified_at

-- The items of an album that are not deleted, the latest first
unfoldable pub list_items : ℕ → Text → ℕ → ℕ → Exec PhotoDb (List MediaItem)
list_items owner_id slug offset limit = gets (λ db.
    let albums = keep_if (is_album owner_id slug) db.albums in
    take limit (
      drop offset (
        sort_by latest_first (
          keep_if (λ m. any (λ a. has_item db.album_items a.id m.id) albums && is_live m)
            db.media_items))))

-- The validators of the fields of `models.Album`: `max_length=255`
abbrev pub fits : Text → Text → Bool
fits title slug = leb (length title) 255 && leb (length slug) 255

unfoldable pub save : Env → Album → Exec PhotoDb Album
save V entity db =
    if not (fits entity.title entity.slug)
    then (err validation_error, db)
    else if any (is_album entity.owner_id entity.slug) db.albums
    then (err integrity_error, db)
    else let saved = record entity { id = V.uuid db.core.drawn } in
      (
        ok saved,
        record db {
          albums = db.albums ++ (record saved { cover = none } ∷ []);
          core = record db.core { drawn = db.core.drawn + 1 };
        },
      )

-- The foreign key of the cover: the media item is there.
abbrev is_present : Option ℕ → PhotoDb → Bool
is_present none db = true
is_present (some id) db = any (λ m. m.id == id) db.media_items

unfoldable pub set_cover : ℕ → Text → Option ℕ → Exec PhotoDb Album
set_cover owner_id slug media_item_id = do
  obj ← get_by_slug owner_id slug
  present ← gets (is_present media_item_id)
  guard present integrity_error
  write_album obj.id (λ a. record a { cover = media_item_id })
  pure (record obj { cover = media_item_id })

-- `dict(pairs).get(key)`: the last pair of the key counts.
unfoldable pub dict_get {ℓ} : {A : Type ℓ} → List (ℕ × A) → ℕ → Option A
dict_get [] key = none
dict_get ((k, a) ∷ pairs) key = elim (dict_get pairs key) [
  | some b ↦ some b
  | none ↦ if k == key then some a else none
]

unfoldable pub cover_from : List (ℕ × Option ℕ) → Album → Album
cover_from covers a = elim (dict_get covers a.id) [
  | none ↦ a
  | some cover ↦ record a { cover = cover }
]

unfoldable pub set_cover_batch : List (ℕ × Option ℕ) → Exec PhotoDb Unit
set_cover_batch covers = modify (λ db. record db { albums = map (cover_from covers) db.albums })

-- `update(entity, title=…, slug=…)`; a title or slug that is too long is refused, and a slug that another album of the owner has is refused.
unfoldable pub update : Album → Text → Text → Exec PhotoDb Album
update entity title slug = do
  obj ← get_by_slug entity.owner_id entity.slug
  guard (fits title slug) validation_error
  taken ← gets (λ db. any (λ a. is_album entity.owner_id slug a && not (a.id == obj.id)) db.albums)
  if taken then raise integrity_error else do
    write_album obj.id (λ a. record a { title = title; slug = slug })
    pure (record obj { title = title; slug = slug })
