-- ===== src/Photos/AlbumService.antt =====
-- `AlbumService` and `AlbumUseCase`, app/app/photos/services/album.py and usecases/album.py. A
-- method of the use case that only calls the service's is the service's.
pub mod Covers
pub mod Latest
pub mod Removal
pub mod Finding
pub mod Contents
use shelf_back.Base.{
  ℕ, zero, suc, ◌+◌, ◌≡◌, Bool, true, false, not, ◌&&◌, ◌||◌, Option, none, some, List, [], ◌∷◌,
  ◌++◌, map, ◌==◌, if◌then◌else◌, contains, is_nil,
}
use shelf_back.Base.Int.{pos}
use shelf_back.Base.Text.{Text, codes, text_eq, decimal}
use shelf_back.Base.Exec.{
  Exec, Result, ok, err, pure, raise, gets, atomic, rollback, continue, ◌>>=◌, ◌>>◌,
}
use shelf_back.Files.Model.{Env}
use shelf_back.Photos.{Album, MediaItem, PhotoDb}
use shelf_back.Photos.Albums

-- `slugify(title, allow_unicode)` of app/contrib/slugify.py, which is Django's
abbrev pub Slugify : Type 0
Slugify = Text → Bool → Text

module _ (V : Env) (slugify : Slugify) where
  unfoldable pub get_available_slug : ℕ → Text → Exec PhotoDb Text
  get_available_slug owner_id slug = do
    taken ← Albums.exists_with_slug owner_id slug
    if not taken then pure slug else do
      let pattern = V.lower (slug ++ codes "-[0-9]+$")
      count ← Albums.count_by_slug_pattern V owner_id pattern
      pure (slug ++ (codes "-" ++ decimal (count + 1)))

  -- The validator of `Album` fills in a slug that is empty.
  unfoldable pub new_album : Text → Text → ℕ → ℕ → Album
  new_album title slug owner_id created_at = record {
    id = 0;
    owner_id = owner_id;
    title = title;
    slug = if is_nil slug then slugify title true else slug;
    cover = none;
    items_count = pos 0;
    created_at = created_at;
  }

  unfoldable pub create : Text → ℕ → ℕ → Exec PhotoDb Album
  create title owner_id created_at = do
    slug ← get_available_slug owner_id (slugify title true)
    Albums.save V (new_album title slug owner_id created_at)

  unfoldable pub rename : ℕ → Text → Text → Exec PhotoDb Album
  rename owner_id slug new_title = do
    album ← Albums.get_by_slug owner_id slug
    if text_eq album.title new_title then pure album else do
      new_slug ← get_available_slug owner_id (slugify new_title false)
      Albums.update album new_title new_slug

-- `[(album_id, cover_by_album_id.get(album_id)) for album_id in album_ids]`
unfoldable pub covers_for : List (ℕ × ℕ) → List ℕ → List (ℕ × Option ℕ)
covers_for candidates [] = []
covers_for candidates (id ∷ ids) = (id, Albums.dict_get candidates id) ∷ covers_for candidates ids

unfoldable pub reassign_covers : List ℕ → Exec PhotoDb Unit
reassign_covers [] = pure tt
reassign_covers (id ∷ ids) = do
  candidate_rows ← Albums.list_cover_candidates (id ∷ ids)
  Albums.set_cover_batch (covers_for candidate_rows (id ∷ ids))

unfoldable pub remove_cover : ℕ → Text → Exec PhotoDb Album
remove_cover owner_id slug = Albums.set_cover owner_id slug none

-- `AlbumUseCase.add_album_items`
abbrev pub cover_first : ℕ → Text → List ℕ → Album → Exec PhotoDb Album
cover_first owner_id slug [] album = pure album
cover_first owner_id slug (id ∷ _) album = elim album.cover [
  | none ↦ Albums.set_cover owner_id slug (some id)
  | some _ ↦ pure album
]

unfoldable pub add_album_items : ℕ → Text → List ℕ → Exec PhotoDb Album
add_album_items owner_id slug media_item_ids = atomic (do
  album ← Albums.add_items owner_id slug media_item_ids
  cover_first owner_id slug media_item_ids album)

-- `AlbumUseCase.remove_album_items`
unfoldable pub remove_album_items : ℕ → Text → List ℕ → Exec PhotoDb Album
remove_album_items owner_id slug media_item_ids = atomic (do
  album ← Albums.remove_items owner_id slug media_item_ids
  if Albums.cover_in media_item_ids album
      then (do reassign_covers (album.id ∷ []); Albums.get_by_slug owner_id slug)
      else pure album)
