-- ===== src/Photos/MediaItemService.antt =====
-- `MediaItemService` and the methods of `MediaItemUseCase` that delete and restore:
-- app/app/photos/services/media_item.py and usecases/media_item.py. The clock comes as `now`.
pub mod Deletion
pub mod Purge
use shelf_back.Base.{
  ℕ, ◌+◌, ◌≡◌, Bool, true, false, not, ◌&&◌, ◌||◌, Option, none, some, List, [], ◌∷◌, ◌++◌, map,
  ◌==◌, if◌then◌else◌, keep_if, contains, is_nil,
}
use shelf_back.Base.Text.{Text}
use shelf_back.Base.Exec.{
  Exec, Result, ok, err, pure, gets, atomic, rollback, continue, ◌>>=◌, ◌>>◌,
}
use shelf_back.Files.Model.{Env, Db}
use shelf_back.Blobs.{Content, Storage}
use shelf_back.Blobs.Service
use shelf_back.Photos.{MediaItem, PhotoDb, in_core}
use shelf_back.Photos.Albums
use shelf_back.Photos.Albums.{ids_of}
use shelf_back.Photos.MediaItems
use shelf_back.Photos.AlbumService.{reassign_covers}

module _ (V : Env) where
  -- `storage_key` is what `_make_storage_key` makes.
  unfoldable pub create : Storage → Text → ℕ → ℕ → Text → Content → Exec PhotoDb MediaItem
  create S storage_key now owner_id name content = do
    blob ← in_core (Service.create V S now storage_key content)
    MediaItems.save V (record {
      id = 0;
      owner_id = owner_id;
      blob_id = blob.id;
      name = name;
      created_at = now;
      modified_at = now;
      deleted_at = none;
    })

  unfoldable pub delete_permanently : List ℕ → Exec PhotoDb Unit
  delete_permanently ids = do
    items ← MediaItems.get_by_id_batch ids
    MediaItems.delete_batch ids
    in_core (Service.delete_batch V (map (λ m. m.blob_id) items))

  -- `MediaItemUseCase.delete_immediately_batch`
  unfoldable pub delete_immediately_batch : ℕ → List ℕ → Exec PhotoDb Unit
  delete_immediately_batch owner_id ids = do
    items ← MediaItems.get_by_id_batch ids
    let item_ids = ids_of (keep_if (λ m. m.owner_id == owner_id) items)
    if is_nil item_ids then pure tt else delete_permanently item_ids

unfoldable pub mark_favourite_batch : ℕ → List ℕ → Exec PhotoDb Unit
mark_favourite_batch user_id ids = do
  items ← MediaItems.get_by_id_batch ids
  let accessible_ids = ids_of (keep_if (λ m. m.owner_id == user_id) items)
  if is_nil accessible_ids then pure tt else MediaItems.add_favourites user_id accessible_ids

-- `MediaItemService.delete_batch`
unfoldable pub soft_delete : ℕ → ℕ → List ℕ → Exec PhotoDb (List MediaItem)
soft_delete now owner_id ids = MediaItems.set_deleted_at_batch owner_id ids (some now)

unfoldable pub restore_batch : ℕ → List ℕ → Exec PhotoDb (List MediaItem)
restore_batch owner_id ids = MediaItems.set_deleted_at_batch owner_id ids none

-- `MediaItemUseCase.delete_batch`
unfoldable pub delete_batch : ℕ → ℕ → List ℕ → Exec PhotoDb (List MediaItem)
delete_batch now owner_id ids = atomic (do
  items ← soft_delete now owner_id ids
  if is_nil items then pure items else do
    album_ids ← Albums.list_ids_by_cover_ids owner_id (ids_of items)
    reassign_covers album_ids
    pure items)
