-- ===== src/Api/MediaItems.antt =====
-- The views of media items, app/api/photos/media_items/views.py, with their dependencies of deps.py, and
-- the download sessions of `MediaItemService` (app/app/photos/services/media_item.py) that they use. The
-- response models are copies of fields, for which the entities stand; what a download streams is given
-- by its storage keys. Thumbnails and metadata of contents are left out.
pub mod Owned
pub mod Sessions
use shelf_back.Base.{
  ℕ, ◌+◌, ◌≡◌, Bool, true, false, not, ◌&&◌, Option, none, some, List, [], ◌∷◌, ◌++◌, map, length,
  ◌==◌, ltb, if◌then◌else◌, keep_if, contains, is_nil,
}
use shelf_back.Base.Int.{ℤ}
use shelf_back.Base.Text.{Text, codes}
use shelf_back.Base.Exec.{
  Error, Exec, Result, ok, err, media_item_not_found, pure, raise, continue, ◌>>=◌, ◌>>◌,
}
use shelf_back.Files.Model.{Env, Blob}
use shelf_back.Blobs.{Content, Storage}
use shelf_back.Blobs.Repository
use shelf_back.Photos.{MediaItem, PhotoDb, in_core}
use shelf_back.Photos.Albums.{dict_get}
use shelf_back.Photos.MediaItems
use shelf_back.Photos.MediaItemService
use shelf_back.Photos.MediaItemService.Purge
use shelf_back.Api.{
  nothing_caught, ApiError, api_download_not_found, api_media_item_not_found, Reply, answer,
  refusal, failure, Caught, view, after, get_offset,
}
use shelf_back.Api.Downloads.{ValueCache}

-- `DownloadMediaItem`
pub record DownloadMediaItem : Type 0 where
  pub storage_key : Text
  pub name : Text
  pub media_type : Text
  pub size : ℤ
  pub modified_at : ℕ

-- `DownloadMediaItemSession`
abbrev pub Session : Type 0
Session = List DownloadMediaItem

-- `DownloadSessionInfo`
pub record SessionInfo : Type 0 where
  pub key : Text
  pub items_count : ℕ

-- `dict.fromkeys(ids)`
unfoldable pub from_keys : List ℕ → List ℕ
from_keys [] = []
from_keys (id ∷ ids) = id ∷ keep_if (λ other. not (other == id)) (from_keys ids)

-- `{blob.id: blob for blob in blobs}`
abbrev pub by_id : List Blob → List (ℕ × Blob)
by_id blobs = map (λ b. (b.id, b)) blobs

-- The loop of `_get_download_items`; a media item has its type and its size from its blob.
unfoldable pub session_items : List (ℕ × Blob) → List MediaItem → Session
session_items blobs [] = []
session_items blobs (item ∷ items) = elim (dict_get blobs item.blob_id) [
  | none ↦ session_items blobs items
  | some blob ↦
      record {
        storage_key = blob.storage_key;
        name = item.name;
        media_type = blob.media_type;
        size = blob.size;
        modified_at = item.modified_at;
      }
      ∷ session_items blobs items
]

-- `_get_download_items`
unfoldable pub get_download_items : ℕ → List ℕ → Exec PhotoDb Session
get_download_items owner_id media_item_ids = do
  found ← MediaItems.get_by_id_batch (from_keys media_item_ids)
  let items = keep_if (λ m. m.owner_id == owner_id) found
  if is_nil items then raise media_item_not_found else do
    blobs ← in_core (Repository.get_by_id_batch (map (λ m. m.blob_id) items))
    let session = session_items (by_id blobs) items
    if is_nil session then raise media_item_not_found else pure session

-- `f"{_DOWNLOAD_CACHE_PREFIX}:{key}"`
abbrev pub cache_key : Text → Text
cache_key key = codes "photos:media_item:download:" ++ key

abbrev pub on_get_download_url : Caught
on_get_download_url media_item_not_found = some api_media_item_not_found
on_get_download_url e = none

-- `GetDownloadUrlResponse`: the view that the link leads to, and the key
pub data MediaLink : Type 0 where
  download_media_item_link download_media_items_batch_link : (key : Text) → MediaLink

module _ (C : ValueCache Session) where
  pub record MediaWeb : Type 0 where
    pub photos : PhotoDb
    pub sessions : C.State

  abbrev in_photos : {A : Type 0} → Exec PhotoDb A → Exec MediaWeb A
  in_photos m w = let (r, photos) = m w.photos in (r, record w { photos = photos })

  -- `create_download_session`, once the items are found; `key` is what `secrets.token_urlsafe` returns.
  abbrev pub keep_session : ℕ → Text → Session → Exec MediaWeb SessionInfo
  keep_session now key items w = (
    ok (record { key = key; items_count = length items }),
    record w { sessions = C.set now (cache_key key) items 60 w.sessions },
  )

  unfoldable pub create_download_session : ℕ → Text → ℕ → List ℕ → Exec MediaWeb SessionInfo
  create_download_session now key owner_id media_item_ids = do
    items ← in_photos (get_download_items owner_id media_item_ids)
    (if is_nil items then raise media_item_not_found else keep_session now key items)

  abbrev pub popped : Option Session → Text → Exec MediaWeb (Option Session)
  popped none key w = (ok none, w)
  popped (some items) key w = (ok (some items), record w { sessions = C.delete key w.sessions })

  unfoldable pub get_download_session : ℕ → Text → Exec MediaWeb (Option Session)
  get_download_session now key w = popped (C.get now w.sessions (cache_key key)) (cache_key key) w

  -- `_download_session`
  abbrev pub or_not_found : Option Session → Reply Session
  or_not_found none = refusal api_download_not_found
  or_not_found (some items) = answer items

  unfoldable pub download_session : ℕ → Text → MediaWeb → Reply Session × MediaWeb
  download_session now key =
      after (view nothing_caught (λ value. value) (get_download_session now key))
        (λ value w. (or_not_found value, w))

  -- `download_media_item_cache`: the session has one item.
  abbrev pub one_item : Session → Reply DownloadMediaItem
  one_item [] = refusal api_download_not_found
  one_item (item ∷ []) = answer item
  one_item (item ∷ other ∷ items) = refusal api_download_not_found

  -- `download_media_item`
  unfoldable pub download_media_item : ℕ → Text → MediaWeb → Reply DownloadMediaItem × MediaWeb
  download_media_item now key =
      after (download_session now key) (λ session w. (one_item session, w))

  -- `download_media_items_batch`, with `download_media_item_batch_cache`
  unfoldable pub download_media_items_batch : ℕ → Text → MediaWeb → Reply Session × MediaWeb
  download_media_items_batch now key = after (download_session now key) (λ session w.
      (if ltb (length session) 2 then refusal api_download_not_found else answer session, w))

  abbrev pub link_to : SessionInfo → MediaLink
  link_to session =
      if session.items_count == 1
      then download_media_item_link session.key
      else download_media_items_batch_link session.key

  unfoldable pub get_download_url : ℕ → Text → ℕ → List ℕ → MediaWeb → Reply MediaLink × MediaWeb
  get_download_url now key user_id ids =
      view on_get_download_url link_to (create_download_session now key user_id ids)

-- The views that only call the use case; none of them catches an exception. `fuel` is that of `purge`.
module _ (V : Env) (now user_id : ℕ) where
  abbrev served : {A : Type 0} → Exec PhotoDb A → PhotoDb → Reply A × PhotoDb
  served m = view nothing_caught (λ a. a) m

  unfoldable count_media_items : PhotoDb → Reply (ℕ × ℕ) × PhotoDb
  count_media_items = served (MediaItems.count user_id)

  unfoldable delete_media_item_batch : List ℕ → PhotoDb → Reply (List MediaItem) × PhotoDb
  delete_media_item_batch ids = served (MediaItemService.delete_batch now user_id ids)

  unfoldable delete_media_item_immediately_batch : List ℕ → PhotoDb → Reply Unit × PhotoDb
  delete_media_item_immediately_batch ids =
      served (MediaItemService.delete_immediately_batch V user_id ids)

  unfoldable pub mark_favourite_batch : List ℕ → PhotoDb → Reply Unit × PhotoDb
  mark_favourite_batch ids = served (MediaItemService.mark_favourite_batch user_id ids)

  unfoldable list_favourite_media_item_ids : PhotoDb → Reply (List ℕ) × PhotoDb
  list_favourite_media_item_ids = served (MediaItems.list_favourites user_id)

  unfoldable unmark_favourite_batch : List ℕ → PhotoDb → Reply Unit × PhotoDb
  unmark_favourite_batch ids = served (MediaItems.remove_favourites user_id ids)

  unfoldable list_media_items : Bool → ℕ → ℕ → PhotoDb → Reply (List MediaItem) × PhotoDb
  list_media_items favourites page page_size = served (do
    offset ← get_offset page page_size
    MediaItems.list_by_owner user_id favourites offset page_size)

  unfoldable list_deleted_media_items : PhotoDb → Reply (List MediaItem) × PhotoDb
  list_deleted_media_items = served (MediaItems.list_deleted user_id 0 2000)

  unfoldable pub purge : ℕ → PhotoDb → Reply (Option Unit) × PhotoDb
  purge fuel = served (Purge.purge V fuel user_id)

  unfoldable restore_media_item_batch : List ℕ → PhotoDb → Reply (List MediaItem) × PhotoDb
  restore_media_item_batch ids = served (MediaItemService.restore_batch user_id ids)

  -- `file.filename or "untitled"`. That `MediaItemUseCase.upload` hands the blob to the processor is left
  -- out.
  abbrev named : Option Text → Text
  named none = codes "untitled"
  named (some []) = codes "untitled"
  named (some (c ∷ name)) = c ∷ name

  unfoldable upload_media_item :
      Storage → Text → Option Text → Content → PhotoDb → Reply MediaItem × PhotoDb
  upload_media_item S storage_key filename content =
      served (MediaItemService.create V S storage_key now user_id (named filename) content)
