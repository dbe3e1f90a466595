-- ===== src/Api/Albums.antt =====
-- The views of albums, app/api/photos/albums/views.py. The response models AlbumSchema, AlbumItemSchema
-- and Page are copies of fields, for which the entities stand. `user_id` is the user of the request.
pub mod Methods
pub mod Settled
use shelf_back.Base.{ℕ, ◌≡◌, Bool, true, Option, none, some, List}
use shelf_back.Base.Text.{Text}
use shelf_back.Base.Exec.{Error, Exec, album_not_found, continue, ◌>>=◌}
use shelf_back.Files.Model.{Env}
use shelf_back.Photos.{Album, MediaItem, PhotoDb}
use shelf_back.Photos.Albums
use shelf_back.Photos.AlbumService
use shelf_back.Photos.AlbumService.{Slugify}
use shelf_back.Api.{
  ApiError, api_album_not_found, Reply, Caught, nothing_caught, view, get_offset, is_page,
}

-- The requests, by the names of their views
pub data AlbumRequest : Type 0 where
  add_album_items remove_album_items : (slug : Text) (media_item_ids : List ℕ) → AlbumRequest
  create_album : (title : Text) → AlbumRequest
  delete_album get_album remove_album_cover : (slug : Text) → AlbumRequest
  list_albums : (page page_size : ℕ) → AlbumRequest
  list_album_items : (slug : Text) (page page_size : ℕ) → AlbumRequest
  set_album_cover : (slug : Text) (media_item_id : ℕ) → AlbumRequest
  update_album : (slug title : Text) → AlbumRequest

-- What the framework lets through
abbrev pub is_accepted : AlbumRequest → Bool
is_accepted (list_albums page page_size) = is_page page page_size
is_accepted (list_album_items slug page page_size) = is_page page page_size
is_accepted r = true

-- The response models
pub data AlbumAnswer : Type 0 where
  album_schema : Album → AlbumAnswer
  album_page : (page : ℕ) (items : List Album) → AlbumAnswer
  item_page : (page : ℕ) (items : List MediaItem) → AlbumAnswer

-- `except Album.NotFound: raise exceptions.AlbumNotFound()`
abbrev pub missing_album : Caught
missing_album album_not_found = some api_album_not_found
missing_album e = none

-- The views that list, with the offset of the page
abbrev pub albums_of_page : Env → ℕ → ℕ → ℕ → Exec PhotoDb (List Album)
albums_of_page V user_id page page_size = do
  offset ← get_offset page page_size
  Albums.list_by_owner_id V user_id offset page_size

abbrev pub items_of_page : ℕ → Text → ℕ → ℕ → Exec PhotoDb (List MediaItem)
items_of_page user_id slug page page_size = do
  offset ← get_offset page page_size
  Albums.list_items user_id slug offset page_size

-- The view that each request is routed to; `now` is the clock that `AlbumUseCase.create` reads.
unfoldable pub respond :
    Env → Slugify → ℕ → ℕ → AlbumRequest → PhotoDb → Reply AlbumAnswer × PhotoDb
respond V slugify now user_id (add_album_items slug media_item_ids) =
    view missing_album album_schema (AlbumService.add_album_items user_id slug media_item_ids)
respond V slugify now user_id (create_album title) =
    view nothing_caught album_schema (AlbumService.create V slugify title user_id now)
respond V slugify now user_id (delete_album slug) =
    view missing_album album_schema (Albums.delete user_id slug)
respond V slugify now user_id (get_album slug) =
    view missing_album album_schema (Albums.get_by_slug user_id slug)
respond V slugify now user_id (list_albums page page_size) =
    view nothing_caught (album_page page) (albums_of_page V user_id page page_size)
respond V slugify now user_id (list_album_items slug page page_size) =
    view nothing_caught (item_page page) (items_of_page user_id slug page page_size)
respond V slugify now user_id (remove_album_cover slug) =
    view missing_album album_schema (AlbumService.remove_cover user_id slug)
respond V slugify now user_id (remove_album_items slug media_item_ids) =
    view missing_album album_schema (AlbumService.remove_album_items user_id slug media_item_ids)
respond V slugify now user_id (set_album_cover slug media_item_id) =
    view missing_album album_schema (Albums.set_cover user_id slug (some media_item_id))
respond V slugify now user_id (update_album slug title) =
    view missing_album album_schema (AlbumService.rename V slugify user_id slug title)
