-- ===== src/Photos.antt =====
-- Photos: media items and albums, app/app/photos and its tables in
-- app/infrastructure/database/tortoise/models.py.
pub mod Albums
pub mod AlbumService
pub mod MediaItems
pub mod MediaItemService
use shelf_back.Base.{ℕ, ◌≡◌, Bool, Option, none, some, List, find_first, ◌==◌}
use shelf_back.Base.Int.{ℤ}
use shelf_back.Base.Text.{Text}
use shelf_back.Base.Exec.{Exec, Result, ok, err}
use shelf_back.Files.Model.{Env, Db}

-- `models.Album`, and the domain's `Album`: its `cover` holds nothing but the identifier of the
-- item, so that both are one record.
pub record Album : Type 0 where
  pub id : ℕ
  pub owner_id : ℕ
  pub title : Text
  pub slug : Text
  pub cover : Option ℕ
  pub items_count : ℤ
  pub created_at : ℕ

-- `models.MediaItem`
pub record MediaItem : Type 0 where
  pub id : ℕ
  pub owner_id : ℕ
  pub blob_id : ℕ
  pub name : Text
  pub created_at : ℕ
  pub modified_at : ℕ
  pub deleted_at : Option ℕ

-- The tables of the photos beside those of the files: albums, the pairs (album, item) of
-- `album_items`, media items, and the pairs (user, item) of `MediaItemFavourite`, each in the order
-- of insertion.
pub record PhotoDb : Type 0 where
  pub core : Db
  pub albums : List Album
  pub album_items : List (ℕ × ℕ)
  pub media_items : List MediaItem
  pub favourites : List (ℕ × ℕ)

-- A method of the blob service, which reads and writes the core tables only.
abbrev pub in_core {ℓ} : {A : Type ℓ} → (Db → Result A × Db) → PhotoDb → Result A × PhotoDb
in_core m db = let (r, core) = m db.core in (r, record db { core = core })
