-- ===== src/Api/Albums/Methods.antt =====
-- Which errors the methods that the album views call can raise, and what they leave then:
-- app/app/photos/usecases/album.py and services/album.py.
use shelf_back.Base.{
  ℕ, refl, Bool, true, false, inl, inr, Option, some, List, [], ◌∷◌, Bool-cases, Option-cases, any,
}
use shelf_back.Base.Text.{Text}
use shelf_back.Base.Exec.{
  Error, album_not_found, integrity_error, validation_error, operational_error,
}
use shelf_back.Base.Raises.{Raises, Raises-or_raise, Raises-pure, raise_rules}
use shelf_back.Base.Rollback.{
  ReadOnly, ReadOnly-or_raise, ReadOnly-guard, Restores, Never-Restores, never_rules, read_rules,
  rollback_rules,
}
use shelf_back.Files.Model.{Env}
use shelf_back.Photos.{Album}
use shelf_back.Photos.Albums
use shelf_back.Photos.AlbumService
use shelf_back.Photos.AlbumService.{Slugify}

abbrev pub of_integrity : Error → Bool
of_integrity integrity_error = true
of_integrity validation_error = true
of_integrity e = false

abbrev pub of_albums : Error → Bool
of_albums integrity_error = true
of_albums validation_error = true
of_albums operational_error = true
of_albums album_not_found = true
of_albums e = false

pub get_by_slug-ReadOnly :
    (owner_id : ℕ) (slug : Text) → ReadOnly (Albums.get_by_slug owner_id slug)
unfolding Albums.get_by_slug
get_by_slug-ReadOnly owner_id slug = record {
  at = λ db. (ReadOnly-or_raise _ album_not_found).at db;
}

pub get_by_slug-Raises :
    (owner_id : ℕ) (slug : Text) → Raises of_albums (Albums.get_by_slug owner_id slug)
unfolding Albums.get_by_slug
get_by_slug-Raises owner_id slug = record {
  at = λ db. (Raises-or_raise of_albums _ album_not_found refl).at db;
}

pub ruleset album_rules =
    (rollback_rules, never_rules, Never-Restores, ReadOnly-guard, get_by_slug-ReadOnly)

pub set_cover-Raises :
    (owner_id : ℕ) (slug : Text) (cover : Option ℕ)
    → Raises of_albums (Albums.set_cover owner_id slug cover)
unfolding Albums.set_cover Albums.write_album
set_cover-Raises owner_id slug cover = search (raise_rules, get_by_slug-Raises) depth 14

pub set_cover-Restores :
    (owner_id : ℕ) (slug : Text) (cover : Option ℕ)
    → Restores (Albums.set_cover owner_id slug cover)
unfolding Albums.set_cover Albums.write_album
set_cover-Restores owner_id slug cover = search album_rules depth 14

cover_first-Raises :
    (owner_id : ℕ) (slug : Text) (ids : List ℕ) (album : Album)
    → Raises of_albums (AlbumService.cover_first owner_id slug ids album)
cover_first-Raises owner_id slug [] album = search raise_rules depth 14
cover_first-Raises owner_id slug (id ∷ ids) album = elim (Option-cases album.cover) [
  | inl e ↦ rw e (set_cover-Raises owner_id slug (some id))
  | inr (cover, e) ↦ rw e (Raises-pure of_albums _)
]

pub add_album_items-Raises :
    (owner_id : ℕ) (slug : Text) (ids : List ℕ)
    → Raises of_albums (AlbumService.add_album_items owner_id slug ids)
unfolding AlbumService.add_album_items Albums.add_items Albums.write_album
add_album_items-Raises owner_id slug ids =
    search (raise_rules, get_by_slug-Raises, cover_first-Raises) depth 14

pub add_album_items-Restores :
    (owner_id : ℕ) (slug : Text) (ids : List ℕ)
    → Restores (AlbumService.add_album_items owner_id slug ids)
unfolding AlbumService.add_album_items
add_album_items-Restores owner_id slug ids = search album_rules depth 14

reassign_covers-Raises : (ids : List ℕ) → Raises of_albums (AlbumService.reassign_covers ids)
unfolding AlbumService.reassign_covers Albums.list_cover_candidates Albums.set_cover_batch
reassign_covers-Raises [] = search raise_rules depth 14
reassign_covers-Raises (id ∷ ids) = search raise_rules depth 14

pub remove_album_items-Raises :
    (owner_id : ℕ) (slug : Text) (ids : List ℕ)
    → Raises of_albums (AlbumService.remove_album_items owner_id slug ids)
unfolding AlbumService.remove_album_items Albums.remove_items Albums.write_album
remove_album_items-Raises owner_id slug ids =
    search (raise_rules, get_by_slug-Raises, reassign_covers-Raises) depth 14

pub remove_album_items-Restores :
    (owner_id : ℕ) (slug : Text) (ids : List ℕ)
    → Restores (AlbumService.remove_album_items owner_id slug ids)
unfolding AlbumService.remove_album_items
remove_album_items-Restores owner_id slug ids = search album_rules depth 14

pub delete-Raises : (owner_id : ℕ) (slug : Text) → Raises of_albums (Albums.delete owner_id slug)
unfolding Albums.delete
delete-Raises owner_id slug = search (raise_rules, get_by_slug-Raises) depth 14

pub delete-Restores : (owner_id : ℕ) (slug : Text) → Restores (Albums.delete owner_id slug)
unfolding Albums.delete
delete-Restores owner_id slug = search album_rules depth 14

module _ (V : Env) (slugify : Slugify) where
  get_available_slug-ReadOnly :
      (owner_id : ℕ) (slug : Text)
      → ReadOnly (AlbumService.get_available_slug V slugify owner_id slug)
  unfolding AlbumService.get_available_slug Albums.exists_with_slug Albums.count_by_slug_pattern
  get_available_slug-ReadOnly owner_id slug = search read_rules depth 14

  get_available_slug-Raises :
      (these : Error → Bool) (owner_id : ℕ) (slug : Text)
      → Raises these (AlbumService.get_available_slug V slugify owner_id slug)
  unfolding AlbumService.get_available_slug Albums.exists_with_slug Albums.count_by_slug_pattern
  get_available_slug-Raises these owner_id slug = search raise_rules depth 14

  pub rename-Raises :
      (owner_id : ℕ) (slug title : Text)
      → Raises of_albums (AlbumService.rename V slugify owner_id slug title)
  unfolding AlbumService.rename Albums.update Albums.write_album
  rename-Raises owner_id slug title =
      search (raise_rules, get_by_slug-Raises, get_available_slug-Raises) depth 14

  pub rename-Restores :
      (owner_id : ℕ) (slug title : Text)
      → Restores (AlbumService.rename V slugify owner_id slug title)
  unfolding AlbumService.rename Albums.update Albums.write_album
  rename-Restores owner_id slug title = search (album_rules, get_available_slug-ReadOnly) depth 14

  save-Raises : (album : Album) → Raises of_integrity (Albums.save V album)
  unfolding Albums.save
  save-Raises album = record {
    at = λ db e. elim (Bool-cases (Albums.fits album.title album.slug)) [
      | inr long ↦ rw long (λ h. cc)
      | inl short ↦ elim (Bool-cases (any (Albums.is_album album.owner_id album.slug) db.albums)) [
        | inl taken ↦ rw (short, taken) (λ h. cc)
        | inr free ↦ rw (short, free) (λ h. cc)
      ]
    ];
  }

  save-Restores : (album : Album) → Restores (Albums.save V album)
  unfolding Albums.save
  save-Restores album = record {
    at = λ db e. elim (Bool-cases (Albums.fits album.title album.slug)) [
      | inr long ↦ rw long (λ h. refl)
      | inl short ↦ elim (Bool-cases (any (Albums.is_album album.owner_id album.slug) db.albums)) [
        | inl taken ↦ rw (short, taken) (λ h. refl)
        | inr free ↦ rw (short, free) (λ h. cc)
      ]
    ];
  }

  pub create-Raises :
      (title : Text) (owner_id now : ℕ)
      → Raises of_integrity (AlbumService.create V slugify title owner_id now)
  unfolding AlbumService.create
  create-Raises title owner_id now =
      search (raise_rules, get_available_slug-Raises, save-Raises) depth 14

  pub create-Restores :
      (title : Text) (owner_id now : ℕ)
      → Restores (AlbumService.create V slugify title owner_id now)
  unfolding AlbumService.create
  create-Restores title owner_id now =
      search (rollback_rules, get_available_slug-ReadOnly, save-Restores) depth 14
