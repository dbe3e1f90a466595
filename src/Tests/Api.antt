-- ===== src/Tests/Api.antt =====
-- The views on concrete requests, with a cache that keeps its values as a function.
use shelf_back.Base.{
  ℕ, ◌+◌, ◌≤◌, ◌≡◌, refl, ap, Bool, true, false, Option, none, some, List, [], ◌∷◌, length, ltb,
  if◌then◌else◌, arith,
}
use shelf_back.Base.Text.{Text, codes, text_eq, text_eq_refl}
use shelf_back.Base.Exec.{ok}
use shelf_back.Base.Int.{pos}
use shelf_back.FilePath.{path_of}
use shelf_back.Files.Model.{File, is_folder}
use shelf_back.Files.Core
use shelf_back.Files.FileService
use shelf_back.Photos.{PhotoDb}
use shelf_back.Api.{answer, refusal, api_download_not_found, reply_of}
use shelf_back.Api.Albums.Settled.{Settled}
use shelf_back.Api.Downloads.{ValueCache, IsValueCache}
use shelf_back.Api.Files
use shelf_back.Api.Files.{Worker, Web, download_link, on_download, with_key, pending}
use shelf_back.Api.Files.Links
use shelf_back.Api.MediaItems
use shelf_back.Api.MediaItems.{MediaWeb, DownloadMediaItem, Session, get_download_items}
use shelf_back.Api.MediaItems.Owned.{all_owned}
use shelf_back.Api.MediaItems.Sessions
use shelf_back.Tests.Files.{ascii_env, home, blob}
use shelf_back.Tests.Photos.{pictures, item}

abbrev kept : {A : Type 0} → ℕ → Option (ℕ × A) → Option A
kept t none = none
kept t (some (expiry, v)) = if ltb t expiry then some v else none

abbrev pub values : (A : Type 0) → ValueCache A
values A = record {
  State = Text → Option (ℕ × A);
  get = λ t s k. kept t (s k);
  set = λ now k v expire s j. if text_eq k j then some (now + expire, v) else s j;
  delete = λ k s j. if text_eq k j then none else s j;
}

values-IsValueCache : (A : Type 0) → IsValueCache (values A)
values-IsValueCache A = record {
  get-set = λ t now expire k v s h.
      ap (λ b. kept t (if b then some (now + expire, v) else s k)) (text_eq_refl k);
  get-delete = λ t k s. ap (λ b. kept t (if b then none else s k)) (text_eq_refl k);
}

-- A worker that gives every job the same identifier
abbrev idle : Worker
idle = record {
  State = Unit;
  enqueue = λ job s. (codes "1", s);
  get_status = λ id s. pending;
  get_result = λ id s. ok [];
}

abbrev web : Web (values File) idle
web = record {
  site = record { core = home; accounts = []; processing = []; trail = [] };
  downloads = λ k. none;
  queue = tt;
}

abbrev a_txt : File
a_txt = record {
  id = 12;
  blob_id = some 50;
  owner_id = 7;
  ns_path = codes "admin";
  name = codes "a.txt";
  path = path_of (codes "Docs/a.txt");
  chash = codes "hash";
  size = pos 10;
  modified_at = 0;
  mediatype = codes "text/plain";
}

a_txt-found : FileService.get_by_id (codes "admin") 12 home ≡ (ok a_txt, home)
unfolding FileService.get_by_id shelf_back.Files.Repository.get_by_id
    shelf_back.Files.Repository.from_db_own shelf_back.Base.keep_if text_eq
    shelf_back.Files.Repository.path_of_ns shelf_back.Base.find_first
    shelf_back.Files.Repository.from_db shelf_back.Files.Repository.file_fields
    shelf_back.Files.Repository.blob_of
a_txt-found = refl

a_txt-is_file : is_folder a_txt ≡ false
unfolding is_folder text_eq
a_txt-is_file = refl

get_download_url-download_example :
    let (link, linked) =
      Files.get_download_url (values File) idle 5 (codes "k") (codes "admin") 12 web in
    let (first, downloaded) = Files.download (values File) idle ascii_env 60 (codes "k") linked in
    (link ≡ answer (download_link (codes "k")))
    × (first
        ≡ reply_of on_download
            (with_key (values File) idle a_txt)
            (Core.download ascii_env 12 home).0)
    × ((Files.download (values File) idle ascii_env 61 (codes "k") downloaded).0
        ≡ refusal api_download_not_found)
    × ((Files.download (values File) idle ascii_env 65 (codes "k") linked).0
        ≡ refusal api_download_not_found)
get_download_url-download_example =
    Links.get_download_url-download (values File) (values-IsValueCache File) idle ascii_env 5 60 61
      65 (codes "k") (codes "admin") 12 a_txt web a_txt-found a_txt-is_file (omega arith)
      (omega arith) (omega arith)

-- Two items with their blobs, and one of another user
abbrev album_of_two : PhotoDb
album_of_two = record pictures {
  core = record home {
    blobs = blob 20 (codes "7/photos/20") 4 ∷ blob 21 (codes "7/photos/21") 4 ∷ [];
  };
  media_items = item 20 none ∷ item 21 none ∷ record (item 23 none) { owner_id = 8 } ∷ [];
}

abbrev photo : ℕ → Text → DownloadMediaItem
photo modified_at storage_key = record {
  storage_key = storage_key;
  name = codes "photo.jpg";
  media_type = codes "text/plain";
  size = pos 4;
  modified_at = modified_at;
}

abbrev both : Session
both = photo 21 (codes "7/photos/21") ∷ photo 20 (codes "7/photos/20") ∷ []

both-found : get_download_items 7 (20 ∷ 21 ∷ 23 ∷ []) album_of_two ≡ (ok both, album_of_two)
unfolding get_download_items shelf_back.Photos.MediaItems.get_by_id_batch shelf_back.Base.keep_if
    shelf_back.Base.sort_by shelf_back.Base.contains MediaItems.from_keys
    shelf_back.Base.insert_sorted shelf_back.Blobs.Repository.get_by_id_batch
    MediaItems.session_items shelf_back.Photos.Albums.dict_get
both-found = refl

abbrev media_web : MediaWeb (values Session)
media_web = record { photos = album_of_two; sessions = λ k. none }

get_download_url-download_media_item_example :
    let (link, linked) =
      MediaItems.get_download_url (values Session) 5 (codes "k") 7 (20 ∷ 21 ∷ 23 ∷ []) media_web in
    let (one, after_one) = MediaItems.download_media_item (values Session) 60 (codes "k") linked in
    let (batch, after_batch) =
      MediaItems.download_media_items_batch (values Session) 60 (codes "k") linked in
    (link ≡ answer (MediaItems.download_media_items_batch_link (codes "k")))
    × (one ≡ refusal api_download_not_found)
    × (batch ≡ answer both)
    × (all_owned album_of_two 7 both ≡ true)
    × ((MediaItems.download_media_item (values Session) 61 (codes "k") after_one).0
        ≡ refusal api_download_not_found)
    × ((MediaItems.download_media_items_batch (values Session) 61 (codes "k") after_one).0
        ≡ refusal api_download_not_found)
    × ((MediaItems.download_media_item (values Session) 61 (codes "k") after_batch).0
        ≡ refusal api_download_not_found)
    × ((MediaItems.download_media_items_batch (values Session) 61 (codes "k") after_batch).0
        ≡ refusal api_download_not_found)
get_download_url-download_media_item_example =
    Sessions.get_download_url-download_media_item (values Session) (values-IsValueCache Session) 5
      60 61 (codes "k") 7 (20 ∷ 21 ∷ 23 ∷ []) both media_web both-found (omega arith) (omega arith)
