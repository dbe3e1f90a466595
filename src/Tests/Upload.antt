-- ===== src/Tests/Upload.antt =====
-- An upload to a site with one account.
use shelf_back.Base.{ℕ, ◌≡◌, refl, ◌++◌, false, Option, none, some, List, [], ◌∷◌}
use shelf_back.Base.Int.{pos, ltb_ℤ}
use shelf_back.Base.Text.{Text, codes}
use shelf_back.Base.Exec.{Result, ok}
use shelf_back.Blobs.{Content}
use shelf_back.FilePath.{path_of, is_relative_to}
use shelf_back.Files.Model.{File, Namespace}
use shelf_back.Files.Namespaces
use shelf_back.Files.FileService
use shelf_back.Users.{Account}
use shelf_back.Audit.{file_added, track_file_action}
use shelf_back.Tests.FilePath.{ascii}
use shelf_back.Files.NamespaceUseCase.{Site, add_file, get_account}
use shelf_back.Files.NamespaceUseCase.Upload.{HasRoom, add_file-within_bounds}
use shelf_back.Tests.Files.{ascii_env, home}
use shelf_back.Tests.Blobs.{willing}

abbrev note : Content
note = record { size = pos 5; chash = codes "h"; media_type = λ _. codes "text/plain" }

abbrev site : Site
site = record {
  core = home;
  accounts = record { id = 1; user_id = 7; storage_quota = some 100 } ∷ [];
  processing = [];
  trail = [];
}

abbrev upload : Result File × Site
upload = add_file ascii_env willing (pos 50) 0 7 (codes "admin") (codes "n.txt") note none site

abbrev uploaded : File
uploaded = record {
  id = 101;
  blob_id = some 100;
  owner_id = 7;
  ns_path = codes "admin";
  name = codes "n.txt";
  path = path_of (codes "n.txt");
  chash = codes "h";
  size = pos 0;
  modified_at = 0;
  mediatype = codes "text/plain";
}

succeeds : upload.0 ≡ ok uploaded
unfolding shelf_back.OsPath.split shelf_back.OsPath.joined shelf_back.OsPath.initial_slashes
    shelf_back.OsPath.push shelf_back.OsPath.collapse shelf_back.OsPath.rev_onto
    shelf_back.OsPath.normpath shelf_back.OsPath.join shelf_back.OsPath.partition_last
    shelf_back.OsPath.dirname shelf_back.OsPath.basename shelf_back.FilePath.name
    shelf_back.FilePath.parent shelf_back.FilePath.casefold shelf_back.FilePath.path_eq_str
    shelf_back.FilePath.is_relative_to shelf_back.Base.keep_if shelf_back.Base.find_first
    shelf_back.Base.any shelf_back.Base.Text.text_eq shelf_back.Base.Text.has_prefix
    shelf_back.Base.Text.decimal shelf_back.Files.Model.is_folder
    shelf_back.Files.Repository.namespace_at shelf_back.Files.Repository.in_ns
    shelf_back.Files.Repository.path_of_ns shelf_back.Files.Repository.blob_of
    shelf_back.Files.Repository.file_fields shelf_back.Files.Repository.from_db
    shelf_back.Files.Repository.from_db_own shelf_back.Files.Repository.get_namespace
    shelf_back.Files.Repository.get_by_id shelf_back.Files.Repository.iexact
    shelf_back.Files.Repository.at_path shelf_back.Files.Repository.get_row
    shelf_back.Files.Repository.exists_at_path shelf_back.Files.Repository.get_by_path
    shelf_back.Files.Repository.incr_size_batch shelf_back.Files.Writes.is_taken
    shelf_back.Files.Writes.new_row shelf_back.Files.Writes.save
    shelf_back.Files.Namespaces.get_by_path shelf_back.Files.Namespaces.is_home_of
    shelf_back.Files.Namespaces.sum_sizes shelf_back.Files.Namespaces.get_space_used_by_owner_id
    shelf_back.Files.Core.storage_key shelf_back.Files.Core.get_available_path
    shelf_back.Files.Core.new_file shelf_back.Files.Core.ensure_parent
    shelf_back.Files.Core.add_file shelf_back.Files.Core.create_file
    shelf_back.Files.FileService.create_file shelf_back.Files.NamespaceUseCase.get_account
    shelf_back.Files.NamespaceUseCase.process_async shelf_back.Files.NamespaceUseCase.check_quota
    shelf_back.Files.NamespaceUseCase.add_file shelf_back.Blobs.Repository.key_taken
    shelf_back.Blobs.Repository.save shelf_back.Blobs.Service.create shelf_back.Base.Int.◌+ℤ◌
succeeds = refl

abbrev after : Site
after = upload.1

add_file-within_bounds_example :
    (is_relative_to ascii (path_of (codes "n.txt")) (codes "trash") ≡ false)
    × (ltb_ℤ (pos 50) (pos 5) ≡ false)
    × ((ns : Namespace) × (Namespaces.get_by_path (codes "admin") home ≡ (ok ns, home))
        × ((account : Account) × (get_account ns.owner_id site ≡ (ok account, site))
            × HasRoom (pos 5) ns.owner_id account.storage_quota home))
    × (FileService.create_file ascii_env willing 0
          (codes "admin")
          (path_of (codes "n.txt")).text
          note
          none
          home
        ≡ (ok uploaded, after.core))
    × ((blob_id : ℕ) × (some 100 ≡ some blob_id) × (after.processing ≡ [] ++ (blob_id ∷ [])))
    × (after.trail ≡ track_file_action file_added 0 7 uploaded [])
add_file-within_bounds_example =
    add_file-within_bounds ascii_env willing (pos 50) 0 7 (codes "admin") (codes "n.txt") note none
      site after uploaded (λ i. (succeeds i, after))
