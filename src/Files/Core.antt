-- ===== src/Files/Core.antt =====
-- `FileCoreService`, app/app/files/services/file/filecore.py, but for `move`. A `str` or a `Path` that a method is
-- given comes as its text; the clock comes as `now`.
pub mod Deletion
use mathlib.Core.List.{reverse}
use shelf_back.Base.{
  ℕ, zero, suc, ◌+◌, ◌≡◌, Bool, true, false, not, ◌&&◌, ◌||◌, Option, none, some, List, [], ◌∷◌,
  ◌++◌, map, ◌==◌, if◌then◌else◌, keep_if, find_first, any, drop, is_nil, last?,
}
use shelf_back.Base.Int.{ℤ, pos, neg, is_zero}
use shelf_back.Base.Text.{Text, codes, text_eq, decimal}
use shelf_back.Base.Exec.{
  Exec, Result, ok, err, Error, file_already_exists, not_a_directory, is_a_directory, value_error,
  assertion_error, malformed_path, missing_parent, pure, raise, gets, atomic, rollback, or_raise,
  or_none, continue, ◌>>=◌, ◌>>◌, lift,
}
use shelf_back.FilePath
use shelf_back.FilePath.{
  FilePath, path_of, truediv, name, parent, parents, path_eq, path_eq_str, is_relative_to,
  with_restored_casing, stem, suffix, with_stem,
}
use shelf_back.OsPath.{join}
use shelf_back.Files.Model.{
  Env, Namespace, Blob, FileRow, Db, File, empty_content_hash, folder, is_folder,
}
use shelf_back.Files.Repository
use shelf_back.Files.Repository.{texts}
use shelf_back.Files.Writes
use shelf_back.Files.Namespaces
use shelf_back.Blobs.{Content, Storage}
use shelf_back.Blobs.Service
use shelf_back.Blobs.Repository as BlobRepository

-- `list.index`, by `Path.__eq__`
unfoldable pub index_of : Env → List FilePath → FilePath → Option ℕ
index_of V [] p = none
index_of V (q ∷ qs) p =
    if path_eq V.casing q p
    then some 0
    else (elim (index_of V qs p) [ none ↦ none | some i ↦ some (suc i) ])

-- `paths[-1] = p`
unfoldable pub set_last : List FilePath → FilePath → List FilePath
set_last [] p = []
set_last (q ∷ []) p = p ∷ []
set_last (q ∷ r ∷ qs) p = q ∷ set_last (r ∷ qs) p

-- `p in ps`, by `Path.__eq__` and `Path.__hash__`
unfoldable pub path_in : Env → FilePath → List FilePath → Bool
path_in V p ps = any (λ q. path_eq V.casing q p) ps

-- `files.get(path)` for `files = {file.path: file for file in files}`: a later file replaces an
-- earlier one.
unfoldable pub file_at : Env → List File → FilePath → Option File
file_at V files path = find_first (λ f. path_eq V.casing f.path path) (reverse files)

module _ (V : Env) where
  -- `_storage_key`
  unfoldable pub storage_key : ℕ → Text → Text
  storage_key owner_id path = join (join (V.uuid_text owner_id) (codes "files")) path

  unfoldable pub get_available_path : Text → Text → Exec Db FilePath
  get_available_path ns_path path = do
    let p = path_of path
    taken ← Repository.exists_at_path V ns_path p.text
    if not taken then pure p else do
      let pattern =
          stem V.encodings_map p ++ (codes " \\(\\d+\\)" ++ (suffix V.encodings_map p ++ codes "$"))
      count ← Repository.count_by_path_pattern V ns_path pattern
      pure (
          with_stem V.encodings_map p
            (stem V.encodings_map p ++ (codes " (" ++ (decimal (count + 1) ++ codes ")"))))

  -- The paths that `create_folder` saves, given the files that it found on the way.
  unfoldable pub missing_paths : FilePath → List FilePath → List File → Result (List FilePath)
  missing_paths path paths found = elim (last? found) [
    | none ↦ ok paths
    | some deepest ↦
        if any (λ f. not (is_folder f)) found
        then err not_a_directory
        else if path_eq V.casing deepest.path path
        then err file_already_exists
        else elim (index_of V paths deepest.path) [
          | none ↦ err value_error
          | some index ↦ elim (with_restored_casing V.casing path deepest.path.text) [
            | err e ↦ err e
            | ok restored ↦ ok (drop (suc index) (set_last paths restored))
          ]
        ]
  ]

  unfoldable pub new_folder : Text → ℕ → ℕ → FilePath → File
  new_folder ns_path owner_id now p = record {
    id = 0;
    blob_id = none;
    owner_id = owner_id;
    ns_path = ns_path;
    name = name p;
    path = p;
    chash = empty_content_hash;
    size = pos 0;
    modified_at = now;
    mediatype = folder;
  }

  unfoldable pub create_folder : ℕ → Text → Text → Exec Db File
  create_folder now ns_path path_text = do
    let path = path_of path_text
    let paths = reverse (parents path) ++ (path ∷ [])
    found ← Repository.get_by_path_batch V ns_path (texts paths)
    missing ← lift (missing_paths path paths found)
    namespace ← Namespaces.get_by_path ns_path
    Writes.save_batch V (map (new_folder ns_path namespace.owner_id now) missing)
    Repository.get_by_path V ns_path path.text

  unfoldable pub new_file : Text → ℕ → ℕ → FilePath → Blob → File
  new_file ns_path owner_id modified_at p blob = record {
    id = 0;
    blob_id = some blob.id;
    owner_id = owner_id;
    ns_path = ns_path;
    name = name p;
    path = p;
    chash = blob.chash;
    size = blob.size;
    modified_at = modified_at;
    mediatype = blob.media_type;
  }

  -- The `try` statement of `create_file`
  unfoldable pub ensure_parent : ℕ → Text → FilePath → Exec Db Unit
  ensure_parent now ns_path path = do
    found ← or_none (Repository.get_by_path V ns_path (parent path).text)
    elim found [
      | none ↦ (do create_folder now ns_path (parent path).text; pure tt)
      | some found ↦ if is_folder found then pure tt else raise not_a_directory
    ]

  -- The transaction of `create_file`
  unfoldable pub add_file : Text → File → Exec Db File
  add_file ns_path new = atomic (do
    file ← Writes.save V new
    Repository.incr_size_batch V ns_path (texts (parents new.path)) file.size
    pure file)

  unfoldable pub create_file : Storage → ℕ → Text → Text → Content → Option ℕ → Exec Db File
  create_file S now ns_path path_text content modified_at = do
    let path = path_of path_text
    ensure_parent now ns_path path
    next_path ← get_available_path ns_path path.text
    namespace ← Namespaces.get_by_path ns_path
    blob ← Service.create V S now (storage_key namespace.owner_id next_path.text) content
    let time : ℕ = elim modified_at [ none ↦ now | some t ↦ t ]
    add_file ns_path (new_file ns_path namespace.owner_id time next_path blob)

  -- The part of `delete` that is for folders
  unfoldable pub delete_contents : Text → Text → File → Exec Db Unit
  delete_contents ns_path path file = if not (is_folder file) then pure tt else do
    namespace ← Namespaces.get_by_path file.ns_path
    Repository.delete_all_with_prefix V ns_path (path ++ codes "/")
    Service.delete_all_with_prefix V (storage_key namespace.owner_id file.path.text ++ codes "/")

  -- The part of `delete` that is for files with a blob
  unfoldable pub delete_blob_of : File → Exec Db Unit
  delete_blob_of file = elim file.blob_id [
    | none ↦ pure tt
    | some blob_id ↦ Service.delete_batch V (blob_id ∷ [])
  ]

  unfoldable pub delete : Text → Text → Exec Db File
  delete ns_path path = atomic (do
    file ← Repository.delete V ns_path path
    delete_contents ns_path path file
    delete_blob_of file
    Repository.incr_size_batch V ns_path (texts (parents file.path)) (neg file.size)
    pure file)

  unfoldable pub empty_folder : Text → Text → Exec Db Unit
  empty_folder ns_path path = do
    file ← Repository.get_by_path V ns_path path
    if is_zero file.size then pure tt else do
      let paths = texts (parents file.path) ++ (path ∷ [])
      namespace ← Namespaces.get_by_path file.ns_path
      let storage_key_prefix = storage_key namespace.owner_id file.path.text ++ codes "/"
      atomic (do
        Repository.delete_all_with_prefix V ns_path (path ++ codes "/")
        Repository.incr_size_batch V ns_path paths (neg file.size)
        Service.delete_all_with_prefix V storage_key_prefix)

  -- `download`: the file, and the storage key that the bytes are read from
  unfoldable pub download : ℕ → Exec Db (File × Text)
  download file_id = do
    file ← Repository.get_by_id file_id
    if is_folder file then raise is_a_directory else do
      blob_id ← or_raise file.blob_id assertion_error
      blob ← BlobRepository.get_by_id blob_id
      pure (file, blob.storage_key)

  unfoldable pub list_folder : Text → Text → Exec Db (List File)
  list_folder ns_path path = do
    found ← Repository.get_by_path V ns_path path
    if not (is_folder found)
        then raise not_a_directory
        else Repository.list_with_prefix V ns_path
            (if text_eq path (codes ".") then [] else path ++ codes "/")
