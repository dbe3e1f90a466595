-- ===== src/S3/Storage.antt =====
-- `S3Storage`, app/infrastructure/storage/s3/storage.py. Of the archives, the entries that
-- `stream_zip` is given; the second client sends the same requests as the first.
use shelf_back.Base.{
  ℕ, Bool, true, false, Option, none, some, List, [], ◌∷◌, ◌++◌, map, if◌then◌else◌,
}
use shelf_back.Base.Text.{Text, codes}
use shelf_back.Base.Exec.{
  Error, Exec, Result, ok, err, no_such_key, resource_not_found, file_not_found, attempt, pure,
  lift, ◌>>=◌, ◌>>◌,
}
use shelf_back.OsPath.{normpath, join, basename, relpath, strip_slashes, is_slash}
use shelf_back.FileSystem.{StorageFile, has_path, rename_error}
use shelf_back.S3.{S3File, Upload, Service, Entry, common, file, key_of}
use shelf_back.S3
use shelf_back.S3.Multipart.{upload_obj}

-- `StreamZipFile`, of which the key of the content stands for the content that is read later
pub record ZipEntry : Type 0 where
  pub path : Text
  pub modified_at : ℕ
  pub content_key : Text

-- `DownloadBatchItem`
pub record BatchItem : Type 0 where
  pub key : Text
  pub is_dir : Bool
  pub archive_path : Option Text

abbrev pub renamed_on_missing : Error → Error
renamed_on_missing no_such_key = file_not_found
renamed_on_missing e = e

-- `except ResourceNotFound: return False`
abbrev pub found : Result S3File → Result Bool
found (ok f) = ok true
found (err resource_not_found) = ok false
found (err e) = err e

-- `item.archive_path or os.path.basename(key)`
abbrev pub filename : Option Text → Text → Text
filename none key = basename key
filename (some []) key = basename key
filename (some (c ∷ path)) key = c ∷ path

-- `s.lstrip("/")`
abbrev pub lstrip_slashes : Text → Text
lstrip_slashes [] = []
lstrip_slashes (c ∷ s) = if is_slash c then lstrip_slashes s else c ∷ s

-- The prefix of a folder's keys, `f"{os.path.normpath(key)}/"`
abbrev pub folder_prefix : Text → Text
folder_prefix key = normpath key ++ codes "/"

-- `iterdir`, one entry of the listing
unfoldable pub storage_file : Entry → StorageFile
storage_file (common prefix) =
    let stripped = strip_slashes (lstrip_slashes prefix) in
    record { name = basename stripped; path = stripped; size = 0; mtime = 0; is_dir = true }
storage_file (file f) = record {
  name = basename f.key;
  path = f.key;
  size = f.size;
  mtime = f.last_modified;
  is_dir = false;
}

-- The files of a listing: with no delimiter it has no prefixes.
unfoldable pub files_of : List Entry → List S3File
files_of [] = []
files_of (common prefix ∷ entries) = files_of entries
files_of (file f ∷ entries) = f ∷ files_of entries

-- The loop of `_downloaddir_iter`
unfoldable pub zip_entries :
    (Text → Text) → Text → Text → Text → Option (List Text) → List S3File → List ZipEntry
zip_entries lower cwd key prefix include_keys [] = []
zip_entries lower cwd key prefix include_keys (f ∷ files) =
    let rest = zip_entries lower cwd key prefix include_keys files in
    if has_path lower f.key include_keys
    then record {
      path = join prefix (relpath cwd f.key key);
      modified_at = f.last_modified;
      content_key = f.key;
    }
      ∷ rest
    else rest

-- `bucket` is the storage's, `fuel` the pages of a listing, `lower` is `str.lower` and `cwd` the working
-- directory.
module _ (S : Service) (bucket : Text) (fuel : ℕ) where
  unfoldable pub delete : Text → Exec S.State Unit
  delete key = S3.delete S bucket (normpath key ∷ []) >>= λ _. pure tt

  unfoldable pub delete_batch : List Text → Exec S.State Unit
  delete_batch keys = S3.delete S bucket (map normpath keys) >>= λ _. pure tt

  unfoldable pub deletedir : Text → Exec S.State Unit
  deletedir key = S3.delete_recursive S fuel bucket (some (folder_prefix key)) >>= λ _. pure tt

  unfoldable pub emptydir : Text → Exec S.State Unit
  emptydir key = deletedir key

  unfoldable pub exists : Text → Exec S.State Bool
  exists key = do result ← attempt (S3.head_object S bucket (normpath key)); lift (found result)

  -- The chunks as a list
  unfoldable pub download : Text → Exec S.State (List Text)
  download key = rename_error renamed_on_missing (S3.iter_download S bucket (normpath key))

  unfoldable pub downloaddir_iter :
      (Text → Text) → Text → Text → Text → Option (List Text) → Exec S.State (List ZipEntry)
  downloaddir_iter lower cwd key prefix include_keys = do
    entries ← S3.list_objects S fuel bucket (some key) none
    pure (zip_entries lower cwd key prefix include_keys (files_of entries))

  unfoldable pub downloaddir :
      (Text → Text) → Text → Text → Option (List Text) → Exec S.State (List ZipEntry)
  downloaddir lower cwd key include_keys = downloaddir_iter lower cwd (normpath key) [] include_keys

  -- The entries of one item of `_download_batch_iter`
  unfoldable pub batch_item : (Text → Text) → Text → BatchItem → Exec S.State (List ZipEntry)
  batch_item lower cwd item =
      if item.is_dir
      then downloaddir_iter lower cwd (normpath item.key)
          (filename item.archive_path (normpath item.key)) none
      else (do
        entry ← S3.head_object S bucket (normpath item.key)
        pure (
            record {
              path = filename item.archive_path (normpath item.key);
              modified_at = entry.last_modified;
              content_key = entry.key;
            }
            ∷ []))

  unfoldable pub download_batch :
      (Text → Text) → Text → List BatchItem → Exec S.State (List ZipEntry)
  download_batch lower cwd [] = pure []
  download_batch lower cwd (item ∷ items) = do
    entries ← batch_item lower cwd item
    rest ← download_batch lower cwd items
    pure (entries ++ rest)

  unfoldable pub iterdir : Text → Exec S.State (List StorageFile)
  iterdir key = do
    entries ← S3.list_objects S fuel bucket (some (folder_prefix key)) (some (codes "/"))
    pure (map storage_file entries)

  unfoldable pub makedirs : Text → Exec S.State Unit
  makedirs key = pure tt

  unfoldable pub move : Text → Text → Exec S.State Unit
  move at_key to_key = do
    rename_error renamed_on_missing (S3.copy_object S bucket (normpath at_key) (normpath to_key))
    delete at_key

  -- The key that `movedir` copies an entry to
  unfoldable pub moved_key : Text → Text → Text → Text → Text
  moved_key cwd from_prefix to_prefix key = normpath (join to_prefix (relpath cwd key from_prefix))

  -- The tasks of `movedir`
  unfoldable pub copy_all : Text → Text → Text → List S3File → Exec S.State Unit
  copy_all cwd from_prefix to_prefix [] = pure tt
  copy_all cwd from_prefix to_prefix (f ∷ files) = do
    S3.copy_object S bucket f.key (moved_key cwd from_prefix to_prefix f.key)
    copy_all cwd from_prefix to_prefix files

  unfoldable pub movedir : Text → Text → Text → Exec S.State Unit
  movedir cwd at_key to_key = do
    entries ← S3.list_objects S fuel bucket (some (folder_prefix at_key)) none
    copy_all cwd (folder_prefix at_key) (folder_prefix to_key) (files_of entries)
    S3.delete S bucket (map (λ f. f.key) (files_of entries))
    pure tt

  unfoldable pub save : Text → Upload → Exec S.State StorageFile
  save key content = do
    f ← upload_obj S bucket (normpath key) content
    pure (record {
      name = basename (normpath key);
      path = normpath key;
      size = f.size;
      mtime = f.last_modified;
      is_dir = false;
    })
