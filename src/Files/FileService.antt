-- ===== src/Files/FileService.antt =====
-- `FileService`, app/app/files/services/file/file.py, and the methods of `FileCoreService` that only
-- look a file up, app/app/files/services/file/filecore.py. A method that only calls the method of the
-- same name of `FileCoreService` is that method.
use shelf_back.Base.{ℕ, not, Option, List, if◌then◌else◌, keep_if}
use shelf_back.Base.Text.{Text, text_eq}
use shelf_back.Base.Exec.{Exec, file_not_found, pure, raise, ◌>>=◌}
use shelf_back.Files.Model.{Env, Db, File}
use shelf_back.Files.Repository
use shelf_back.Files.Core
use shelf_back.Blobs.{Content, Storage}

unfoldable pub get_by_id : Text → ℕ → Exec Db File
get_by_id ns_path file_id = do
  file ← Repository.get_by_id file_id
  if not (text_eq file.ns_path ns_path) then raise file_not_found else pure file

module _ (V : Env) where
  unfoldable pub get_by_id_batch : Text → List ℕ → Exec Db (List File)
  get_by_id_batch ns_path ids = do
    files ← Repository.get_by_id_batch V ids
    pure (keep_if (λ f. text_eq f.ns_path ns_path) files)

  unfoldable pub create_file : Storage → ℕ → Text → Text → Content → Option ℕ → Exec Db File
  create_file S now ns_path path content modified_at = do
    next_path ← Core.get_available_path V ns_path path
    Core.create_file V S now ns_path next_path.text content modified_at

  -- The file, and the storage key that the bytes are read from
  unfoldable pub download : Text → Text → Exec Db (File × Text)
  download ns_path path = do
    file ← Repository.get_by_path V ns_path path
    (_, key) ← Core.download V file.id
    pure (file, key)
