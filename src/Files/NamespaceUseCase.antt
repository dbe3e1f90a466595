-- ===== src/Files/NamespaceUseCase.antt =====
-- `NamespaceUseCase`, app/app/files/usecases/namespace.py. The clock comes as `now`, the user of the
-- request as `user_id`. What `taskgroups.schedule` starts in the background is done at once.
pub mod Upload
use shelf_back.Base.{
  ℕ, ◌≡◌, Bool, true, false, not, ◌&&◌, ◌||◌, Option, none, some, List, [], ◌∷◌, ◌++◌,
  if◌then◌else◌, keep_if, any, ◌==◌,
}
use shelf_back.Base.Int.{ℤ, pos, ◌+ℤ◌, ltb_ℤ}
use shelf_back.Base.Text.{Text, codes, text_eq}
use shelf_back.Base.Exec.{
  Exec, Result, ok, err, assertion_error, malformed_path, file_too_large, storage_quota_exceeded,
  user_not_found, pure, raise, gets, modify, guard, or_raise, lift, one_of, not_found_as, continue,
  ◌>>=◌, ◌>>◌,
}
use shelf_back.FilePath
use shelf_back.FilePath.{FilePath, path_of, truediv, name, path_eq, is_relative_to, stem, with_stem}
use shelf_back.Files.Model.{Env, Namespace, Db, File}
use shelf_back.Files.Repository
use shelf_back.Files.Namespaces
use shelf_back.Files.Core
use shelf_back.Files.Move
use shelf_back.Files.FileService
use shelf_back.Blobs.{Content, Storage}
use shelf_back.Users.{Account}
use shelf_back.Audit.{
  AuditTrail, file_added, file_moved, file_trashed, folder_created, trash_emptied,
  track_file_action, track_user_action,
}

-- The database, with the blobs that the worker was told to process and the audit trail.
pub record Site : Type 0 where
  pub core : Db
  pub accounts : List Account
  pub processing : List ℕ
  pub trail : List AuditTrail

-- A method that reads and writes the core tables only
abbrev pub in_core : {A : Type 0} → Exec Db A → Exec Site A
in_core m site = let (r, core) = m site.core in (r, record site { core = core })

-- `UserService.get_account`
unfoldable pub get_account : ℕ → Exec Site Account
get_account user_id site =
    lift (not_found_as user_not_found (one_of (keep_if (λ a. a.user_id == user_id) site.accounts)))
      site

-- `BlobContentProcessor.process_async`
unfoldable pub process_async : ℕ → Exec Site Unit
process_async blob_id = modify (λ s. record s { processing = s.processing ++ (blob_id ∷ []) })

abbrev pub audited : (List AuditTrail → List AuditTrail) → Exec Site Unit
audited f = modify (λ s. record s { trail = f s.trail })

module _ (V : Env) where
  -- `assert Path(path) not in {Path("."), Path("Trash")}`
  unfoldable pub is_special : FilePath → Bool
  is_special p =
      path_eq V.casing p (path_of (codes ".")) || path_eq V.casing p (path_of (codes "Trash"))

  -- The test of `add_file` on the quota
  unfoldable pub check_quota : ℤ → ℕ → Option ℕ → Exec Site Unit
  check_quota size owner_id none = pure tt
  check_quota size owner_id (some quota) = do
    used ← in_core (Namespaces.get_space_used_by_owner_id owner_id)
    guard (not (ltb_ℤ (pos quota) (used +ℤ size))) storage_quota_exceeded

  -- `upload_file_max_size` is that of the configuration.
  unfoldable pub add_file : Storage → ℤ → ℕ → ℕ → Text → Text → Content → Option ℕ → Exec Site File
  add_file S upload_file_max_size now user_id ns_path path_text content modified_at = do
    let path = path_of path_text
    guard (not (is_relative_to V.casing path (codes "trash"))) malformed_path
    guard (not (ltb_ℤ upload_file_max_size content.size)) file_too_large
    ns ← in_core (Namespaces.get_by_path ns_path)
    account ← get_account ns.owner_id
    check_quota content.size ns.owner_id account.storage_quota
    file ← in_core (FileService.create_file V S now ns_path path.text content modified_at)
    blob_id ← or_raise file.blob_id assertion_error
    process_async blob_id
    audited (track_file_action file_added now user_id file)
    pure file

  unfoldable pub create_folder : ℕ → ℕ → Text → Text → Exec Site File
  create_folder now user_id ns_path path = do
    guard (not (is_special (path_of path))) assertion_error
    folder ← in_core (Core.create_folder V now ns_path path)
    audited (track_file_action folder_created now user_id folder)
    pure folder

  unfoldable pub delete_item : Text → Text → Exec Site File
  delete_item ns_path path = do
    guard (not (is_special (path_of path))) assertion_error
    in_core (Core.delete V ns_path path)

  unfoldable pub empty_trash : ℕ → ℕ → Text → Exec Site Unit
  empty_trash now user_id ns_path = do
    in_core (Core.empty_folder V ns_path (codes "trash"))
    audited (track_user_action trash_emptied now user_id)

  unfoldable pub list_folder : Text → Text → Exec Site (List File)
  list_folder ns_path path = do
    files ← in_core (Core.list_folder V ns_path path)
    pure (
        if text_eq path (codes ".")
        then keep_if
            (λ f. not (
              path_eq V.casing f.path (path_of (codes "."))
              || path_eq V.casing f.path (path_of (codes "trash"))))
            files
        else files)

  unfoldable pub move_item : ℕ → ℕ → Text → Text → Text → Exec Site File
  move_item now user_id ns_path path next_path = do
    guard (not (is_special (path_of path))) assertion_error
    file ← in_core (Move.move V ns_path path ns_path next_path)
    audited (track_file_action file_moved now user_id file)
    pure file

  -- Where `move_item_to_trash` moves the item; `timestamp` is the time as `%H%M%S%f`.
  unfoldable pub trash_path : Text → FilePath → Bool → FilePath
  trash_path timestamp next_path taken =
      if taken
      then with_stem V.encodings_map next_path
          (stem V.encodings_map next_path ++ (codes " " ++ timestamp))
      else next_path

  unfoldable pub move_item_to_trash : ℕ → Text → ℕ → Text → Text → Exec Site File
  move_item_to_trash now timestamp user_id ns_path path = do
    let next_path = truediv (path_of (codes "Trash")) (name (path_of path))
    taken ← in_core (Repository.exists_at_path V ns_path next_path.text)
    file ← in_core (Move.move V ns_path path ns_path (trash_path timestamp next_path taken).text)
    audited (track_file_action file_trashed now user_id file)
    pure file
