-- ===== src/FileSystem.antt =====
-- `FileSystemStorage`, app/infrastructure/storage/filesystem.py, without the archives that
-- `stream_zip` makes. The file system is an interface, with the errors that `os` and `shutil` raise.
pub mod Confined
use shelf_back.Base.{
  ℕ, ◌+◌, ◌≡◌, Bool, true, false, not, ◌&&◌, ◌||◌, Option, none, some, List, [], ◌∷◌, ◌++◌, any,
  length, drop, if◌then◌else◌, map,
}
use shelf_back.Base.Int.{ℤ}
use shelf_back.Base.Text.{Text, codes, text_eq, has_prefix}
use shelf_back.Base.Exec.{
  Error, Exec, Result, ok, err, pure, raise, gets, lift, for_each, continue, ◌>>=◌, ◌>>◌,
  os_file_not_found, os_file_exists, os_not_a_directory, file_not_found, file_already_exists,
  not_a_directory,
}
use shelf_back.OsPath.{normpath, join, dirname, basename}
use shelf_back.Blobs.{Content}

-- `os.stat_result`, of which size and time are read, and `os.DirEntry`
pub record Stat : Type 0 where
  pub size : ℕ
  pub mtime : ℕ

pub record DirEntry : Type 0 where
  pub name : Text
  pub path : Text
  pub stat : Result Stat
  pub is_dir : Bool
  pub is_symlink : Bool

-- `os`, `shutil` and `open`
pub record Os : Type 1 where
  pub State : Type 0
  pub isdir : Text → State → Bool
  pub exists : Text → State → Bool
  pub lstat : Text → State → Result Stat
  pub scandir : Text → State → Result (List DirEntry)
  -- the chunks of the file, for `open(path, "rb")`
  pub read : Text → State → Result (List Text)
  pub unlink : Text → Exec State (Unit {0})
  pub rmtree : Text → Exec State (Unit {0})
  pub makedirs : Text → Exec State (Unit {0})
  pub move : Text → Text → Exec State (Unit {0})
  -- `open(path, "wb")` and `shutil.copyfileobj`
  pub write : Text → Content → Exec State (Unit {0})

-- `StorageFile`
pub record StorageFile : Type 0 where
  pub name : Text
  pub path : Text
  pub size : ℕ
  pub mtime : ℕ
  pub is_dir : Bool

-- `with contextlib.suppress(…)`
abbrev pub suppressed : (Error → Bool) → Result (Unit {0}) → Result (Unit {0})
suppressed f (ok a) = ok tt
suppressed f (err e) = if f e then ok tt else err e

abbrev pub suppress : {S : Type 0} → (Error → Bool) → Exec S (Unit {0}) → Exec S (Unit {0})
suppress f m s = let (r, s') = m s in (suppressed f r, s')

abbrev pub is_missing : Error → Bool
is_missing os_file_not_found = true
is_missing e = false

abbrev pub is_missing_or_file : Error → Bool
is_missing_or_file os_file_not_found = true
is_missing_or_file os_not_a_directory = true
is_missing_or_file e = false

-- `except FileNotFoundError`, `NotADirectoryError` and `FileExistsError`, as the storage renames them
abbrev pub renamed : Error → Error
renamed os_file_not_found = file_not_found
renamed os_not_a_directory = not_a_directory
renamed e = e

abbrev pub renamed_on_makedirs : Error → Error
renamed_on_makedirs os_file_exists = file_already_exists
renamed_on_makedirs os_not_a_directory = not_a_directory
renamed_on_makedirs e = e

abbrev pub renamed_on_save : Error → Error
renamed_on_save os_not_a_directory = not_a_directory
renamed_on_save e = e

abbrev pub renamed_on_download : Error → Error
renamed_on_download os_file_not_found = file_not_found
renamed_on_download e = e

abbrev pub map_error : {A : Type 0} → (Error → Error) → Result A → Result A
map_error f (ok a) = ok a
map_error f (err e) = err (f e)

abbrev pub rename_error : {S A : Type 0} → (Error → Error) → Exec S A → Exec S A
rename_error f m s = let (r, s') = m s in (map_error f r, s')

-- `_has_path`, where `paths` is `none` for `None`; `lower` is `str.lower`.
unfoldable pub has_path : (Text → Text) → Text → Option (List Text) → Bool
has_path lower target none = true
has_path lower target (some paths) =
    any (λ p. text_eq (lower p) (lower target)) paths
    || any (λ p. has_prefix (lower p) (lower target)) paths

module _ (O : Os) (location : Text) where
  -- `_fullpath`
  unfoldable pub fullpath : Text → Text
  fullpath key = normpath (join location key)

  -- `_from_entry`
  unfoldable pub from_entry : DirEntry → Result StorageFile
  from_entry entry = elim entry.stat [
    | err e ↦ err e
    | ok stat ↦ ok (record {
      name = entry.name;
      path = drop (length location + 1) entry.path;
      size = stat.size;
      mtime = stat.mtime;
      is_dir = entry.is_dir;
    })
  ]

  -- `_from_path`
  unfoldable pub from_path : Text → Exec O.State StorageFile
  from_path path = do
    stat ← (λ s. lift (O.lstat path s) s)
    is_dir ← gets (O.isdir path)
    pure (record {
      name = basename path;
      path = drop (length location + 1) path;
      size = stat.size;
      mtime = stat.mtime;
      is_dir = is_dir;
    })

  unfoldable pub delete : Text → Exec O.State (Unit {0})
  delete key = do
    is_dir ← gets (O.isdir (fullpath key))
    if is_dir then pure tt else suppress is_missing (O.unlink (fullpath key))

  unfoldable pub delete_batch : List Text → Exec O.State (Unit {0})
  delete_batch [] = pure tt
  delete_batch (key ∷ keys) = do delete key; delete_batch keys

  unfoldable pub deletedir : Text → Exec O.State (Unit {0})
  deletedir key = suppress is_missing_or_file (O.rmtree (fullpath key))

  -- `emptydir`; its tasks run in the order in which they are created.
  unfoldable pub delete_entries : List DirEntry → Exec O.State (Unit {0})
  delete_entries [] = pure tt
  delete_entries (entry ∷ entries) = do
    (if entry.is_dir then O.rmtree entry.path else O.unlink entry.path)
    delete_entries entries

  abbrev pub listed : Result (List DirEntry) → Result (List DirEntry)
  listed (ok entries) = ok entries
  listed (err e) = if is_missing_or_file e then ok [] else err e

  unfoldable pub emptydir : Text → Exec O.State (Unit {0})
  emptydir key = do
    entries ← (λ s. lift (listed (O.scandir (fullpath key) s)) s)
    delete_entries entries

  -- `download`, with the chunks as a list
  unfoldable pub download : Text → Exec O.State (List Text)
  download key = do
    file ← rename_error renamed_on_download (from_path (fullpath key))
    if file.is_dir then raise file_not_found else (λ s. lift (O.read (fullpath key) s) s)

  unfoldable pub exists : Text → Exec O.State Bool
  exists key = gets (O.exists (fullpath key))

  -- The loop of `iterdir`: an entry that has gone is skipped when it is a symbolic link.
  unfoldable pub storage_files : List DirEntry → Result (List StorageFile)
  storage_files [] = ok []
  storage_files (entry ∷ entries) =
      let rest = storage_files entries in
      elim (from_entry entry) [
        | ok file ↦ elim rest [ ok files ↦ ok (file ∷ files) | err e ↦ err e ]
        | err e ↦ if is_missing e && entry.is_symlink then rest else err e
      ]

  unfoldable pub iterdir : Text → Exec O.State (List StorageFile)
  iterdir key = do
    entries ← (λ s. lift (map_error renamed (O.scandir (fullpath key) s)) s)
    lift (storage_files entries)

  unfoldable pub makedirs : Text → Exec O.State (Unit {0})
  makedirs key = rename_error renamed_on_makedirs (O.makedirs (fullpath key))

  -- `_move`
  unfoldable pub move_paths : Text → Text → Exec O.State (Unit {0})
  move_paths at_key to_key = rename_error renamed (O.move (fullpath at_key) (fullpath to_key))

  -- `move`, once `at_key` is known to be no folder
  unfoldable pub move_file : Text → Text → Exec O.State (Unit {0})
  move_file at_key to_key = do
    has_parent ← gets (O.exists (dirname (fullpath to_key)))
    (if has_parent then pure tt else makedirs (dirname to_key))
    move_paths at_key to_key

  unfoldable pub move : Text → Text → Exec O.State (Unit {0})
  move at_key to_key = do
    is_dir ← gets (O.isdir (fullpath at_key))
    if is_dir then raise file_not_found else move_file at_key to_key

  unfoldable pub movedir : Text → Text → Exec O.State (Unit {0})
  movedir at_key to_key = do
    is_dir ← gets (O.isdir (fullpath at_key))
    if is_dir then move_paths at_key to_key else pure tt

  unfoldable pub save : Text → Content → Exec O.State StorageFile
  save key content = do
    rename_error renamed_on_save (O.write (fullpath key) content)
    from_path (fullpath key)
