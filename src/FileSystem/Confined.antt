-- ===== src/FileSystem/Confined.antt =====
-- Which paths the methods of `FileSystemStorage` change, app/infrastructure/storage/filesystem.py.
use shelf_back.Base.{◌≡◌, refl, inl, inr, Bool-cases, Bool, true, false, List, [], ◌∷◌}
use shelf_back.Base.Text.{Text, codes, has_prefix}
use shelf_back.Base.Exec.{Error, Exec, Result, ok, err, continue, lift}
use shelf_back.Base.Keeps.{Keeps, Keeps-bind, Keeps-if, keep_rules}
use shelf_back.OsPath.{dirname}
use shelf_back.OsPath.Normal.{IsNormal}
use shelf_back.OsPath.Climbs.{climbs}
use shelf_back.OsPath.Inside.{Inside, location, join-Inside}
use shelf_back.OsPath.Dirname.{dirname-stays}
use shelf_back.Blobs.{Content}
use shelf_back.FileSystem.{
  Os, DirEntry, listed, delete_entries, emptydir, is_missing_or_file, fullpath, suppress,
  rename_error, from_path, delete, delete_batch, deletedir, makedirs, move_paths, move_file, move,
  movedir, save,
}

-- A relative path that does not climb.
abbrev pub IsPlainKey : Text → Type 0
IsPlainKey key = (climbs key ≡ false) × (has_prefix (codes "/") key ≡ false)

abbrev pub Keys : List Text → Type 0
Keys [] = Unit
Keys (key ∷ keys) = IsPlainKey key × Keys keys

-- The entries of a folder lie where the folder lies.
abbrev pub EntriesInside : Text → List DirEntry → Type 0
EntriesInside folder [] = Unit
EntriesInside folder (entry ∷ entries) = Inside folder entry.path × EntriesInside folder entries

-- A property of the file system that no call changes whose paths are inside the folder. Such is, for a
-- system without symbolic links, what is outside the folder.
pub record Framed (O : Os) (P : O.State → Type 0) (folder : Text) : Type 0 where
  pub scandir :
      (path : Text) (s : O.State) (entries : List DirEntry)
      → Inside folder path
      → O.scandir path s ≡ ok entries
      → EntriesInside folder entries
  pub unlink : (path : Text) → Inside folder path → Keeps P (O.unlink path)
  pub rmtree : (path : Text) → Inside folder path → Keeps P (O.rmtree path)
  pub makedirs : (path : Text) → Inside folder path → Keeps P (O.makedirs path)
  pub move :
      (path to_path : Text)
      → Inside folder path
      → Inside folder to_path
      → Keeps P (O.move path to_path)
  pub write :
      (path : Text) (content : Content) → Inside folder path → Keeps P (O.write path content)

module _ {S : Type 0} (P : S → Type 0) where
  Keeps-suppress : (f : Error → Bool) (m : Exec S (Unit {0})) → Keeps P m → Keeps P (suppress f m)
  Keeps-suppress f m h = record { at = λ s p. h.at s p }

  Keeps-rename_error :
      {A : Type 0} (f : Error → Error) (m : Exec S A) → Keeps P m → Keeps P (rename_error f m)
  Keeps-rename_error f m h = record { at = λ s p. h.at s p }

  Keeps-read : {A : Type 0} (f : S → Result A) → Keeps P (λ s. lift (f s) s)
  Keeps-read f = record { at = λ s p. p }

module _ (d : Text) (ds : List Text) (normal : IsNormal true (d ∷ ds)) (O : Os)
    (P : O.State → Type 0) (F : Framed O P (location d ds normal)) where
  abbrev folder : Text
  folder = location d ds normal

  fullpath-Inside : (key : Text) → IsPlainKey key → Inside folder (fullpath O folder key)
  unfolding fullpath
  fullpath-Inside key (h, k) = join-Inside d ds normal key h k

  from_path-Keeps : (path : Text) → Keeps P (from_path O folder path)
  unfolding from_path
  from_path-Keeps path = search (keep_rules, Keeps-read)

  delete-Keeps : (key : Text) → IsPlainKey key → Keeps P (delete O folder key)
  unfolding delete
  delete-Keeps key h = search (keep_rules, Keeps-suppress, F.unlink, fullpath-Inside)

  delete_batch-Keeps : (keys : List Text) → Keys keys → Keeps P (delete_batch O folder keys)
  unfolding delete_batch
  delete_batch-Keeps [] h = search keep_rules
  delete_batch-Keeps (key ∷ keys) (h, k) =
      Keeps-bind P _ _ (delete-Keeps key h) (λ _. delete_batch-Keeps keys k)

  deletedir-Keeps : (key : Text) → IsPlainKey key → Keeps P (deletedir O folder key)
  unfolding deletedir
  deletedir-Keeps key h = search (Keeps-suppress, F.rmtree, fullpath-Inside)

  delete_entries-Keeps :
      (entries : List DirEntry)
      → EntriesInside folder entries
      → Keeps P (delete_entries O folder entries)
  unfolding delete_entries
  delete_entries-Keeps [] h = search keep_rules
  delete_entries-Keeps (entry ∷ entries) (h, hs) =
      Keeps-bind P _ _
        (Keeps-if P entry.is_dir (O.rmtree entry.path) (O.unlink entry.path) (F.rmtree entry.path h)
          (F.unlink entry.path h))
        (λ _. delete_entries-Keeps entries hs)

  emptied :
      (s : O.State) (r : Result (List DirEntry))
      → ((entries : List DirEntry) → r ≡ ok entries → EntriesInside folder entries)
      → P s
      → P (continue (listed O folder r) (delete_entries O folder) s).1
  emptied s (ok entries) h p = (delete_entries-Keeps entries (h entries refl)).at s p
  emptied s (err e) h p = elim (Bool-cases (is_missing_or_file e)) [
    | inl missing ↦ rw missing ((delete_entries-Keeps [] tt).at s p)
    | inr other ↦ rw other p
  ]

  emptydir-Keeps : (key : Text) → IsPlainKey key → Keeps P (emptydir O folder key)
  unfolding emptydir
  emptydir-Keeps key h = record {
    at = λ s p.
        emptied s (O.scandir (fullpath O folder key) s)
          (λ entries e. F.scandir _ s entries (fullpath-Inside key h) e) p;
  }

  makedirs-Keeps : (key : Text) → IsPlainKey key → Keeps P (makedirs O folder key)
  unfolding makedirs
  makedirs-Keeps key h = search (Keeps-rename_error, F.makedirs, fullpath-Inside)

  move_paths-Keeps :
      (key to_key : Text)
      → IsPlainKey key
      → IsPlainKey to_key
      → Keeps P (move_paths O folder key to_key)
  unfolding move_paths
  move_paths-Keeps key to_key h k = search (Keeps-rename_error, F.move, fullpath-Inside)

  parent-IsPlainKey : (key : Text) → IsPlainKey key → IsPlainKey (dirname key)
  parent-IsPlainKey key (h, k) = dirname-stays key h k

  move-Keeps :
      (key to_key : Text) → IsPlainKey key → IsPlainKey to_key → Keeps P (move O folder key to_key)
  unfolding move move_file
  move-Keeps key to_key h k =
      search (keep_rules, makedirs-Keeps, move_paths-Keeps, parent-IsPlainKey) depth 12

  movedir-Keeps :
      (key to_key : Text)
      → IsPlainKey key
      → IsPlainKey to_key
      → Keeps P (movedir O folder key to_key)
  unfolding movedir
  movedir-Keeps key to_key h k = search (keep_rules, move_paths-Keeps)

  save-Keeps :
      (key : Text) (content : Content) → IsPlainKey key → Keeps P (save O folder key content)
  unfolding save
  save-Keeps key content h =
      search (keep_rules, Keeps-rename_error, F.write, fullpath-Inside, from_path-Keeps)

  -- For a location below the root, and a property of the file system that calls at paths inside the
  -- location keep: deletion, of one key, of several, of a folder and of what is in it, the creation of a folder, both moves and saving
  -- keep the property, whether they raise or not, when no key is absolute or has a normal form that
  -- begins with `..`.
  pub storage_stays_inside :
      (key to_key : Text) (keys : List Text) (content : Content) (s : O.State)
      → IsPlainKey key
      → IsPlainKey to_key
      → Keys keys
      → P s
      → P (delete O folder key s).1
        × P (delete_batch O folder keys s).1
        × P (deletedir O folder key s).1
        × P (emptydir O folder key s).1
        × P (makedirs O folder key s).1
        × P (move O folder key to_key s).1
        × P (movedir O folder key to_key s).1
        × P (save O folder key content s).1
  storage_stays_inside key to_key keys content s h k hs p = (
    (delete-Keeps key h).at s p,
    (delete_batch-Keeps keys hs).at s p,
    (deletedir-Keeps key h).at s p,
    (emptydir-Keeps key h).at s p,
    (makedirs-Keeps key h).at s p,
    (move-Keeps key to_key h k).at s p,
    (movedir-Keeps key to_key h k).at s p,
    (save-Keeps key content h).at s p,
  )
