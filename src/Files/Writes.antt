-- ===== src/Files/Writes.antt =====
-- The methods of `FileRepository` that insert and rename rows,
-- app/infrastructure/database/tortoise/repositories/file.py. A row is unique by namespace and path.
use shelf_back.Base.{
  ℕ, ◌+◌, Bool, true, not, ◌&&◌, Option, none, some, List, [], ◌∷◌, ◌++◌, ◌==◌, if◌then◌else◌,
  keep_if, any, update_where, length, drop, is_nil,
}
use shelf_back.Base.Text.{Text, codes, text_eq, has_prefix}
use shelf_back.Base.Exec.{
  Exec, Result, ok, err, file_already_exists, integrity_error, key_error, pure, raise, gets, modify,
  ◌>>=◌, ◌>>◌, one_of, lift,
}
use shelf_back.FilePath
use shelf_back.FilePath.{FilePath, path_of}
use shelf_back.Files.Model.{Env, Namespace, FileRow, Db, File}
use shelf_back.Files.Repository.{namespace_at, from_db_own, under_prefix, get_namespace, get_by_id}

-- `s.replace(old, new, 1)`
unfoldable pub replace_first : Text → Text → Text → Text
replace_first old new [] = if is_nil old then new else []
replace_first old new (c ∷ s) =
    let rest = replace_first old new s in
    if has_prefix old (c ∷ s) then new ++ drop (length old) (c ∷ s) else c ∷ rest

-- Another row of the namespace has the path.
unfoldable pub is_taken : List FileRow → ℕ → Text → Bool
is_taken rows namespace_id path =
    any (λ r. r.namespace_id == namespace_id && text_eq r.path path) rows

-- `unique_together = (("path", "namespace"),)`
unfoldable pub is_unique : List FileRow → Bool
is_unique [] = true
is_unique (r ∷ rows) = not (is_taken rows r.namespace_id r.path) && is_unique rows

-- `FileUpdate`
pub record FileUpdate : Type 0 where
  pub ns_path : Option Text
  pub name : Option Text
  pub path : Option Text

abbrev or_old {ℓ} : {A : Type ℓ} → Option A → A → A
or_old none a = a
or_old (some b) a = b

module _ (V : Env) where
  unfoldable pub new_row : Namespace → ℕ → File → FileRow
  new_row n id file = record {
    id = id;
    name = file.name;
    path = file.path.text;
    size = file.size;
    modified_at = file.modified_at;
    owner_id = n.owner_id;
    namespace_id = n.id;
    blob_id = file.blob_id;
  }

  abbrev pub insert_row : FileRow → Db → Db
  insert_row row db = record db { files = db.files ++ (row ∷ []); drawn = db.drawn + 1 }

  unfoldable pub save : File → Exec Db File
  save file = do
    namespace ← get_namespace file.ns_path
    taken ← gets (λ db. is_taken db.files namespace.id file.path.text)
    if taken then raise file_already_exists else do
      id ← gets (λ db. V.uuid db.drawn)
      modify (insert_row (new_row namespace id file))
      get_by_id id

  -- `bulk_create(…, ignore_conflicts=True)`
  unfoldable pub bulk_create : List (Namespace × File) → Db → Db
  bulk_create [] db = db
  bulk_create ((n, f) ∷ rows) db = bulk_create rows (
      if is_taken db.files n.id f.path.text
      then record db { drawn = db.drawn + 1 }
      else insert_row (new_row n (V.uuid db.drawn) f) db)

  -- `namespaces[f.ns_path]` for each file
  unfoldable pub with_namespaces : Db → List File → Result (List (Namespace × File))
  with_namespaces db [] = ok []
  with_namespaces db (f ∷ fs) = elim (namespace_at db f.ns_path) [
    | none ↦ err key_error
    | some n ↦ elim (with_namespaces db fs) [ ok rows ↦ ok ((n, f) ∷ rows) | err e ↦ err e ]
  ]

  unfoldable pub save_batch : List File → Exec Db Unit
  save_batch [] = pure tt
  save_batch (f ∷ files) = do
    found ← gets (λ db. with_namespaces db (f ∷ files))
    rows ← lift found
    modify (bulk_create rows)

  abbrev pub commit_files : (FileRow → Bool) → (FileRow → FileRow) → Exec Db Unit
  commit_files test change db =
      let files = update_where test change db.files in
      if is_unique files then (ok tt, record db { files = files }) else (err integrity_error, db)

  -- The namespace that the row is moved to, if it changes.
  unfoldable pub next_namespace : File → FileUpdate → Exec Db (Option Namespace)
  next_namespace file fields =
      let ns_path = or_old fields.ns_path file.ns_path in
      if text_eq ns_path file.ns_path
      then pure none
      else do n ← get_namespace ns_path; pure (some n)

  unfoldable pub updated_row : Option Namespace → FileUpdate → FileRow → FileRow
  updated_row none fields r = record r {
    name = or_old fields.name r.name;
    path = or_old fields.path r.path;
  }
  updated_row (some n) fields r = record r {
    name = or_old fields.name r.name;
    path = or_old fields.path r.path;
    owner_id = n.owner_id;
    namespace_id = n.id;
  }

  unfoldable pub update : File → FileUpdate → Exec Db File
  update file fields = do
    n ← next_namespace file fields
    commit_files (λ r. r.id == file.id) (updated_row n fields)
    found ← gets (λ db. one_of (keep_if (λ r. r.id == file.id) db.files))
    obj ← lift found
    result ← gets (λ db. from_db_own db obj)
    lift result

  -- `None` where the prefix stays in its namespace.
  unfoldable pub prefix_namespace : Text → Text → Exec Db (Option Namespace)
  prefix_namespace at_ns_path to_ns_path =
      if text_eq at_ns_path to_ns_path
      then pure none
      else do n ← get_namespace to_ns_path; pure (some n)

  unfoldable pub moved_row : Option Namespace → Text → Text → FileRow → FileRow
  moved_row to_ns at_prefix to_prefix r =
      let to_path = replace_first at_prefix to_prefix r.path in
      updated_row to_ns
        (record {
          ns_path = none;
          name = some (FilePath.name (path_of to_path));
          path = some to_path;
        })
        r

  unfoldable pub replace_path_prefix : Text → Text → Text → Text → Exec Db Unit
  replace_path_prefix at_ns_path at_prefix to_ns_path to_prefix = do
    to_ns ← prefix_namespace at_ns_path to_ns_path
    test ← gets (λ db. under_prefix V db at_ns_path (at_prefix ++ codes "/"))
    commit_files test (moved_row to_ns at_prefix to_prefix)
