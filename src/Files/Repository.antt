-- ===== src/Files/Repository.antt =====
-- `FileRepository`, app/infrastructure/database/tortoise/repositories/file.py. A query is a pass
-- over the table; `namespace__path` goes by the namespace of that path, which is unique.
use shelf_back.Base.{
  ℕ, Bool, false, not, ◌&&◌, ◌||◌, Option, none, some, List, [], ◌∷◌, ◌++◌, map, ◌==◌,
  if◌then◌else◌, keep_if, find_first, any, update_where, sort_by, length, contains,
}
use shelf_back.Base.Int.{ℤ, ◌+ℤ◌, is_zero}
use shelf_back.Base.Text.{Text, codes, text_eq, has_prefix}
use shelf_back.Base.Exec.{
  Exec, Result, ok, err, file_not_found, does_not_exist, assertion_error, pure, gets, modify,
  or_raise, ◌>>=◌, ◌>>◌, one_of, not_found_as, all_ok, lift,
}
use shelf_back.FilePath.{FilePath, path_of}
use shelf_back.OsPath.{text_lt}
use shelf_back.Files.Model.{Env, Namespace, Blob, FileRow, Db, File, empty_content_hash, folder}

-- `path in [str(p) for p in paths]`
unfoldable pub text_in : Text → List Text → Bool
text_in s [] = false
text_in s (t ∷ ts) = text_eq s t || text_in s ts

abbrev pub texts : List FilePath → List Text
texts = map (λ p. p.text)

-- `models.Namespace.get(path=…)`
unfoldable pub namespace_at : Db → Text → Option Namespace
namespace_at db ns_path = find_first (λ n. text_eq n.path ns_path) db.namespaces

-- `namespace__path=ns_path`
unfoldable pub in_ns : Db → Text → FileRow → Bool
in_ns db ns_path row = elim (namespace_at db ns_path) [
  | none ↦ false
  | some n ↦ row.namespace_id == n.id
]

-- `obj.namespace.path`
unfoldable pub path_of_ns : Db → FileRow → Option Text
path_of_ns db row = elim (find_first (λ n. n.id == row.namespace_id) db.namespaces) [
  | none ↦ none
  | some n ↦ some n.path
]

unfoldable pub blob_of : Db → ℕ → Option Blob
blob_of db blob_id = find_first (λ b. b.id == blob_id) db.blobs

-- `_file_fields`: the hash and the media type; `none` is the failed `assert`.
unfoldable pub file_fields : Db → Option ℕ → Option (Text × Text)
file_fields db none = some (empty_content_hash, folder)
file_fields db (some blob_id) = elim (blob_of db blob_id) [
  | none ↦ none
  | some b ↦ some (b.chash, b.media_type)
]

-- `_from_db` with a namespace path
unfoldable pub from_db : Db → Text → FileRow → Result File
from_db db ns_path obj = elim (file_fields db obj.blob_id) [
  | none ↦ err assertion_error
  | some (chash, mediatype) ↦ ok (record {
    id = obj.id;
    blob_id = obj.blob_id;
    owner_id = obj.owner_id;
    ns_path = ns_path;
    name = obj.name;
    path = path_of obj.path;
    chash = chash;
    size = obj.size;
    modified_at = obj.modified_at;
    mediatype = mediatype;
  })
]

-- `_from_db` with the namespace's own path
unfoldable pub from_db_own : Db → FileRow → Result File
from_db_own db obj = elim (path_of_ns db obj) [
  | none ↦ err does_not_exist
  | some ns_path ↦ from_db db ns_path obj
]

unfoldable pub without_row : ℕ → Db → Db
without_row id db = record db { files = keep_if (λ r. not (r.id == id)) db.files }

unfoldable pub get_namespace : Text → Exec Db Namespace
get_namespace ns_path db = or_raise (namespace_at db ns_path) does_not_exist db

unfoldable pub exists_with_id : Text → ℕ → Exec Db Bool
exists_with_id ns_path file_id =
    gets (λ db. any (λ r. in_ns db ns_path r && (r.id == file_id)) db.files)

unfoldable pub get_by_id : ℕ → Exec Db File
get_by_id file_id = do
  found ←
      gets (λ db. not_found_as file_not_found (one_of (keep_if (λ r. r.id == file_id) db.files)))
  obj ← lift found
  file ← gets (λ db. from_db_own db obj)
  lift file

unfoldable pub grow : ℤ → FileRow → FileRow
grow value r = record r { size = r.size +ℤ value }

module _ (V : Env) where
  unfoldable pub iexact : Text → Text → Bool
  iexact s t = text_eq (V.sql_upper s) (V.sql_upper t)

  unfoldable pub istartswith : Text → Text → Bool
  istartswith s prefix = has_prefix (V.sql_upper prefix) (V.sql_upper s)

  -- `namespace__path=ns_path, path__iexact=path`
  unfoldable pub at_path : Db → Text → Text → FileRow → Bool
  at_path db ns_path path row = in_ns db ns_path row && iexact row.path path

  -- `namespace=…, path__istartswith=prefix`
  unfoldable pub under_prefix : Db → Text → Text → FileRow → Bool
  under_prefix db ns_path prefix row = in_ns db ns_path row && istartswith row.path prefix

  -- `namespace=…, path__in=paths`
  unfoldable pub at_paths : Db → Text → List Text → FileRow → Bool
  at_paths db ns_path paths row = in_ns db ns_path row && text_in row.path paths

  unfoldable pub count_by_path_pattern : Text → Text → Exec Db ℕ
  count_by_path_pattern ns_path pattern =
      gets
        (λ db. length (keep_if (λ r. in_ns db ns_path r && V.regex_match pattern r.path) db.files))

  unfoldable pub get_row : Text → Text → Exec Db FileRow
  get_row ns_path path db =
      lift (not_found_as file_not_found (one_of (keep_if (at_path db ns_path path) db.files))) db

  unfoldable pub delete : Text → Text → Exec Db File
  delete ns_path path = do
    obj ← get_row ns_path path
    found ← gets (λ db. from_db db ns_path obj)
    file ← lift found
    modify (without_row obj.id)
    pure file

  unfoldable pub delete_all_with_prefix : Text → Text → Exec Db Unit
  delete_all_with_prefix ns_path prefix = do
    get_namespace ns_path
    modify
        (λ db. record db { files = keep_if (λ r. not (under_prefix db ns_path prefix r)) db.files })

  unfoldable pub delete_batch : Text → List Text → Exec Db Unit
  delete_batch ns_path paths = do
    get_namespace ns_path
    modify (λ db. record db { files = keep_if (λ r. not (at_paths db ns_path paths r)) db.files })

  unfoldable pub exists_at_path : Text → Text → Exec Db Bool
  exists_at_path ns_path path = gets (λ db. any (at_path db ns_path path) db.files)

  abbrev by_lower_path : FileRow → FileRow → Bool
  by_lower_path r q = V.sql_lt (V.sql_lower r.path) (V.sql_lower q.path)

  unfoldable pub get_by_id_batch : List ℕ → Exec Db (List File)
  get_by_id_batch ids = do
    files ← gets (λ db.
        all_ok (
          map (from_db_own db) (sort_by by_lower_path (keep_if (λ r. contains ids r.id) db.files))))
    lift files

  unfoldable pub get_by_path : Text → Text → Exec Db File
  get_by_path ns_path path = do
    obj ← get_row ns_path path
    file ← gets (λ db. from_db db ns_path obj)
    lift file

  abbrev pub at_lower_paths : Db → Text → List Text → FileRow → Bool
  at_lower_paths db ns_path paths r =
      in_ns db ns_path r && text_in (V.sql_lower r.path) (map V.lower paths)

  unfoldable pub get_by_path_batch : Text → List Text → Exec Db (List File)
  get_by_path_batch ns_path paths = do
    files ← gets (λ db. all_ok (
        map (from_db db ns_path)
          (sort_by by_lower_path (keep_if (at_lower_paths db ns_path paths) db.files))))
    lift files

  unfoldable pub incr_size_batch : Text → List Text → ℤ → Exec Db Unit
  incr_size_batch ns_path paths value = if is_zero value then pure tt else do
    get_namespace ns_path
    modify
        (λ db. record db { files = update_where (at_paths db ns_path paths) (grow value) db.files })

  -- The sort key of `list_with_prefix`: folders first, then the name in lower case.
  abbrev pub lists_before : File → File → Bool
  lists_before f g =
      let f_folder = text_eq f.mediatype folder in
      let g_folder = text_eq g.mediatype folder in
      if f_folder
      then not g_folder || text_lt (V.lower f.name) (V.lower g.name)
      else not g_folder && text_lt (V.lower f.name) (V.lower g.name)

  unfoldable pub list_with_prefix : Text → Text → Exec Db (List File)
  list_with_prefix ns_path prefix = do
    let pattern = codes "^" ++ (V.regex_escape prefix ++ codes "[^/]+$")
    found ← gets (λ db. all_ok (
        map (from_db db ns_path)
          (keep_if (λ r. in_ns db ns_path r && V.regex_match pattern r.path) db.files)))
    results ← lift found
    pure (sort_by lists_before results)
