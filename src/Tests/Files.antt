-- ===== src/Tests/Files.antt =====
-- A namespace with a folder and two files.
use shelf_back.Base.{
  ℕ, ◌+◌, ◌≡◌, refl, Option, none, some, List, [], ◌∷◌, map, any, true, false, Bool, if◌then◌else◌,
  leb, ◌&&◌, ◌-◌, keep_if, ◌++◌,
}
use shelf_back.Base.Int.{pos}
use shelf_back.Base.Text.{Text, codes, text_eq, has_prefix, decimal}
use shelf_back.Base.Exec.{ok, atomic}
use shelf_back.OsPath.{text_lt}
use shelf_back.FilePath.{path_of, casefold}
use shelf_back.Files.Model.{
  Env, Namespace, Blob, FileRow, Db, File, folder, is_folder, empty_content_hash,
}
use shelf_back.Files.Repository.{namespace_at, at_path, from_db, in_ns, iexact, file_fields}
use shelf_back.Files.Effects.{row_at, row_under}
use shelf_back.Files.Core.{delete, empty_folder}
use shelf_back.Files.Move.{move}
use shelf_back.Files.Atomicity.{failed_changes_nothing}
use shelf_back.Files.Core.Deletion.{delete_effect, delete_gone, after_delete}
use shelf_back.Tests.FilePath.{ascii, encodings}

abbrev pub upper : Text → Text
upper = map (λ c. if leb 97 c && leb c 122 then c - 32 else c)

abbrev pub ascii_env : Env
ascii_env = record {
  casing = ascii;
  lower = casefold ascii;
  sql_upper = upper;
  sql_lower = casefold ascii;
  sql_lt = text_lt;
  regex_match = has_prefix;
  regex_escape = λ s. s;
  encodings_map = encodings;
  uuid = λ n. n + 100;
  uuid_text = decimal;
}

abbrev pub admin : Namespace
admin = record { id = 1; path = codes "admin"; owner_id = 7 }

abbrev row : ℕ → Text → Text → ℕ → Option ℕ → FileRow
row id name path size blob_id = record {
  id = id;
  name = name;
  path = path;
  size = pos size;
  modified_at = 0;
  owner_id = 7;
  namespace_id = 1;
  blob_id = blob_id;
}

abbrev pub blob : ℕ → Text → ℕ → Blob
blob id storage_key size = record {
  id = id;
  storage_key = storage_key;
  size = pos size;
  chash = codes "hash";
  media_type = codes "text/plain";
  created_at = 0;
}

abbrev pub docs_row : FileRow
docs_row = row 11 (codes "Docs") (codes "Docs") 10 none

abbrev pub home : Db
home = record {
  files =
      row 10 (codes "admin") (codes ".") 30 none
      ∷ docs_row
      ∷ row 12 (codes "a.txt") (codes "Docs/a.txt") 10 (some 50)
      ∷ row 13 (codes "b.txt") (codes "b.txt") 20 (some 51)
      ∷ [];
  namespaces = admin ∷ [];
  blobs = blob 50 (codes "7/files/Docs/a.txt") 10 ∷ blob 51 (codes "7/files/b.txt") 20 ∷ [];
  jobs = [];
  drawn = 0;
}

abbrev docs : File
docs = record {
  id = 11;
  blob_id = none;
  owner_id = 7;
  ns_path = codes "admin";
  name = codes "Docs";
  path = path_of (codes "Docs");
  chash = empty_content_hash;
  size = pos 10;
  modified_at = 0;
  mediatype = folder;
}

home-admin : namespace_at home (codes "admin") ≡ some admin
unfolding namespace_at text_eq shelf_back.Base.find_first
home-admin = refl

home-docs :
    keep_if (at_path ascii_env home (codes "admin") (codes "docs")) home.files ≡ docs_row ∷ []
unfolding namespace_at at_path in_ns iexact text_eq shelf_back.Base.find_first keep_if
home-docs = refl

docs-whole : from_db home (codes "admin") docs_row ≡ ok docs
unfolding from_db file_fields
docs-whole = refl

failed_changes_nothing_example :
    (atomic (delete ascii_env (codes "admin") (codes "docs")) home
      ≡ delete ascii_env (codes "admin") (codes "docs") home)
    × (atomic (empty_folder ascii_env (codes "admin") (codes "docs")) home
        ≡ empty_folder ascii_env (codes "admin") (codes "docs") home)
    × (atomic (move ascii_env (codes "admin") (codes "docs") (codes "admin") (codes "b.txt")) home
        ≡ move ascii_env (codes "admin") (codes "docs") (codes "admin") (codes "b.txt") home)
failed_changes_nothing_example =
    failed_changes_nothing ascii_env (codes "admin") (codes "docs") (codes "admin") (codes "b.txt")
      home

delete_effect_example :
    ((delete ascii_env (codes "admin") (codes "docs") home).0 ≡ ok docs)
    × ((delete ascii_env (codes "admin") (codes "docs") home).1.files
        ≡ after_delete ascii_env (codes "admin") admin (codes "docs") docs_row docs home.files)
delete_effect_example =
    delete_effect ascii_env (codes "admin") admin (codes "docs") docs_row docs home home-admin
      home-docs docs-whole

delete_gone_example :
    let files = (delete ascii_env (codes "admin") (codes "docs") home).1.files in
    (any (row_at ascii_env admin (codes "docs")) files ≡ false)
    × ((is_folder docs && any (row_under ascii_env admin (codes "docs" ++ codes "/")) files)
        ≡ false)
delete_gone_example =
    delete_gone ascii_env (codes "admin") admin (codes "docs") docs_row docs home home-admin
      home-docs docs-whole
