-- ===== src/Files/Effects.antt =====
-- What the repository methods that the services call do to the tables, for a namespace that exists:
-- app/infrastructure/database/tortoise/repositories/file.py, app/app/blobs/services/blob.py.
use mathlib.Core.Path.{fun_ext}
use shelf_back.Base.{
  ℕ, ◌+◌, ◌≡◌, refl, sym, ap, Bool, true, false, not, ◌&&◌, inl, inr, some, List, [], ◌∷◌, ◌++◌,
  ◌==◌, if◌then◌else◌, keep_if, find_first, update_where, is_nil, Bool-cases, Option-cases, arith,
}
use shelf_back.Base.Int.{ℤ, ◌+ℤ◌, is_zero}
use shelf_back.Base.Text.{Text, text_eq}
use shelf_back.Base.Exec.{Exec, ok}
use shelf_back.Files.Model.{Env, Namespace, Payload, FileRow, Db, File}
use shelf_back.Files.Repository.{
  namespace_at, in_ns, at_path, at_paths, under_prefix, iexact, istartswith, text_in, grow,
  get_namespace, from_db, file_fields, incr_size_batch, delete_all_with_prefix,
}
use shelf_back.Files.Namespaces
use shelf_back.Blobs.Repository
use shelf_back.Blobs.Service

-- The tests of the queries, by the namespace itself.
abbrev pub row_in : Namespace → FileRow → Bool
row_in n row = row.namespace_id == n.id

abbrev pub row_among : Namespace → List Text → FileRow → Bool
row_among n paths row = row_in n row && text_in row.path paths

abbrev pub row_under : Env → Namespace → Text → FileRow → Bool
row_under V n prefix row = row_in n row && istartswith V row.path prefix

abbrev pub row_at : Env → Namespace → Text → FileRow → Bool
row_at V n path row = row_in n row && iexact V row.path path

module _ (db : Db) (ns_path : Text) (n : Namespace) (found : namespace_at db ns_path ≡ some n) where
  pub in_ns-found : (row : FileRow) → in_ns db ns_path row ≡ row_in n row
  unfolding in_ns
  in_ns-found row = rw (found, in_ns)

  pub at_paths-found :
      (V : Env) (paths : List Text) → at_paths V db ns_path paths ≡ row_among n paths
  unfolding at_paths
  at_paths-found V paths = fun_ext λ row. rw (in_ns-found row)

  pub under_prefix-found :
      (V : Env) (prefix : Text) → under_prefix V db ns_path prefix ≡ row_under V n prefix
  unfolding under_prefix
  under_prefix-found V prefix = fun_ext λ row. rw (in_ns-found row)

  pub at_path-found : (V : Env) (path : Text) → at_path V db ns_path path ≡ row_at V n path
  unfolding at_path
  at_path-found V path = fun_ext λ row. rw (in_ns-found row)

+ℤ_zero : (a v : ℤ) → is_zero v ≡ true → a +ℤ v ≡ a
unfolding ◌+ℤ◌
+ℤ_zero a v h = ground arith

grow_zero : (v : ℤ) → is_zero v ≡ true → (r : FileRow) → grow v r ≡ r
unfolding grow
grow_zero v h r = λ i. record r { size = +ℤ_zero r.size v h i }

update_where_id :
    (p : FileRow → Bool) (f : FileRow → FileRow)
    → ((r : FileRow) → f r ≡ r)
    → (rows : List FileRow) → update_where p f rows ≡ rows
unfolding update_where
update_where_id p f h [] = refl
update_where_id p f h (r ∷ rows) = rw (update_where_id p f h rows) (ground (arith, h r))

abbrev pub resized : Namespace → List Text → ℤ → List FileRow → List FileRow
resized n paths value = update_where (row_among n paths) (grow value)

-- `incr_size_batch` adds the value to the size of exactly the rows of the namespace that have one
-- of the paths, letter by letter; the short cut for 0 makes no difference.
pub incr_size_batch_lem :
    (V : Env) (db : Db) (ns_path : Text) (n : Namespace) (paths : List Text) (value : ℤ)
    → namespace_at db ns_path ≡ some n
    → incr_size_batch V ns_path paths value db
      ≡ (ok tt, record db { files = resized n paths value db.files })
unfolding incr_size_batch get_namespace
incr_size_batch_lem V db ns_path n paths value found = elim (Bool-cases (is_zero value)) [
  | inl z ↦ rw z (λ i. (
    ok tt,
    record db {
      files = sym (update_where_id (row_among n paths) (grow value) (grow_zero value z) db.files) i;
    },
  ))
  | inr nz ↦ rw (nz, found, at_paths-found db ns_path n found V paths)
]

pub delete_all_with_prefix_lem :
    (V : Env) (db : Db) (ns_path : Text) (n : Namespace) (prefix : Text)
    → namespace_at db ns_path ≡ some n
    → delete_all_with_prefix V ns_path prefix db
      ≡ (ok tt, record db { files = keep_if (λ r. not (row_under V n prefix r)) db.files })
unfolding delete_all_with_prefix get_namespace
delete_all_with_prefix_lem V db ns_path n prefix found =
    rw (found, under_prefix-found db ns_path n found V prefix)

-- A method succeeds and changes neither the files nor the namespaces.
pub record Spares (m : Exec Db Unit) (db : Db) : Type 0 where
  pub after : Db
  pub result : m db ≡ (ok tt, after)
  pub files : after.files ≡ db.files
  pub namespaces : after.namespaces ≡ db.namespaces

pub Spares-pure : (db : Db) → Spares (λ s. (ok tt, s)) db
Spares-pure db = record { after = db; result = refl; files = refl; namespaces = refl }

Spares-if :
    (b : Bool) (m k : Exec Db Unit) (db : Db)
    → Spares m db
    → Spares k db
    → Spares (if b then m else k) db
Spares-if true m k db h g = h
Spares-if false m k db h g = g

pub record SavesJobs (V : Env) (payloads : List Payload) (db : Db) : Type 0 where
  pub ids : List ℕ
  pub after : Db
  pub result : Repository.save_jobs V payloads db ≡ (ok ids, after)
  pub files : after.files ≡ db.files
  pub namespaces : after.namespaces ≡ db.namespaces

save_jobs_lem : (V : Env) (payloads : List Payload) (db : Db) → SavesJobs V payloads db
unfolding Repository.save_jobs
save_jobs_lem V [] db = record {
  ids = [];
  after = db;
  result = refl;
  files = refl;
  namespaces = refl;
}
save_jobs_lem V (p ∷ payloads) db =
    let ih = save_jobs_lem V payloads (record db {
      jobs = db.jobs ++ (record { id = V.uuid db.drawn; payload = p } ∷ []);
      drawn = db.drawn + 1;
    }) in
    record {
      ids = V.uuid db.drawn ∷ ih.ids;
      after = ih.after;
      result = rw ih.result;
      files = ih.files;
      namespaces = ih.namespaces;
    }

pub record_jobs-Spares :
    (V : Env) (payloads : List Payload) (db : Db) → Spares (Service.record_jobs V payloads) db
unfolding Service.record_jobs
record_jobs-Spares V payloads db =
    let saved = save_jobs_lem V payloads db in
    record {
      after = saved.after;
      result = rw saved.result;
      files = saved.files;
      namespaces = saved.namespaces;
    }

pub delete_all_with_prefix-Spares :
    (V : Env) (prefix : Text) (db : Db) → Spares (Service.delete_all_with_prefix V prefix) db
unfolding Service.delete_all_with_prefix
delete_all_with_prefix-Spares V prefix db = record_jobs-Spares V _ db

pub delete_batch-Spares :
    (V : Env) (ids : List ℕ) (db : Db) → Spares (Service.delete_batch V ids) db
unfolding Service.delete_batch Repository.get_by_id_batch
delete_batch-Spares V [] db = record { after = db; result = refl; files = refl; namespaces = refl }
delete_batch-Spares V (id ∷ ids) db =
    let m = Service.record_jobs V _ in
    let spared =
      Spares-if (is_nil _) (λ s. (ok tt, s)) m db (Spares-pure db) (record_jobs-Spares V _ db) in
    record {
      after = spared.after;
      result = spared.result;
      files = spared.files;
      namespaces = spared.namespaces;
    }

pub namespace_found :
    (db : Db) (ns_path : Text) (n : Namespace)
    → namespace_at db ns_path ≡ some n
    → Namespaces.get_by_path ns_path db ≡ (ok n, db)
unfolding Namespaces.get_by_path
namespace_found db ns_path n found = rw found

pub namespace_at_cong :
    (a b : Db) (ns_path : Text)
    → a.namespaces ≡ b.namespaces
    → namespace_at a ns_path ≡ namespace_at b ns_path
unfolding namespace_at
namespace_at_cong a b ns_path e = ap (λ ns. find_first (λ n. text_eq n.path ns_path) ns) e

pub ns_path-from_db :
    (db : Db) (ns_path : Text) (row : FileRow) (file : File)
    → from_db db ns_path row ≡ ok file
    → file.ns_path ≡ ns_path
unfolding from_db
ns_path-from_db db ns_path row file h = elim (Option-cases (file_fields db row.blob_id)) [
  | inl e ↦ ground (arith, e)
  | inr ((c, m), e) ↦ ground (arith, e)
]
