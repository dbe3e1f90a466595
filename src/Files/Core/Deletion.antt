-- ===== src/Files/Core/Deletion.antt =====
-- What `FileCoreService.delete` leaves of the file table,
-- app/app/files/services/file/filecore.py.
use shelf_back.Base.{
  ℕ, ◌≡◌, refl, ap, ◌∙◌, Bool, false, not, ◌&&◌, inl, inr, Option, none, some, List, [], ◌∷◌, ◌++◌,
  ◌==◌, if◌then◌else◌, keep_if, update_where, any, Bool-cases, arith,
}
use shelf_back.Base.Int.{ℤ, neg}
use shelf_back.Base.Text.{Text, codes}
use shelf_back.Base.Exec.{Exec, ok}
use shelf_back.FilePath.{parents}
use shelf_back.Files.Model.{Env, Namespace, FileRow, Db, File, is_folder}
use shelf_back.Files.Repository
use shelf_back.Files.Repository.{
  namespace_at, at_path, from_db, texts, without_row, file_fields, grow, iexact, istartswith,
}
use shelf_back.Files.Effects.{
  Spares, Spares-pure, row_in, row_at, row_under, resized, incr_size_batch_lem,
  delete_all_with_prefix_lem, delete_all_with_prefix-Spares, delete_batch-Spares, at_path-found,
  namespace_found, namespace_at_cong, ns_path-from_db,
}
use shelf_back.Files.Core.{delete, delete_contents, delete_blob_of, storage_key}
use shelf_back.Blobs.Service

-- A method succeeds, with given rows afterwards, and changes no namespace.
record Leaves {A : Type 0} (m : Exec Db A) (db : Db) (a : A) (rows : List FileRow) : Type 0 where
  after : Db
  result : m db ≡ (ok a, after)
  files : after.files ≡ rows
  namespaces : after.namespaces ≡ db.namespaces

delete_blob_of-Spares : (V : Env) (file : File) (db : Db) → Spares (delete_blob_of V file) db
unfolding delete_blob_of
delete_blob_of-Spares V file db = go file.blob_id
  where
    go :
        (b : Option ℕ)
        → Spares
            (elim b [ none ↦ (λ s. (ok tt, s)) | some id ↦ Service.delete_batch V (id ∷ []) ])
            db
    go none = Spares-pure db
    go (some id) = delete_batch-Spares V (id ∷ []) db

module _ (V : Env) (ns_path : Text) (n : Namespace) (path : Text) where
  -- The rows that stay when the contents of a folder are deleted.
  abbrev pub without_contents : File → List FileRow → List FileRow
  without_contents file rows =
      if not (is_folder file)
      then rows
      else keep_if (λ r. not (row_under V n (path ++ codes "/") r)) rows

  delete_contents_lem :
      (file : File) (db : Db)
      → namespace_at db ns_path ≡ some n
      → file.ns_path ≡ ns_path
      → Leaves (delete_contents V ns_path path file) db tt (without_contents file db.files)
  unfolding delete_contents
  delete_contents_lem file db found same = elim (Bool-cases (is_folder file)) [
    | inl f ↦
        let db₁ : Db = record db {
          files = keep_if (λ r. not (row_under V n (path ++ codes "/") r)) db.files;
        } in
        let spared =
          delete_all_with_prefix-Spares V (storage_key V n.owner_id file.path.text ++ codes "/")
            db₁ in
        record {
          after = spared.after;
          result = rw (
            f,
            same,
            namespace_found db ns_path n found,
            delete_all_with_prefix_lem V db ns_path n (path ++ codes "/") found,
            spared.result,
          );
          files = rw f spared.files;
          namespaces = spared.namespaces;
        }
    | inr f ↦ record { after = db; result = rw f; files = rw f; namespaces = refl }
  ]

  delete_row_lem :
      (row : FileRow) (file : File) (db : Db)
      → keep_if (at_path V db ns_path path) db.files ≡ row ∷ []
      → from_db db ns_path row ≡ ok file
      → Repository.delete V ns_path path db ≡ (ok file, without_row row.id db)
  unfolding Repository.delete Repository.get_row
  delete_row_lem row file db one whole = rw (one, whole)

  -- The file table after a deletion.
  abbrev pub after_delete : FileRow → File → List FileRow → List FileRow
  after_delete row file rows =
      resized n (texts (parents file.path)) (neg file.size)
        (without_contents file (keep_if (λ r. not (r.id == row.id)) rows))

  -- Where exactly one row of an existing namespace has the path, without regard to case, and its
  -- blob is there, `delete` succeeds and returns the file. Afterwards the file table is that of
  -- before without the row and, if it was a folder, without the rows below it; the size of each
  -- remaining row of the namespace whose path is among the parents of the file is less by the
  -- file's size, and every other row is as before.
  pub delete_effect :
      (row : FileRow) (file : File) (db : Db)
      → namespace_at db ns_path ≡ some n
      → keep_if (at_path V db ns_path path) db.files ≡ row ∷ []
      → from_db db ns_path row ≡ ok file
      → ((delete V ns_path path db).0 ≡ ok file)
        × ((delete V ns_path path db).1.files ≡ after_delete row file db.files)
  unfolding delete without_row namespace_at
  delete_effect row file db found one whole =
      let same = ns_path-from_db db ns_path row file whole in
      let c = delete_contents_lem file (without_row row.id db) found same in
      let b = delete_blob_of-Spares V file c.after in
      let e = namespace_at_cong b.after db ns_path (b.namespaces ∙ c.namespaces) ∙ found in
      rw
        (
          delete_row_lem row file db one whole,
          c.result,
          b.result,
          incr_size_batch_lem V b.after ns_path n (texts (parents file.path)) (neg file.size) e,
        )
        (refl, ap (resized n (texts (parents file.path)) (neg file.size)) (b.files ∙ c.files))

any-keep_if_none :
    (p q : FileRow → Bool) (rows : List FileRow)
    → keep_if p rows ≡ []
    → any p (keep_if q rows) ≡ false
unfolding keep_if any
any-keep_if_none p q [] h = refl
any-keep_if_none p q (r ∷ rows) h = ground (arith, any-keep_if_none p q rows)

any-keep_if_id :
    (p : FileRow → Bool) (rows : List FileRow) (row : FileRow)
    → keep_if p rows ≡ row ∷ []
    → any p (keep_if (λ r. not (r.id == row.id)) rows) ≡ false
unfolding keep_if any
any-keep_if_id p [] row h = refl
any-keep_if_id p (r ∷ rows) row h =
    ground (arith, any-keep_if_id p rows row, any-keep_if_none p (λ x. not (x.id == row.id)) rows)

any-dropped :
    (p : FileRow → Bool) (rows : List FileRow) → any p (keep_if (λ r. not (p r)) rows) ≡ false
unfolding keep_if any
any-dropped p [] = refl
any-dropped p (r ∷ rows) = ground (arith, any-dropped p rows)

any-keep_if_le :
    (p q : FileRow → Bool) (rows : List FileRow)
    → any p rows ≡ false
    → any p (keep_if q rows) ≡ false
unfolding keep_if any
any-keep_if_le p q [] h = refl
any-keep_if_le p q (r ∷ rows) h = ground (arith, any-keep_if_le p q rows)

-- A change of sizes is not seen by a test on the paths of a namespace.
any-resized :
    (n : Namespace) (paths : List Text) (value : ℤ) (test : Text → Bool) (rows : List FileRow)
    → any (λ r. row_in n r && test r.path) (resized n paths value rows)
      ≡ any (λ r. row_in n r && test r.path) rows
unfolding any update_where grow
any-resized n paths value test [] = refl
any-resized n paths value test (r ∷ rows) = rw (any-resized n paths value test rows) (ground arith)

-- After a successful `delete` no row of the namespace has the path, without regard to case, and
-- if the file was a folder none has a path below it.
pub delete_gone :
    (V : Env) (ns_path : Text) (n : Namespace) (path : Text) (row : FileRow) (file : File) (db : Db)
    → namespace_at db ns_path ≡ some n
    → keep_if (at_path V db ns_path path) db.files ≡ row ∷ []
    → from_db db ns_path row ≡ ok file
    → let files = (delete V ns_path path db).1.files in
      (any (row_at V n path) files ≡ false)
      × ((is_folder file && any (row_under V n (path ++ codes "/")) files) ≡ false)
delete_gone V ns_path n path row file db found one whole =
    let one' = rw (at_path-found db ns_path n found V path) at one in
    let rest = keep_if (λ r. not (r.id == row.id)) db.files in
    let gone = any-keep_if_id (row_at V n path) db.files row one' in
    let sizes = texts (parents file.path) in
    let less = neg file.size in
    rw
      (
        (delete_effect V ns_path n path row file db found one whole).1,
        any-resized n sizes less (λ p. iexact V p path),
        any-resized n sizes less (λ p. istartswith V p (path ++ codes "/")),
      )
      (elim (Bool-cases (is_folder file)) [
        | inl f ↦ rw f (any-keep_if_le (row_at V n path) _ rest gone, any-dropped _ rest)
        | inr f ↦ rw f (gone, refl)
      ])
