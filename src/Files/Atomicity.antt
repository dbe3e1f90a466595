-- ===== src/Files/Atomicity.antt =====
-- The transactions of `FileCoreService`, app/app/files/services/file/filecore.py.
use shelf_back.Base.{◌≡◌, refl, inl, inr, Option-cases, List}
use shelf_back.Base.Text.{Text}
use shelf_back.Base.Exec.{atomic}
use shelf_back.Base.Rollback.{
  ReadOnly, Restores, ReadOnly-or_raise, atomic_of_Restores, read_rules, rollback_rules,
}
use shelf_back.FilePath.{FilePath, parent}
use shelf_back.Files.Model.{Env, Db, File}
use shelf_back.Files.Repository
use shelf_back.Files.Namespaces
use shelf_back.Files.Core.{delete, file_at, empty_folder}
use shelf_back.Files.Move.{move, move_to, move_found}

module _ (V : Env) where
  get_row-ReadOnly : (ns_path path : Text) → ReadOnly (Repository.get_row V ns_path path)
  unfolding Repository.get_row
  get_row-ReadOnly ns_path path = record { at = λ db. refl }

  pub get_by_path-ReadOnly :
      (ns_path path : Text) → ReadOnly (Repository.get_by_path V ns_path path)
  unfolding Repository.get_by_path
  get_by_path-ReadOnly ns_path path = search (read_rules, get_row-ReadOnly)

  pub get_by_path_batch-ReadOnly :
      (ns_path : Text) (paths : List Text) → ReadOnly (Repository.get_by_path_batch V ns_path paths)
  unfolding Repository.get_by_path_batch
  get_by_path_batch-ReadOnly ns_path paths = search read_rules

  pub namespace-ReadOnly : (ns_path : Text) → ReadOnly (Namespaces.get_by_path ns_path)
  unfolding Namespaces.get_by_path
  namespace-ReadOnly ns_path = record {
    at = λ db. (ReadOnly-or_raise (Repository.namespace_at db ns_path) _).at db;
  }

  ruleset core_rules =
      (rollback_rules, get_by_path-ReadOnly, get_by_path_batch-ReadOnly, namespace-ReadOnly)

  move_to-Restores :
      (file : File) (ns_path : Text) (to_path : FilePath)
      → Restores (move_to V file ns_path to_path)
  unfolding move_to
  move_to-Restores file ns_path to_path = search core_rules

  pub empty_folder-Restores : (ns_path path : Text) → Restores (empty_folder V ns_path path)
  unfolding empty_folder
  empty_folder-Restores ns_path path = search core_rules

  move_found-Restores :
      (file : File) (at_path : FilePath) (ns_path : Text) (to_path : FilePath) (files : List File)
      → Restores (move_found V file at_path ns_path to_path files)
  unfolding move_found
  move_found-Restores file at_path ns_path to_path files =
      elim (Option-cases (file_at V files (parent to_path))) [
        | inl e ↦ rw (e, move_found) (search core_rules)
        | inr (next_parent, e) ↦ rw (e, move_found) (search (core_rules, move_to-Restores))
      ]

  pub move-Restores :
      (at_ns_path at to_ns_path to : Text) → Restores (move V at_ns_path at to_ns_path to)
  unfolding move
  move-Restores at_ns_path at to_ns_path to = search (core_rules, move_found-Restores)

  pub delete-Restores : (ns_path path : Text) → Restores (delete V ns_path path)
  unfolding delete
  delete-Restores ns_path path = search core_rules

  -- A transaction around `delete`, `empty_folder` or `move`, which rolls the database back when the
  -- method raises, makes no difference: when the method raises, for whatever reason and at whatever
  -- step, the database is exactly what it was before the call.
  pub failed_changes_nothing :
      (ns_path path to_ns_path to_path : Text) (db : Db)
      → (atomic (delete V ns_path path) db ≡ delete V ns_path path db)
        × (atomic (empty_folder V ns_path path) db ≡ empty_folder V ns_path path db)
        × (atomic (move V ns_path path to_ns_path to_path) db
            ≡ move V ns_path path to_ns_path to_path db)
  failed_changes_nothing ns_path path to_ns_path to_path db = (
    atomic_of_Restores _ (delete-Restores ns_path path) db,
    atomic_of_Restores _ (empty_folder-Restores ns_path path) db,
    atomic_of_Restores _ (move-Restores ns_path path to_ns_path to_path) db,
  )
