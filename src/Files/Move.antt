-- ===== src/Files/Move.antt =====
-- `FileCoreService.move`, app/app/files/services/file/filecore.py. A `str` or a `Path` that a method is
-- given comes as its text.
use shelf_back.Base.{Bool, not, ◌&&◌, none, some, List, [], ◌∷◌, ◌++◌, if◌then◌else◌, keep_if, any}
use shelf_back.Base.Int.{neg}
use shelf_back.Base.Text.{Text, codes, text_eq}
use shelf_back.Base.Exec.{
  Exec, file_already_exists, not_a_directory, malformed_path, missing_parent, pure, raise, atomic,
  ◌>>=◌, ◌>>◌,
}
use shelf_back.FilePath.{FilePath, path_of, truediv, name, parent, parents, path_eq, is_relative_to}
use shelf_back.Files.Model.{Env, Namespace, Db, File, is_folder}
use shelf_back.Files.Repository
use shelf_back.Files.Repository.{texts}
use shelf_back.Files.Writes
use shelf_back.Files.Namespaces
use shelf_back.Blobs.Service
use shelf_back.Files.Core.{storage_key, path_in, file_at}

module _ (V : Env) where
  -- `set(ps) - set(qs)`
  unfoldable pub path_diff : List FilePath → List FilePath → List FilePath
  path_diff ps qs = keep_if (λ p. not (path_in V p qs)) ps

  unfoldable pub move_blob_of : File → Text → Exec Db Unit
  move_blob_of file to_key = elim file.blob_id [
    | none ↦ pure tt
    | some blob_id ↦ Service.move V blob_id to_key
  ]

  unfoldable pub move_contents : File → Text → Namespace → Namespace → FilePath → Exec Db Unit
  move_contents file to_ns_path at_namespace to_namespace to_path =
      if not (is_folder file) then pure tt else do
        Service.move_with_prefix V (storage_key V at_namespace.owner_id file.path.text ++ codes "/")
            (storage_key V to_namespace.owner_id to_path.text ++ codes "/")
        Writes.replace_path_prefix V file.ns_path file.path.text to_ns_path to_path.text

  -- `_move`
  unfoldable pub move_to : File → Text → FilePath → Exec Db File
  move_to file to_ns_path to_path = do
    let same_ns = text_eq file.ns_path to_ns_path
    let at_parents = parents file.path
    let to_parents = parents to_path
    let to_decrease = if same_ns then path_diff at_parents to_parents else at_parents
    let to_increase = if same_ns then path_diff to_parents at_parents else to_parents
    to_namespace ← Namespaces.get_by_path to_ns_path
    at_namespace ←
        (if is_folder file && not same_ns
          then Namespaces.get_by_path file.ns_path
          else pure to_namespace)
    atomic (do
      updated_file ← Writes.update V file (record {
        ns_path = some to_ns_path;
        name = some (name to_path);
        path = some to_path.text;
      })
      move_blob_of file (storage_key V to_namespace.owner_id to_path.text)
      move_contents file to_ns_path at_namespace to_namespace to_path
      Repository.incr_size_batch V file.ns_path (texts to_decrease) (neg file.size)
      Repository.incr_size_batch V to_ns_path (texts to_increase) file.size
      pure updated_file)

  -- The guard of `move` against moving a folder into itself
  unfoldable pub moves_into_itself : Text → FilePath → Text → FilePath → Bool
  moves_into_itself at_ns_path at_path to_ns_path to_path =
      let case_changed =
        path_eq V.casing at_path to_path && not (text_eq at_path.text to_path.text) in
      text_eq at_ns_path to_ns_path
      && (not case_changed && is_relative_to V.casing to_path at_path.text)

  -- What `move` does once it has looked up the file and the files at the target and its parent.
  unfoldable pub move_found : File → FilePath → Text → FilePath → List File → Exec Db File
  move_found file at_path to_ns_path to_path files = elim (file_at V files (parent to_path)) [
    | none ↦ raise missing_parent
    | some next_parent ↦
        if not (is_folder next_parent)
        then raise not_a_directory
        else if not (path_eq V.casing at_path to_path)
            && any (λ f. path_eq V.casing f.path to_path) files
        then raise file_already_exists
        else move_to file to_ns_path (truediv next_parent.path (name to_path))
  ]

  unfoldable pub move : Text → Text → Text → Text → Exec Db File
  move at_ns_path at to_ns_path to =
      let at_path = path_of at in
      let to_path = path_of to in
      if moves_into_itself at_ns_path at_path to_ns_path to_path then raise malformed_path else do
        file ← Repository.get_by_path V at_ns_path at_path.text
        files ← Repository.get_by_path_batch V to_ns_path (texts (to_path ∷ parent to_path ∷ []))
        move_found file at_path to_ns_path to_path files
