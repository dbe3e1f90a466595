-- ===== src/Files/Namespaces.antt =====
-- `NamespaceRepository`, app/infrastructure/database/tortoise/repositories/namespace.py.
use shelf_back.Base.{ℕ, ◌+◌, Bool, ◌&&◌, List, [], ◌∷◌, ◌++◌, ◌==◌, if◌then◌else◌, keep_if, any}
use shelf_back.Base.Int.{ℤ, pos, ◌+ℤ◌}
use shelf_back.Base.Text.{Text, codes, text_eq}
use shelf_back.Base.Exec.{
  Exec, ok, err, namespace_not_found, integrity_error, gets, lift, or_raise, one_of, not_found_as,
}
use shelf_back.Files.Model.{Env, Namespace, FileRow, Db}
use shelf_back.Files.Repository.{namespace_at}

unfoldable pub get_by_owner_id : ℕ → Exec Db Namespace
get_by_owner_id owner_id db =
    lift
      (not_found_as namespace_not_found
        (one_of (keep_if (λ n. n.owner_id == owner_id) db.namespaces)))
      db

unfoldable pub get_by_path : Text → Exec Db Namespace
get_by_path path db = or_raise (namespace_at db path) namespace_not_found db

-- `namespace__owner_id=owner_id, path="."`
unfoldable pub is_home_of : Db → ℕ → FileRow → Bool
is_home_of db owner_id row =
    any (λ n. n.id == row.namespace_id && (n.owner_id == owner_id)) db.namespaces
    && text_eq row.path (codes ".")

unfoldable pub sum_sizes : List FileRow → ℤ
sum_sizes [] = pos 0
sum_sizes (r ∷ rows) = r.size +ℤ sum_sizes rows

unfoldable pub get_space_used_by_owner_id : ℕ → Exec Db ℤ
get_space_used_by_owner_id owner_id =
    gets (λ db. sum_sizes (keep_if (is_home_of db owner_id) db.files))

-- A namespace's path is unique.
unfoldable pub save : Env → Namespace → Exec Db Namespace
save V namespace db =
    if any (λ n. text_eq n.path namespace.path) db.namespaces
    then (err integrity_error, db)
    else let saved = record namespace { id = V.uuid db.drawn } in
      (ok saved, record db { namespaces = db.namespaces ++ (saved ∷ []); drawn = db.drawn + 1 })
