-- ===== src/Files/NamespaceService.antt =====
-- `NamespaceService`, app/app/files/services/namespace.py. Its look-ups are those of the repository.
use shelf_back.Base.{ℕ}
use shelf_back.Base.Text.{Text, codes}
use shelf_back.Base.Exec.{Exec, pure, ◌>>=◌, ◌>>◌}
use shelf_back.Files.Model.{Env, Namespace, Db}
use shelf_back.Files.Namespaces
use shelf_back.Files.Core

unfoldable pub create : Env → ℕ → Text → ℕ → Exec Db Namespace
create V now path owner_id = do
  namespace ← Namespaces.save V (record { id = 0; path = path; owner_id = owner_id })
  Core.create_folder V now namespace.path (codes ".")
  Core.create_folder V now namespace.path (codes "Trash")
  pure namespace
