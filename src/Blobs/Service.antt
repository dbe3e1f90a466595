-- ===== src/Blobs/Service.antt =====
-- `BlobService`, app/app/blobs/services/blob.py: the methods that create blobs and record jobs.
use shelf_back.Base.{ℕ, List, [], ◌∷◌, map, if◌then◌else◌, is_nil}
use shelf_back.Base.Text.{Text, text_eq}
use shelf_back.Base.Exec.{Exec, blob_already_exists, pure, raise, ◌>>=◌, ◌>>◌, lift}
use shelf_back.OsPath.{dirname}
use shelf_back.Files.Model.{
  Env, Blob, Payload, delete_blob, delete_prefix, move_blob, move_prefix, Db,
}
use shelf_back.Blobs.{Content, Storage}
use shelf_back.Blobs.Repository

module _ (V : Env) where
  -- The jobs are saved. `worker.enqueue`, which then tells the worker their identifiers, is a message to
  -- Redis: it is no part of the database, and no transaction undoes it.
  unfoldable pub record_jobs : List Payload → Exec Db Unit
  record_jobs payloads = Repository.save_jobs V payloads >>= λ ids. pure tt

  unfoldable pub delete_all_with_prefix : Text → Exec Db Unit
  delete_all_with_prefix prefix = record_jobs (delete_prefix prefix ∷ [])

  abbrev delete_payload : Blob → Payload
  delete_payload b = delete_blob b.id b.storage_key

  unfoldable pub delete_batch : List ℕ → Exec Db Unit
  delete_batch [] = pure tt
  delete_batch (id ∷ ids) = do
    blobs ← Repository.get_by_id_batch (id ∷ ids)
    if is_nil blobs then pure tt else record_jobs (map delete_payload blobs)

  unfoldable pub move : ℕ → Text → Exec Db Unit
  move blob_id storage_key = do
    blob ← Repository.get_by_id blob_id
    if text_eq blob.storage_key storage_key then pure tt else do
      taken ← Repository.exists_with_storage_key storage_key
      if taken
          then raise blob_already_exists
          else record_jobs (move_blob blob_id blob.storage_key storage_key ∷ [])

  unfoldable pub move_with_prefix : Text → Text → Exec Db Unit
  move_with_prefix prefix to_prefix = record_jobs (move_prefix prefix to_prefix ∷ [])

  -- `now` is the clock.
  unfoldable pub create : Storage → ℕ → Text → Content → Exec Db Blob
  create storage now storage_key content = do
    lift (storage.makedirs (dirname storage_key))
    size ← lift (storage.save storage_key content)
    Repository.save V (record {
      id = 0;
      storage_key = storage_key;
      size = size;
      chash = content.chash;
      media_type = content.media_type storage_key;
      created_at = now;
    })
