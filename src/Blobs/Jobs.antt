-- ===== src/Blobs/Jobs.antt =====
-- `BlobService.process_blob_jobs`, app/app/blobs/services/blob.py: the worker carries out jobs.
use shelf_back.Base.{ℕ, List, [], ◌∷◌, if◌then◌else◌, is_nil}
use shelf_back.Base.Text.{Text}
use shelf_back.Base.Exec.{Exec, pure, atomic, ◌>>=◌, ◌>>◌, lift}
use shelf_back.Files.Model.{
  Payload, delete_blob, delete_prefix, move_blob, move_prefix, BlobJob, Db,
}
use shelf_back.Blobs.{Storage}
use shelf_back.Blobs.Repository

-- What `_process_delete_jobs` collects: identifiers of jobs and blobs, and storage keys.
unfoldable pub delete_parts : List BlobJob → List ℕ × List ℕ × List Text
delete_parts [] = ([], [], [])
delete_parts (j ∷ jobs) =
    let (job_ids, blob_ids, storage_keys) = delete_parts jobs in
    elim j.payload [
      | delete_blob blob_id key ↦ (j.id ∷ job_ids, blob_id ∷ blob_ids, key ∷ storage_keys)
      | _ ↦ (job_ids, blob_ids, storage_keys)
    ]

module _ (S : Storage) where
  unfoldable pub process_delete_jobs : List BlobJob → Exec Db Unit
  process_delete_jobs jobs =
      let (job_ids, blob_ids, storage_keys) = delete_parts jobs in
      if is_nil job_ids then pure tt else do
        lift (S.delete_batch storage_keys)
        atomic (do Repository.delete_batch blob_ids; Repository.delete_jobs job_ids)

  -- What a job of one of the other kinds does.
  unfoldable pub process_delete_prefix_job : ℕ → Payload → Exec Db Unit
  process_delete_prefix_job id (delete_prefix prefix) = do
    lift (S.deletedir prefix)
    atomic (do Repository.delete_all_with_prefix prefix; Repository.delete_jobs (id ∷ []))
  process_delete_prefix_job id _ = pure tt

  unfoldable pub process_move_job : ℕ → Payload → Exec Db Unit
  process_move_job id (move_blob blob_id at to) = do
    lift (S.move at to)
    atomic (do Repository.update_storage_key blob_id to; Repository.delete_jobs (id ∷ []))
  process_move_job id _ = pure tt

  unfoldable pub process_move_prefix_job : ℕ → Payload → Exec Db Unit
  process_move_prefix_job id (move_prefix at to) = do
    lift (S.movedir at to)
    atomic (do Repository.replace_storage_key_prefix at to; Repository.delete_jobs (id ∷ []))
  process_move_prefix_job id _ = pure tt

  -- `for job in jobs`
  unfoldable pub each_job : (ℕ → Payload → Exec Db Unit) → List BlobJob → Exec Db Unit
  each_job process [] = pure tt
  each_job process (j ∷ jobs) = do process j.id j.payload; each_job process jobs

  unfoldable pub process_blob_jobs : List ℕ → Exec Db Unit
  process_blob_jobs ids = do
    jobs ← Repository.get_jobs ids
    if is_nil jobs then pure tt else do
      process_delete_jobs jobs
      each_job process_delete_prefix_job jobs
      each_job process_move_job jobs
      each_job process_move_prefix_job jobs
