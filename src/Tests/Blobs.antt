-- ===== src/Tests/Blobs.antt =====
-- The worker on two jobs, over a storage that answers always.
use shelf_back.Base.{
  ℕ, ◌≡◌, refl, List, [], ◌∷◌, keep_if, contains, ◌&&◌, any, not, is_nil, ◌||◌, update_where,
}
use shelf_back.Base.Int.{pos}
use shelf_back.Base.Text.{codes}
use shelf_back.Base.Exec.{ok}
use shelf_back.Files.Model.{delete_prefix, delete_blob, Db}
use shelf_back.Blobs.{Storage}
use shelf_back.Blobs.Jobs.{
  process_blob_jobs, delete_parts, process_delete_jobs, each_job, process_delete_prefix_job,
  process_move_job, process_move_prefix_job,
}
use shelf_back.Blobs.Repository
use shelf_back.Blobs.Repository.{get_jobs, delete_where, is_referred, delete_jobs}
use shelf_back.Blobs.Worker.{process_blob_jobs_lem}
use shelf_back.Tests.Files.{home}

abbrev pub willing : Storage
willing = record {
  makedirs = λ key. ok tt;
  save = λ key content. ok (pos 0);
  delete_batch = λ keys. ok tt;
  deletedir = λ key. ok tt;
  move = λ at_key to_key. ok tt;
  movedir = λ at_key to_key. ok tt;
}

abbrev busy : Db
busy = record home {
  jobs =
      record { id = 1; payload = delete_prefix (codes "7/files/Old/") }
      ∷ record { id = 2; payload = delete_blob 60 (codes "7/files/c.txt") }
      ∷ record { id = 3; payload = delete_prefix (codes "8/") }
      ∷ [];
}

succeeds : (process_blob_jobs willing (1 ∷ 2 ∷ []) busy).0 ≡ ok tt
unfolding process_blob_jobs get_jobs keep_if contains delete_parts process_delete_jobs each_job
    process_delete_prefix_job process_move_job process_move_prefix_job delete_where is_referred any
    delete_jobs Repository.delete_batch Repository.delete_all_with_prefix
    shelf_back.Base.Text.has_prefix
succeeds = refl

process_blob_jobs_lem_example :
    let after = (process_blob_jobs willing (1 ∷ 2 ∷ []) busy).1 in
    (keep_if (λ j. contains (1 ∷ 2 ∷ []) j.id) after.jobs ≡ [])
    × (process_blob_jobs willing (1 ∷ 2 ∷ []) after ≡ (ok tt, after))
process_blob_jobs_lem_example = process_blob_jobs_lem willing (1 ∷ 2 ∷ []) busy succeeds
