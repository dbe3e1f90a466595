-- ===== src/Blobs/Worker.antt =====
-- The worker, `BlobService.process_blob_jobs`, app/app/blobs/services/blob.py, and the table of jobs.
use shelf_back.Base.{
  ℕ, ◌≡◌, refl, sym, ap, ◌∙◌, true, false, inl, inr, List, [], ◌∷◌, ◌==◌, if◌then◌else◌, keep_if,
  any, contains, is_nil, Bool-cases, arith, ==_refl, ==_iff,
}
use shelf_back.Base.Exec.{Exec, ok, pure, ◌>>◌}
use shelf_back.Files.Model.{BlobJob, Db}
use shelf_back.Blobs.{Storage}
use shelf_back.Blobs.Repository
use shelf_back.Blobs.Jobs.{
  process_delete_jobs, process_delete_prefix_job, process_move_job, process_move_prefix_job,
  each_job, process_blob_jobs,
}
use shelf_back.Blobs.Progress.{
  has_job, Shrinks, Clears, Shrinks-bind, Clears-later, Clears-first, Clears-or, Clears-never,
  Clears-when, Shrinks-pure,
}
use shelf_back.Blobs.Passes.{
  each_job-Shrinks, each_job-Clears, process_delete_prefix_job-Shrinks, process_move_job-Shrinks,
  process_move_prefix_job-Shrinks, process_delete_jobs-Shrinks, process_delete_prefix_job-Clears,
  process_move_job-Clears, process_move_prefix_job-Clears, process_delete_jobs-Clears,
  has_job-has_kind, is_delete_prefix, is_move, is_move_prefix,
}

module _ (S : Storage) where
  -- The four passes
  abbrev passes : List BlobJob → Exec Db Unit
  passes jobs = do
    process_delete_jobs S jobs
    each_job S (process_delete_prefix_job S) jobs
    each_job S (process_move_job S) jobs
    each_job S (process_move_prefix_job S) jobs

  prefixes-Shrinks : (jobs : List BlobJob) → Shrinks (each_job S (process_delete_prefix_job S) jobs)
  prefixes-Shrinks = each_job-Shrinks S _ (process_delete_prefix_job-Shrinks S)

  moves-Shrinks : (jobs : List BlobJob) → Shrinks (each_job S (process_move_job S) jobs)
  moves-Shrinks = each_job-Shrinks S _ (process_move_job-Shrinks S)

  move_prefixes-Shrinks :
      (jobs : List BlobJob) → Shrinks (each_job S (process_move_prefix_job S) jobs)
  move_prefixes-Shrinks = each_job-Shrinks S _ (process_move_prefix_job-Shrinks S)

  passes-Shrinks : (jobs : List BlobJob) → Shrinks (passes jobs)
  passes-Shrinks jobs = search (
    Shrinks-bind, process_delete_jobs-Shrinks, prefixes-Shrinks, moves-Shrinks,
    move_prefixes-Shrinks,
  )

  later-Shrinks :
      (jobs : List BlobJob)
      → Shrinks
          (each_job S (process_move_job S) jobs >> each_job S (process_move_prefix_job S) jobs)
  later-Shrinks jobs = search (Shrinks-bind, moves-Shrinks, move_prefixes-Shrinks)

  passes-Clears : (k : ℕ) (jobs : List BlobJob) → Clears k (has_job k jobs) (passes jobs)
  passes-Clears k jobs =
      let deletes = process_delete_jobs S jobs in
      let prefixes = each_job S (process_delete_prefix_job S) jobs in
      let moves = each_job S (process_move_job S) jobs in
      let move_prefixes = each_job S (process_move_prefix_job S) jobs in
      let prefixes_clear =
        each_job-Clears S _ is_delete_prefix k (process_delete_prefix_job-Shrinks S)
          (process_delete_prefix_job-Clears S k) jobs in
      let moves_clear =
        each_job-Clears S _ is_move k (process_move_job-Shrinks S) (process_move_job-Clears S k)
          jobs in
      let last_clear =
        each_job-Clears S _ is_move_prefix k (process_move_prefix_job-Shrinks S)
          (process_move_prefix_job-Clears S k) jobs in
      Clears-when k _ _ (passes jobs) (has_job-has_kind k jobs) (
        Clears-or k _ _ _
          (Clears-first k _ deletes _ (process_delete_jobs-Clears S k jobs)
            (λ _. Shrinks-bind prefixes _ (prefixes-Shrinks jobs) (λ _. later-Shrinks jobs)))
          (Clears-later k _ deletes _ (λ _.
            Clears-or k _ _ _ (Clears-first k _ prefixes _ prefixes_clear (λ _. later-Shrinks jobs))
              (Clears-later k _ prefixes _ (λ _.
                Clears-or k _ _ _
                  (Clears-first k _ moves _ moves_clear (λ _. move_prefixes-Shrinks jobs))
                  (Clears-later k _ moves _ (λ _. last_clear)))))))

has_job-named :
    (ids : List ℕ) (k : ℕ) (jobs : List BlobJob)
    → contains ids k ≡ true
    → has_job k (keep_if (λ j. contains ids j.id) jobs) ≡ has_job k jobs
unfolding any keep_if
has_job-named ids k [] h = refl
has_job-named ids k (j ∷ jobs) h = elim (Bool-cases (j.id == k)) [
  | inl e ↦ let same = ap (contains ids) ((==_iff j.id k).0 e) ∙ h in rw (same, e)
  | inr e ↦ elim (Bool-cases (contains ids j.id)) [
    | inl f ↦ rw (f, e) (has_job-named ids k jobs h)
    | inr f ↦ rw (f, e) (has_job-named ids k jobs h)
  ]
]

none_named :
    (ids : List ℕ) (jobs : List BlobJob)
    → ((k : ℕ) → contains ids k ≡ true → has_job k jobs ≡ false)
    → keep_if (λ j. contains ids j.id) jobs ≡ []
unfolding any keep_if
none_named ids [] h = refl
none_named ids (j ∷ jobs) h = elim (Bool-cases (contains ids j.id)) [
  | inl e ↦ ground (arith, h j.id e, ==_refl j.id)
  | inr e ↦ rw e (none_named ids jobs (λ k f. ground (arith, h k f)))
]

module _ (S : Storage) where
  -- What `process_blob_jobs` does with the jobs that it found.
  abbrev found : List BlobJob → Exec Db Unit
  found jobs = if is_nil jobs then pure tt else passes S jobs

  found-Shrinks : (jobs : List BlobJob) → Shrinks (found jobs)
  found-Shrinks [] = Shrinks-pure tt
  found-Shrinks (j ∷ jobs) = passes-Shrinks S (j ∷ jobs)

  found-Clears : (k : ℕ) (jobs : List BlobJob) → Clears k (has_job k jobs) (found jobs)
  unfolding any
  found-Clears k [] = Clears-never k (pure tt)
  found-Clears k (j ∷ jobs) = passes-Clears S k (j ∷ jobs)

  -- When `process_blob_jobs` succeeds, none of the jobs that it was told of is left in the table,
  -- whatever their kinds and however many of them are of one kind; told of them once more, it succeeds
  -- and changes nothing.
  pub process_blob_jobs_lem :
      (ids : List ℕ) (db : Db)
      → (process_blob_jobs S ids db).0 ≡ ok tt
      → let after = (process_blob_jobs S ids db).1 in
        (keep_if (λ j. contains ids j.id) after.jobs ≡ [])
        × (process_blob_jobs S ids after ≡ (ok tt, after))
  unfolding process_blob_jobs Repository.get_jobs
  process_blob_jobs_lem ids db h =
      let jobs = keep_if (λ j. contains ids j.id) db.jobs in
      let after = (found jobs db).1 in
      let gone : (k : ℕ) → contains ids k ≡ true → has_job k after.jobs ≡ false = λ k e.
        elim (Bool-cases (has_job k jobs)) [
          | inl f ↦ (found-Clears k jobs).at db tt f h
          | inr f ↦ (found-Shrinks jobs).at db k (sym (has_job-named ids k db.jobs e) ∙ f)
        ] in
      let none_left = none_named ids after.jobs gone in (none_left, rw none_left)
