-- ===== src/Blobs/Passes.antt =====
-- The passes of `BlobService.process_blob_jobs` one by one, app/app/blobs/services/blob.py.
use shelf_back.Base.{
  ℕ, ◌≡◌, refl, Bool, true, false, ◌&&◌, ◌||◌, List, [], ◌∷◌, ◌==◌, if◌then◌else◌, any, contains,
  is_nil, arith,
}
use shelf_back.Base.Exec.{Exec, pure, lift, atomic, ◌>>◌}
use shelf_back.Files.Model.{
  Payload, delete_blob, delete_prefix, move_blob, move_prefix, BlobJob, Db,
}
use shelf_back.Blobs.{Storage}
use shelf_back.Blobs.Repository
use shelf_back.Blobs.Jobs.{
  delete_parts, process_delete_jobs, process_delete_prefix_job, process_move_job,
  process_move_prefix_job, each_job,
}
use shelf_back.Blobs.Progress.{
  has_job, Shrinks, Clears, Shrinks-bind, Clears-later, Clears-first, Clears-or, Clears-never,
  Clears-when, Shrinks-pure, Clears-atomic, delete_jobs-Clears, shrink_rules,
}

-- The kinds of jobs.
abbrev pub is_delete : Payload → Bool
is_delete p = elim p [ delete_blob _ _ ↦ true | _ ↦ false ]

abbrev pub is_delete_prefix : Payload → Bool
is_delete_prefix p = elim p [ delete_prefix _ ↦ true | _ ↦ false ]

abbrev pub is_move : Payload → Bool
is_move p = elim p [ move_blob _ _ _ ↦ true | _ ↦ false ]

abbrev pub is_move_prefix : Payload → Bool
is_move_prefix p = elim p [ move_prefix _ _ ↦ true | _ ↦ false ]

-- A job of the kind with the identifier is in the list.
abbrev pub has_kind : (Payload → Bool) → ℕ → List BlobJob → Bool
has_kind kind k jobs = any (λ j. j.id == k && kind j.payload) jobs

module _ (S : Storage) where
  pub process_delete_prefix_job-Shrinks :
      (id : ℕ) (p : Payload) → Shrinks (process_delete_prefix_job S id p)
  unfolding process_delete_prefix_job
  process_delete_prefix_job-Shrinks id (delete_prefix prefix) = search shrink_rules
  process_delete_prefix_job-Shrinks id (delete_blob _ _) = search shrink_rules
  process_delete_prefix_job-Shrinks id (move_blob _ _ _) = search shrink_rules
  process_delete_prefix_job-Shrinks id (move_prefix _ _) = search shrink_rules

  pub process_move_job-Shrinks : (id : ℕ) (p : Payload) → Shrinks (process_move_job S id p)
  unfolding process_move_job
  process_move_job-Shrinks id (delete_prefix prefix) = search shrink_rules
  process_move_job-Shrinks id (delete_blob _ _) = search shrink_rules
  process_move_job-Shrinks id (move_blob _ _ _) = search shrink_rules
  process_move_job-Shrinks id (move_prefix _ _) = search shrink_rules

  pub process_move_prefix_job-Shrinks :
      (id : ℕ) (p : Payload) → Shrinks (process_move_prefix_job S id p)
  unfolding process_move_prefix_job
  process_move_prefix_job-Shrinks id (delete_prefix prefix) = search shrink_rules
  process_move_prefix_job-Shrinks id (delete_blob _ _) = search shrink_rules
  process_move_prefix_job-Shrinks id (move_blob _ _ _) = search shrink_rules
  process_move_prefix_job-Shrinks id (move_prefix _ _) = search shrink_rules

  pub process_delete_jobs-Shrinks : (jobs : List BlobJob) → Shrinks (process_delete_jobs S jobs)
  unfolding process_delete_jobs
  process_delete_jobs-Shrinks jobs = search shrink_rules

  pub each_job-Shrinks :
      (process : ℕ → Payload → Exec Db Unit)
      → ((id : ℕ) (p : Payload) → Shrinks (process id p))
      → (jobs : List BlobJob) → Shrinks (each_job S process jobs)
  unfolding each_job
  each_job-Shrinks process h [] = Shrinks-pure tt
  each_job-Shrinks process h (j ∷ jobs) =
      Shrinks-bind _ _ (h j.id j.payload) (λ _. each_job-Shrinks process h jobs)

  pub each_job-Clears :
      (process : ℕ → Payload → Exec Db Unit) (kind : Payload → Bool) (k : ℕ)
      → ((id : ℕ) (p : Payload) → Shrinks (process id p))
      → ((id : ℕ) (p : Payload) → Clears k (id == k && kind p) (process id p))
      → (jobs : List BlobJob) → Clears k (has_kind kind k jobs) (each_job S process jobs)
  unfolding each_job any
  each_job-Clears process kind k h g [] = Clears-never k (pure tt)
  each_job-Clears process kind k h g (j ∷ jobs) =
      Clears-or k _ _ _
        (Clears-first k _ _ _ (g j.id j.payload) (λ _. each_job-Shrinks process h jobs))
        (Clears-later k _ _ _ (λ _. each_job-Clears process kind k h g jobs))

  -- A job that is deleted in the transaction of its own change
  one_job :
      (k id : ℕ) (b : Bool) (m n : Exec Db Unit)
      → (b ≡ true → (id == k) ≡ true)
      → Clears k b (m >> atomic (n >> Repository.delete_jobs (id ∷ [])))
  unfolding contains
  one_job k id b m n h = Clears-later k b m _ (λ _. Clears-atomic k b _ (
      Clears-later k b n _ (λ _.
        Clears-when k b (contains (id ∷ []) k) _ (λ t. rw (h t)) (delete_jobs-Clears (id ∷ []) k))))

  pub process_delete_prefix_job-Clears :
      (k id : ℕ) (p : Payload)
      → Clears k (id == k && is_delete_prefix p) (process_delete_prefix_job S id p)
  unfolding process_delete_prefix_job
  process_delete_prefix_job-Clears k id (delete_prefix prefix) =
      one_job k id _ (lift (S.deletedir prefix)) (Repository.delete_all_with_prefix prefix)
        (λ t. ground arith)
  process_delete_prefix_job-Clears k id (delete_blob _ _) =
      Clears-when k _ false _ (λ t. ground arith) (Clears-never k _)
  process_delete_prefix_job-Clears k id (move_blob _ _ _) =
      Clears-when k _ false _ (λ t. ground arith) (Clears-never k _)
  process_delete_prefix_job-Clears k id (move_prefix _ _) =
      Clears-when k _ false _ (λ t. ground arith) (Clears-never k _)

  pub process_move_job-Clears :
      (k id : ℕ) (p : Payload) → Clears k (id == k && is_move p) (process_move_job S id p)
  unfolding process_move_job
  process_move_job-Clears k id (move_blob blob_id at_key to_key) =
      one_job k id _ (lift (S.move at_key to_key)) (Repository.update_storage_key blob_id to_key)
        (λ t. ground arith)
  process_move_job-Clears k id (delete_blob _ _) =
      Clears-when k _ false _ (λ t. ground arith) (Clears-never k _)
  process_move_job-Clears k id (delete_prefix _) =
      Clears-when k _ false _ (λ t. ground arith) (Clears-never k _)
  process_move_job-Clears k id (move_prefix _ _) =
      Clears-when k _ false _ (λ t. ground arith) (Clears-never k _)

  pub process_move_prefix_job-Clears :
      (k id : ℕ) (p : Payload)
      → Clears k (id == k && is_move_prefix p) (process_move_prefix_job S id p)
  unfolding process_move_prefix_job
  process_move_prefix_job-Clears k id (move_prefix at_key to_key) =
      one_job k id _ (lift (S.movedir at_key to_key))
        (Repository.replace_storage_key_prefix at_key to_key) (λ t. ground arith)
  process_move_prefix_job-Clears k id (delete_blob _ _) =
      Clears-when k _ false _ (λ t. ground arith) (Clears-never k _)
  process_move_prefix_job-Clears k id (delete_prefix _) =
      Clears-when k _ false _ (λ t. ground arith) (Clears-never k _)
  process_move_prefix_job-Clears k id (move_blob _ _ _) =
      Clears-when k _ false _ (λ t. ground arith) (Clears-never k _)

  pub process_delete_jobs-Clears :
      (k : ℕ) (jobs : List BlobJob)
      → Clears k (contains (delete_parts jobs).0 k) (process_delete_jobs S jobs)
  unfolding process_delete_jobs contains
  process_delete_jobs-Clears k jobs = go (delete_parts jobs).0
    where
      go :
          (ids : List ℕ)
          → Clears k (contains ids k) (
              if is_nil ids then pure tt else (do
                lift (S.delete_batch (delete_parts jobs).2)
                atomic
                    (do Repository.delete_batch (delete_parts jobs).1; Repository.delete_jobs ids)))
      go [] = Clears-never k (pure tt)
      go (id ∷ ids) = Clears-later k _ (lift (S.delete_batch (delete_parts jobs).2)) _ (λ _.
          Clears-atomic k _ _ (
            Clears-later k _ (Repository.delete_batch (delete_parts jobs).1) _
              (λ _. delete_jobs-Clears (id ∷ ids) k)))

delete_parts-has_kind :
    (k : ℕ) (jobs : List BlobJob) → contains (delete_parts jobs).0 k ≡ has_kind is_delete k jobs
unfolding delete_parts contains any
delete_parts-has_kind k [] = refl
delete_parts-has_kind k (j ∷ jobs) = ground (arith, delete_parts-has_kind k jobs)

-- A job is of one of the four kinds.
pub has_job-has_kind :
    (k : ℕ) (jobs : List BlobJob)
    → has_job k jobs ≡ true
    → (contains (delete_parts jobs).0 k
        || (has_kind is_delete_prefix k jobs
            || (has_kind is_move k jobs || has_kind is_move_prefix k jobs)))
      ≡ true
unfolding any
has_job-has_kind k jobs h = rw (delete_parts-has_kind k jobs) (go jobs h)
  where
    go :
        (jobs : List BlobJob)
        → has_job k jobs ≡ true
        → (has_kind is_delete k jobs
            || (has_kind is_delete_prefix k jobs
                || (has_kind is_move k jobs || has_kind is_move_prefix k jobs)))
          ≡ true
    go [] h = cc
    go (j ∷ jobs) h = ground (arith, go jobs)
