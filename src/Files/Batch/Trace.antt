-- ===== src/Files/Batch/Trace.antt =====
-- What the entries of a batch that fail leave behind: app/worker/jobs/files.py.
use shelf_back.Base.{
  ℕ, ◌≡◌, refl, ap, Bool, true, false, none, some, List, [], ◌∷◌, length, if◌then◌else◌, arith,
}
use shelf_back.Base.Text.{Text}
use shelf_back.Base.Exec.{Exec, Result, ok, err, pure, modify, ◌>>◌}
use shelf_back.Base.Rollback.{
  ReadOnly, Restores, Restores-bind, ReadOnly-guard, ReadOnly-gets, Restores-bind_last, Never,
}
use shelf_back.Files.Model.{Env, Db, File}
use shelf_back.Files.Repository
use shelf_back.Files.Atomicity.{delete-Restores, move-Restores}
use shelf_back.Files.NamespaceUseCase.{Site, in_core, delete_item, move_item, move_item_to_trash}
use shelf_back.Files.Batch.{
  FileTaskResult, task_result, run_batch, delete_immediately_batch, move_batch, move_to_trash_batch,
  move_entry, trash_entry,
}

-- Whether there is a file.
abbrev pub is_done : FileTaskResult → Bool
is_done r = elim r.file [ none ↦ false | some _ ↦ true ]

-- The entries whose results have a file, and those results.
abbrev pub done : {X : Type 0} → List X → List FileTaskResult → List X
done [] rs = []
done (x ∷ xs) [] = []
done (x ∷ xs) (r ∷ rs) = if is_done r then x ∷ done xs rs else done xs rs

abbrev pub files_done : List FileTaskResult → List FileTaskResult
files_done [] = []
files_done (r ∷ rs) = if is_done r then r ∷ files_done rs else files_done rs

-- A batch ends with a result for each entry, and without the entries that fail it would end with the
-- results of the others and the same store.
abbrev pub NoTrace :
    {X : Type 0} → (List X → Exec Site (List FileTaskResult)) → List X → Site → Type 0
NoTrace batch entries site =
    (results : List FileTaskResult) × (after : Site) × (batch entries site ≡ (ok results, after))
    × (length results ≡ length entries)
    × (batch (done entries results) site ≡ (ok (files_done results), after))

module _ {X : Type 0} (action : X → Exec Site File) (h : (x : X) → Restores (action x)) where
  run_batch-NoTrace : (xs : List X) (site : Site) → NoTrace (run_batch action) xs site
  unfolding run_batch
  run_batch-NoTrace [] site = ([], site, refl, refl, refl)
  run_batch-NoTrace (x ∷ xs) site = go (action x site) refl (run_batch-NoTrace xs (action x site).1)
    where
      go :
          (o : Result File × Site)
          → action x site ≡ o
          → NoTrace (run_batch action) xs (action x site).1
          → NoTrace (run_batch action) (x ∷ xs) site
      go (ok file, s) e (rs, after, whole, count, rest) =
          let whole' = rw e at whole in
          let rest' = rw e at rest in
          (
            task_result (ok file) ∷ rs,
            after,
            unfold task_result in rw (e, whole'),
            omega (arith, count),
            unfold task_result in rw (e, rest'),
          )
      go (err x', s) e (rs, after, whole, count, rest) =
          let same = (h x).at site x' (ap (λ (o : Result File × Site). o.0) e) in
          let whole' = rw e at whole in
          let rest' = rw same at rest in
          (
            task_result (err x') ∷ rs,
            after,
            unfold task_result in rw (e, whole'),
            omega (arith, count),
            unfold task_result in rest',
          )

module _ {A : Type 0} where
  in_core-Restores : (m : Exec Db A) → Restores m → Restores (in_core m)
  in_core-Restores m h = record {
    at = λ site e f. let same = h.at site.core e f in λ i. record site { core = same i };
  }

  in_core-ReadOnly : (m : Exec Db A) → ReadOnly m → ReadOnly (in_core m)
  in_core-ReadOnly m h = record {
    at = λ site. let same = h.at site.core in λ i. record site { core = same i };
  }

-- A change that is recorded, and the value returned
recorded-Never : {A : Type 0} (f : Site → Site) (a : A) → Never (modify f >> pure a)
recorded-Never f a = record { at = λ s. (a, refl) }

exists_at_path-ReadOnly :
    (V : Env) (ns_path path : Text) → ReadOnly (Repository.exists_at_path V ns_path path)
unfolding Repository.exists_at_path
exists_at_path-ReadOnly V ns_path path = ReadOnly-gets _

module _ (V : Env) (ns_path : Text) where
  delete_item-Restores : (path : Text) → Restores (delete_item V ns_path path)
  unfolding delete_item
  delete_item-Restores path =
      Restores-bind _ _ (ReadOnly-guard _ _)
        (λ _. in_core-Restores _ (delete-Restores V ns_path path))

  module _ (now user_id : ℕ) where
    move_entry-Restores : (entry : Text × Text) → Restores (move_entry V now user_id ns_path entry)
    unfolding move_item
    move_entry-Restores (from_path, to_path) = Restores-bind _ _ (ReadOnly-guard _ _) (λ _.
        Restores-bind_last _ _
          (in_core-Restores _ (move-Restores V ns_path from_path ns_path to_path))
          (λ file. recorded-Never _ file))

    trash_entry-Restores :
        (entry : Text × Text) → Restores (trash_entry V now user_id ns_path entry)
    unfolding move_item_to_trash
    trash_entry-Restores (timestamp, path) =
        Restores-bind _ _ (in_core-ReadOnly _ (exists_at_path-ReadOnly V ns_path _)) (λ taken.
          Restores-bind_last _ _ (in_core-Restores _ (move-Restores V ns_path path ns_path _))
            (λ file. recorded-Never _ file))

    -- Each of the three batches ends with one result for each entry, and the entries that fail leave no
    -- trace: the batch of the other entries alone, in their order, ends with their results and the same
    -- database, accounts and audit trail.
    pub batches-NoTrace :
        (paths : List Text) (moves trashed : List (Text × Text)) (site : Site)
        → NoTrace (delete_immediately_batch V ns_path) paths site
          × NoTrace (move_batch V now user_id ns_path) moves site
          × NoTrace (move_to_trash_batch V now user_id ns_path) trashed site
    unfolding delete_immediately_batch move_batch move_to_trash_batch
    batches-NoTrace paths moves trashed site = (
      run_batch-NoTrace _ delete_item-Restores paths site,
      run_batch-NoTrace _ move_entry-Restores moves site,
      run_batch-NoTrace _ trash_entry-Restores trashed site,
    )
