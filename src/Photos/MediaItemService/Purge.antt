-- ===== src/Photos/MediaItemService/Purge.antt =====
-- `MediaItemUseCase.purge`, app/app/photos/usecases/media_item.py, over `MediaItemService.iter_deleted`,
-- app/app/photos/services/media_item.py.
use shelf_back.Base.{
  ℕ, zero, suc, ◌+◌, ◌≤◌, ◌≡◌, refl, ap, ◌∙◌, Bool, not, ◌&&◌, Option, none, some, List, [], ◌∷◌,
  arith, ◌==◌, keep_if, contains, is_nil, length, take, drop, sort_by, insert_sorted,
}
use shelf_back.Base.Exec.{Exec, Result, ok, err, pure, continue, ◌>>=◌, ◌>>◌}
use shelf_back.Base.Rollback.{Never, Never-bind, Never-pure, Never-if}
use shelf_back.Files.Model.{Env, Payload}
use shelf_back.Blobs.Service
use shelf_back.Blobs.Repository as BlobRepository
use shelf_back.Blobs.Repository.{save_jobs}
use shelf_back.Photos.{MediaItem, PhotoDb}
use shelf_back.Photos.Albums.{is_live, ids_of}
use shelf_back.Photos.MediaItems
use shelf_back.Photos.MediaItems.{list_deleted, deleted_last}
use shelf_back.Photos.MediaItemService.{delete_permanently}

-- The default `batch_size` of `iter_deleted`
abbrev pub batch_size : ℕ
batch_size = 1000

-- What `purge` does with a batch, and then `rest`. The generator ends on the first empty batch.
unfoldable pub purge_batch :
    Env → List MediaItem → Exec PhotoDb (Option (Unit {0})) → Exec PhotoDb (Option (Unit {0}))
purge_batch V [] rest = pure (some tt)
purge_batch V (item ∷ items) rest = delete_permanently V (ids_of (item ∷ items)) >> rest

-- The loop from an offset on. The fuel is the number of batches it may read; `none` when that is not
-- enough.
unfoldable pub purge_from : Env → ℕ → ℕ → ℕ → Exec PhotoDb (Option (Unit {0}))
purge_from V zero owner_id offset = pure none
purge_from V (suc fuel) owner_id offset = do
  items ← list_deleted owner_id offset batch_size
  purge_batch V items (purge_from V fuel owner_id (offset + batch_size))

unfoldable pub purge : Env → ℕ → ℕ → Exec PhotoDb (Option (Unit {0}))
purge V fuel owner_id = purge_from V fuel owner_id 0

length-keep_if : {A : Type 0} (p : A → Bool) (xs : List A) → length (keep_if p xs) ≤ length xs
unfolding keep_if
length-keep_if p [] = omega arith
length-keep_if p (x ∷ xs) = ground (arith, length-keep_if p xs)

length-insert :
    {A : Type 0} (r : A → A → Bool) (x : A) (xs : List A)
    → length (insert_sorted r x xs) ≡ suc (length xs)
unfolding insert_sorted
length-insert r x [] = refl
length-insert r x (y ∷ ys) = ground (arith, length-insert r x ys)

length-sort_by : {A : Type 0} (r : A → A → Bool) (xs : List A) → length (sort_by r xs) ≡ length xs
unfolding sort_by
length-sort_by r [] = refl
length-sort_by r (x ∷ xs) = length-insert r x (sort_by r xs) ∙ ap suc (length-sort_by r xs)

take_nil : {A : Type 0} (k : ℕ) → take {A = A} k [] ≡ []
take_nil zero = refl
take_nil (suc k) = refl

-- A slice that starts behind the end is empty.
drop_all : {A : Type 0} (n k : ℕ) (xs : List A) → length xs ≤ n → take k (drop n xs) ≡ []
drop_all zero k [] h = take_nil k
drop_all zero k (x ∷ xs) h = absurd (omega (arith, h))
drop_all (suc n) k [] h = take_nil k
drop_all (suc n) k (x ∷ xs) h = drop_all n k xs (omega (arith, h))

-- The deleted items of the owner, as a batch is taken from them
abbrev deleted_of : ℕ → List MediaItem → List MediaItem
deleted_of owner_id items =
    sort_by deleted_last (keep_if (λ m. m.owner_id == owner_id && not (is_live m)) items)

length-deleted_of :
    (owner_id : ℕ) (items : List MediaItem) → length (deleted_of owner_id items) ≤ length items
length-deleted_of owner_id items =
    let p : MediaItem → Bool = λ m. m.owner_id == owner_id && not (is_live m) in
    omega (arith, length-sort_by deleted_last (keep_if p items), length-keep_if p items)

-- Deletion leaves no more items than there were.
delete-length :
    (V : Env) (ids : List ℕ) (db : PhotoDb)
    → length (delete_permanently V ids db).1.media_items ≤ length db.media_items
unfolding delete_permanently MediaItems.get_by_id_batch MediaItems.delete_batch
delete-length V ids db = length-keep_if _ db.media_items

save_jobs-Never : (V : Env) (payloads : List Payload) → Never (save_jobs V payloads)
unfolding save_jobs
save_jobs-Never V [] = Never-pure []
save_jobs-Never V (p ∷ payloads) = record {
  at = λ db.
      (Never-bind (save_jobs V payloads) (λ ids. pure (V.uuid db.drawn ∷ ids))
          (save_jobs-Never V payloads) (λ ids. Never-pure _)).at
        _;
}

record_jobs-Never : (V : Env) (payloads : List Payload) → Never (Service.record_jobs V payloads)
unfolding Service.record_jobs
record_jobs-Never V payloads =
    Never-bind (save_jobs V payloads) _ (save_jobs-Never V payloads)
      (λ ids. record { at = λ db. (tt, refl) })

blobs-Never : (V : Env) (ids : List ℕ) → Never (Service.delete_batch V ids)
unfolding Service.delete_batch BlobRepository.get_by_id_batch
blobs-Never V [] = Never-pure tt
blobs-Never V (id ∷ ids) = record {
  at = λ db.
      (Never-if (is_nil (keep_if (λ b. contains (id ∷ ids) b.id) db.blobs)) _ _ (Never-pure tt)
          (record_jobs-Never V _)).at
        db;
}

-- Deletion does not raise.
delete-Never : (V : Env) (ids : List ℕ) → Never (delete_permanently V ids)
unfolding delete_permanently MediaItems.get_by_id_batch MediaItems.delete_batch
delete-Never V ids = record { at = λ db. (blobs-Never V _).at _ }

-- The loop ended.
abbrev Ended : Result (Option (Unit {0})) → Type 0
Ended r = r ≡ ok (some tt)

continue-Ended :
    (x : Result (Unit {0}) × PhotoDb) (rest : Exec PhotoDb (Option (Unit {0})))
    → (a : Unit {0}) × (x.0 ≡ ok a)
    → Ended (rest x.1).0
    → Ended (continue x.0 (λ _. rest) x.1).0
continue-Ended (ok a, s) rest k h = h
continue-Ended (err e, s) rest (a, k) h = cc

batch_step :
    (V : Env) (items : List MediaItem) (rest : Exec PhotoDb (Option (Unit {0}))) (db : PhotoDb)
    → ((t : PhotoDb) → length t.media_items ≤ length db.media_items → Ended (rest t).0)
    → Ended (purge_batch V items rest db).0
unfolding purge_batch
batch_step V [] rest db h = refl
batch_step V (item ∷ items) rest db h =
    let ids = ids_of (item ∷ items) in
    continue-Ended (delete_permanently V ids db) rest ((delete-Never V ids).at db)
      (h (delete_permanently V ids db).1 (delete-length V ids db))

last_batch :
    (V : Env) (items : List MediaItem) (rest : Exec PhotoDb (Option (Unit {0}))) (db : PhotoDb)
    → items ≡ []
    → Ended (purge_batch V items rest db).0
unfolding purge_batch
last_batch V items rest db e = rw e refl

purge_from-Ended :
    (V : Env) (fuel owner_id offset : ℕ) (db : PhotoDb)
    → length db.media_items ≤ offset + fuel
    → Ended (purge_from V (suc fuel) owner_id offset db).0
unfolding purge_from list_deleted
purge_from-Ended V zero owner_id offset db h = last_batch V _ _ db (
    drop_all offset batch_size (deleted_of owner_id db.media_items)
      (omega (arith, h, length-deleted_of owner_id db.media_items)))
purge_from-Ended V (suc fuel) owner_id offset db h =
    batch_step V _ (purge_from V (suc fuel) owner_id (offset + batch_size)) db
      (λ t k. purge_from-Ended V fuel owner_id (offset + batch_size) t (omega (arith, h, k)))

-- `purge` returns, without an exception, from every store: its loop ends within one batch more than there
-- are media items, and within any larger number of batches.
pub purge_returns :
    (V : Env) (owner_id more : ℕ) (db : PhotoDb)
    → (purge V (suc (length db.media_items + more)) owner_id db).0 ≡ ok (some tt)
unfolding purge
purge_returns V owner_id more db =
    purge_from-Ended V (length db.media_items + more) owner_id 0 db (omega arith)
