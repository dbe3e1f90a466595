-- ===== src/Blobs/Repository.antt =====
-- `BlobRepository` and `BlobJobRepository`, app/infrastructure/database/tortoise/repositories/blob.py
-- and blob_job.py. A storage key is unique, and a blob that a file refers to cannot be deleted; the
-- references of media items to blobs are in tables of the photos, which this store does not hold.
use shelf_back.Base.{
  ℕ, zero, suc, ◌+◌, ◌-◌, Bool, true, false, not, ◌&&◌, none, some, List, [], ◌∷◌, ◌++◌, ◌==◌,
  if◌then◌else◌, keep_if, any, update_where, length, contains, is_nil,
}
use shelf_back.Base.Text.{Text, text_eq, has_prefix}
use shelf_back.Base.Exec.{
  Exec, ok, err, blob_not_found, integrity_error, pure, gets, modify, ◌>>=◌, ◌>>◌, one_of,
  not_found_as, lift,
}
use shelf_back.Files.Model.{Env, Blob, FileRow, Payload, BlobJob, Db}

unfoldable pub get_by_id : ℕ → Exec Db Blob
get_by_id blob_id db =
    lift (not_found_as blob_not_found (one_of (keep_if (λ b. b.id == blob_id) db.blobs))) db

unfoldable pub get_by_id_batch : List ℕ → Exec Db (List Blob)
get_by_id_batch blob_ids = gets (λ db. keep_if (λ b. contains blob_ids b.id) db.blobs)

unfoldable pub key_taken : List Blob → Text → Bool
key_taken blobs storage_key = any (λ b. text_eq b.storage_key storage_key) blobs

unfoldable pub exists_with_storage_key : Text → Exec Db Bool
exists_with_storage_key storage_key = gets (λ db. key_taken db.blobs storage_key)

-- `unique=True` on the storage key
unfoldable pub keys_unique : List Blob → Bool
keys_unique [] = true
keys_unique (b ∷ blobs) = not (key_taken blobs b.storage_key) && keys_unique blobs

abbrev refers_to : ℕ → FileRow → Bool
refers_to blob_id row = elim row.blob_id [ none ↦ false | some id ↦ id == blob_id ]

-- `on_delete=RESTRICT`: some file refers to a blob that passes the test.
unfoldable pub is_referred : Db → (Blob → Bool) → Bool
is_referred db test = any (λ b. test b && any (refers_to b.id) db.files) db.blobs

unfoldable pub delete_where : (Blob → Bool) → Exec Db Unit
delete_where test db =
    if is_referred db test
    then (err integrity_error, db)
    else (ok tt, record db { blobs = keep_if (λ b. not (test b)) db.blobs })

unfoldable pub delete_all_with_prefix : Text → Exec Db Unit
delete_all_with_prefix prefix = delete_where (λ b. has_prefix prefix b.storage_key)

unfoldable pub delete_batch : List ℕ → Exec Db Unit
delete_batch blob_ids = delete_where (λ b. contains blob_ids b.id)

-- SQL's `REPLACE(s, find, replace)`: every occurrence, from left to right. `skip` counts the code
-- points of an occurrence that are still to be passed over.
unfoldable pub replace_all : Text → Text → ℕ → Text → Text
replace_all find replace skip [] = []
replace_all find replace (suc skip) (c ∷ s) = replace_all find replace skip s
replace_all find replace zero (c ∷ s) =
    if not (is_nil find) && has_prefix find (c ∷ s)
    then replace ++ replace_all find replace (length find - 1) s
    else c ∷ replace_all find replace zero s

abbrev pub commit_blobs : List Blob → Exec Db Unit
commit_blobs blobs db =
    if keys_unique blobs then (ok tt, record db { blobs = blobs }) else (err integrity_error, db)

unfoldable pub replace_storage_key_prefix : Text → Text → Exec Db Unit
replace_storage_key_prefix at to db =
    commit_blobs
      (update_where (λ b. has_prefix at b.storage_key)
        (λ b. record b { storage_key = replace_all at to 0 b.storage_key }) db.blobs)
      db

-- `update(blob_id, {"storage_key": storage_key})`
unfoldable pub update_storage_key : ℕ → Text → Exec Db Unit
update_storage_key blob_id storage_key db =
    commit_blobs
      (update_where (λ b. b.id == blob_id) (λ b. record b { storage_key = storage_key }) db.blobs)
      db

-- `BlobJobRepository.delete_by_id_batch`
unfoldable pub delete_jobs : List ℕ → Exec Db Unit
delete_jobs ids = modify (λ db. record db { jobs = keep_if (λ j. not (contains ids j.id)) db.jobs })

-- `BlobJobRepository.get_by_id_batch`
unfoldable pub get_jobs : List ℕ → Exec Db (List BlobJob)
get_jobs ids = gets (λ db. keep_if (λ j. contains ids j.id) db.jobs)

module _ (V : Env) where
  unfoldable pub save : Blob → Exec Db Blob
  save blob db =
      if key_taken db.blobs blob.storage_key
      then (err integrity_error, db)
      else let saved = record blob { id = V.uuid db.drawn } in
        (ok saved, record db { blobs = db.blobs ++ (saved ∷ []); drawn = db.drawn + 1 })

  -- `BlobJobRepository.save_batch`
  unfoldable pub save_jobs : List Payload → Exec Db (List ℕ)
  save_jobs [] = pure []
  save_jobs (p ∷ payloads) = do
    id ← gets (λ db. V.uuid db.drawn)
    modify (λ db. record db {
      jobs = db.jobs ++ (record { id = id; payload = p } ∷ []);
      drawn = db.drawn + 1;
    })
    ids ← save_jobs payloads
    pure (id ∷ ids)
