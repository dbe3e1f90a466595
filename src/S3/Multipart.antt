-- ===== src/S3/Multipart.antt =====
-- Uploads, whole and in parts: `upload_obj` and `MultipartUpload` of
-- app/infrastructure/storage/s3/clients/async_client.py.
use shelf_back.Base.{
  ℕ, zero, suc, ◌+◌, ◌*◌, List, [], ◌∷◌, map, length, take, drop, ltb, ◌==◌, if◌then◌else◌,
}
use Prim.Native.Nat.{◌/◌}
use shelf_back.Base.Text.{Text}
use shelf_back.Base.Exec.{
  Exec, Result, ok, err, assertion_error, attempt, pure, raise, or_raise, ◌>>=◌, ◌>>◌,
}
use shelf_back.S3.{
  Service, S3File, Upload, create_upload_request, upload_part_request, complete_request,
  abort_request, send, put_object,
}

-- `_5_MB`
abbrev pub five_mb : ℕ
five_mb = 5242880

-- `chunk_size` of `upload_obj`
unfoldable pub part_size : ℕ → ℕ
part_size size = let n = size / (five_mb * 10000) in if ltb five_mb n then n else five_mb

-- `_readchunks`: a chunk that is shorter than asked for is the last. The fuel is more than there are
-- bytes.
unfoldable pub read_chunks : ℕ → ℕ → Text → List Text
read_chunks zero chunk_size bytes = []
read_chunks (suc fuel) chunk_size bytes =
    let rest = read_chunks fuel chunk_size (drop chunk_size bytes) in
    let chunk = take chunk_size bytes in
    if length chunk == chunk_size then chunk ∷ rest else chunk ∷ []

-- A part: its number, its `ETag` and its size
unfoldable pub sum_sizes : List (ℕ × Text × ℕ) → ℕ
sum_sizes [] = 0
sum_sizes ((_, _, size) ∷ parts) = size + sum_sizes parts

abbrev pub numbered : ℕ × Text × ℕ → ℕ × Text
numbered (n, etag, _) = (n, etag)

module _ (S : Service) where
  -- `MultipartUpload.create`
  unfoldable pub create_upload : Text → Text → Exec S.State Text
  create_upload bucket key = do
    r ← send S (create_upload_request bucket key)
    or_raise r.upload_id assertion_error

  -- `MultipartUpload.upload_part`: the part's number, `ETag` and size
  unfoldable pub upload_part : Text → Text → Text → ℕ → Text → Exec S.State (ℕ × Text × ℕ)
  upload_part bucket key upload_id part_number content = do
    r ← send S (upload_part_request bucket key upload_id part_number content)
    pure (part_number, r.etag, length content)

  -- The tasks of `upload_obj`, with `_aenumerate`
  unfoldable pub upload_parts :
      Text → Text → Text → ℕ → List Text → Exec S.State (List (ℕ × Text × ℕ))
  upload_parts bucket key upload_id n [] = pure []
  upload_parts bucket key upload_id n (chunk ∷ chunks) = do
    part ← upload_part bucket key upload_id n chunk
    parts ← upload_parts bucket key upload_id (n + 1) chunks
    pure (part ∷ parts)

  -- `MultipartUpload.complete`; the parts come sorted by their numbers.
  unfoldable pub complete : Text → Text → Text → List (ℕ × Text × ℕ) → Exec S.State S3File
  complete bucket key upload_id parts = do
    r ← send S (complete_request bucket key upload_id (map numbered parts))
    pure (record {
      key = r.key;
      last_modified = r.last_modified;
      size = sum_sizes parts;
      etag = r.etag;
    })

  -- `MultipartUpload.abort`
  unfoldable pub abort : Text → Text → Text → Exec S.State Unit
  abort bucket key upload_id = send S (abort_request bucket key upload_id) >>= λ _. pure tt

  -- `MultipartUpload.__aexit__` after the tasks: the upload is aborted when one of them raised.
  unfoldable pub finish : Text → Text → Text → Result (List (ℕ × Text × ℕ)) → Exec S.State S3File
  finish bucket key upload_id (ok parts) = complete bucket key upload_id parts
  finish bucket key upload_id (err e) = do abort bucket key upload_id; raise e

  unfoldable pub upload_obj : Text → Text → Upload → Exec S.State S3File
  upload_obj bucket key content =
      if ltb content.size five_mb then put_object S bucket key content else (do
        upload_id ← create_upload bucket key
        let chunks = read_chunks (suc (length content.bytes)) (part_size content.size) content.bytes
        parts ← attempt (upload_parts bucket key upload_id 1 chunks)
        finish bucket key upload_id parts)
