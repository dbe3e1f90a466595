-- ===== src/S3.antt =====
-- The S3 client, app/infrastructure/storage/s3/clients: async_client.py, models.py and exceptions.py.
-- The service and the HTTP library are an interface, which answers a request with what the client
-- reads of the response. Tasks of a task group run in the order in which they are created, and the
-- group raises what its first failing task raised.
pub mod Batches
pub mod Multipart
pub mod Parts
pub mod Laws
pub mod Storage
pub mod Sent
pub mod Deletes
pub mod Moves
pub mod Uploads
use shelf_back.Base.{
  ℕ, zero, suc, ◌+◌, ◌*◌, ◌≡◌, Bool, true, false, not, ◌&&◌, ◌||◌, Option, none, some, List, [],
  ◌∷◌, ◌++◌, map, length, take, drop, ltb, leb, ◌==◌, if◌then◌else◌, is_nil,
}
use Prim.Native.Nat.{◌/◌}
use shelf_back.Base.Text.{Text, codes, text_eq, has_prefix, decimal}
use shelf_back.Base.Exec.{
  Error, Exec, Result, ok, err, access_denied, bucket_already_exists, bucket_already_owned_by_you,
  no_such_key, signature_does_not_match, resource_not_found, http_status_error, assertion_error,
  attempt, runtime_error, out_of_fuel, pure, raise, guard, lift, or_raise, continue, ◌>>=◌, ◌>>◌,
}

-- `S3File`; two strings are left out of its equality, the time is a number.
pub record S3File : Type 0 where
  pub key : Text
  pub last_modified : ℕ
  pub size : ℕ
  pub etag : Text

-- A content with its size, as the upload is given it.
pub record Upload : Type 0 where
  pub size : ℕ
  pub bytes : Text

-- The requests, by the operation of the service that they call
pub data Request : Type 0 where
  copy_request : (bucket copy_source to_key : Text) → Request
  create_bucket_request delete_bucket_request : (bucket : Text) → Request
  delete_request : (bucket body : Text) → Request
  head_request get_request : (bucket key : Text) → Request
  list_request : (bucket : Text) (prefix delimiter token : Option Text) → Request
  put_request : (bucket key : Text) (content : Upload) → Request
  create_upload_request : (bucket key : Text) → Request
  upload_part_request : (bucket key upload_id : Text) (part_number : ℕ) (content : Text) → Request
  complete_request : (bucket key upload_id : Text) (parts : List (ℕ × Text)) → Request
  abort_request : (bucket key upload_id : Text) → Request

-- What the client reads of a response: the status, the `Code` of an error, and the elements and
-- headers that the operations look for.
pub record Response : Type 0 where
  pub is_success : Bool
  pub status_code : ℕ
  pub code : Option Text
  pub keys : List Text
  pub common_prefixes : List Text
  pub contents : List S3File
  -- `IsTruncated` is there and its text is "false"
  pub is_last : Bool
  pub next_token : Option Text
  pub upload_id : Option Text
  pub key : Text
  pub etag : Text
  pub last_modified : ℕ
  pub size : ℕ
  pub chunks : List Text

pub record Service : Type 1 where
  pub State : Type 0
  pub answer : Request → State → Response × State

-- `ERROR_CODES`
unfoldable pub error_of_code : Text → Option Error
error_of_code code =
    if text_eq code (codes "AccessDenied")
    then some access_denied
    else if text_eq code (codes "BucketAlreadyOwnedByYou")
    then some bucket_already_owned_by_you
    else if text_eq code (codes "BucketAlreadyExists")
    then some bucket_already_exists
    else if text_eq code (codes "NoSuchKey")
    then some no_such_key
    else if text_eq code (codes "SignatureDoesNotMatch")
    then some signature_does_not_match
    else none

abbrev known_error : Option Text → Option Error
known_error none = none
known_error (some code) = error_of_code code

-- `araise_for_status`, and `raise_for_status` of the other client
unfoldable pub raise_for_status : Response → Result Response
raise_for_status r = if r.is_success then ok r else elim (known_error r.code) [
  | some e ↦ err e
  | none ↦ if r.status_code == 404 then err resource_not_found else err http_status_error
]

-- `chunk_size` of `delete`
abbrev pub delete_limit : ℕ
delete_limit = 1000

-- `files[i : i + chunk_size]` for `i` in `range(0, len(files), chunk_size)`; there are no more slices
-- than files.
unfoldable pub slices : ℕ → List Text → List (List Text)
slices zero files = []
slices (suc fuel) [] = []
slices (suc fuel) (f ∷ files) =
    take delete_limit (f ∷ files) ∷ slices fuel (drop delete_limit (f ∷ files))

-- The loop of `delete_recursive`: the files that are collected, and those that are still listed.
unfoldable pub batches : List Text → List Text → List (List Text)
batches files [] = if is_nil files then [] else files ∷ []
batches files (f ∷ listed) =
    let files' = files ++ (f ∷ []) in
    let full = batches [] listed in
    let open_batch = batches files' listed in
    if length files' == delete_limit then files' ∷ full else open_batch

-- What a listing yields: a common prefix as a string, or a file
pub data Entry : Type 0 where
  common : (prefix : Text) → Entry
  file : (f : S3File) → Entry

-- `str(entry)`
abbrev pub key_of : Entry → Text
key_of (common prefix) = prefix
key_of (file f) = f.key

abbrev pub entries_of : Response → List Entry
entries_of r = map common r.common_prefixes ++ map file r.contents

-- `x-amz-copy-source`: the key is sent as it is.
abbrev pub copy_source : Text → Text → Text
copy_source bucket from_key = codes "/" ++ (bucket ++ (codes "/" ++ from_key))

-- The elements of `_delete_1000_files`, in which the keys stand as they are.
unfoldable pub delete_objects : List Text → Text
delete_objects [] = []
delete_objects (f ∷ files) =
    codes "<Object><Key>" ++ (f ++ (codes "</Key></Object>" ++ delete_objects files))

-- `xml` of `_delete_1000_files`
unfoldable pub delete_body : List Text → Text
delete_body files =
    codes "<?xml version=\"1.0\" encoding=\"UTF-8\"?>"
    ++ (codes "<Delete xmlns=\"http://s3.amazonaws.com/doc/2006-03-01/\"> "
        ++ (delete_objects files ++ codes "</Delete>"))

module _ (S : Service) where
  -- A request, with the hook on its response
  unfoldable pub send : Request → Exec S.State Response
  send request s = let (r, s') = S.answer request s in (raise_for_status r, s')

  unfoldable pub copy_object : Text → Text → Text → Exec S.State Unit
  copy_object bucket from_key to_key =
      send (copy_request bucket (copy_source bucket from_key) to_key) >>= λ _. pure tt

  unfoldable create_bucket : Text → Exec S.State Unit
  create_bucket name = send (create_bucket_request name) >>= λ _. pure tt

  unfoldable delete_bucket : Text → Exec S.State Unit
  delete_bucket name = send (delete_bucket_request name) >>= λ _. pure tt

  unfoldable pub delete_1000_files : Text → List Text → Exec S.State (List Text)
  delete_1000_files bucket files = do
    guard (leb (length files) delete_limit) assertion_error
    r ← send (delete_request bucket (delete_body files))
    pure r.keys

  -- The tasks of `delete` and `delete_recursive`, and their results one after the other
  unfoldable pub delete_all : Text → List (List Text) → Exec S.State (List Text)
  delete_all bucket [] = pure []
  delete_all bucket (files ∷ rest) = do
    keys ← delete_1000_files bucket files
    keys' ← delete_all bucket rest
    pure (keys ++ keys')

  unfoldable pub delete : Text → List Text → Exec S.State (List Text)
  delete bucket files = delete_all bucket (slices (length files) files)

  -- `list_objects` from a continuation token on. The fuel is the number of pages that it may ask for.
  unfoldable pub list_from :
      ℕ → Text → Option Text → Option Text → Option Text → Exec S.State (List Entry)
  list_from zero bucket prefix delimiter token = raise out_of_fuel
  list_from (suc fuel) bucket prefix delimiter token = do
    r ← send (list_request bucket prefix delimiter token)
    (if r.is_last then pure (entries_of r) else elim r.next_token [
      | none ↦ raise runtime_error
      | some t ↦ do
        rest ← list_from fuel bucket prefix delimiter (some t)
        pure (entries_of r ++ rest)
    ])

  abbrev starts_with_slash : Option Text → Bool
  starts_with_slash none = false
  starts_with_slash (some prefix) = has_prefix (codes "/") prefix

  unfoldable pub list_objects : ℕ → Text → Option Text → Option Text → Exec S.State (List Entry)
  list_objects fuel bucket prefix delimiter = do
    guard (not (starts_with_slash prefix)) assertion_error
    list_from fuel bucket prefix delimiter none

  -- The listing is read to its end before the tasks run.
  unfoldable pub delete_recursive : ℕ → Text → Option Text → Exec S.State (List Text)
  delete_recursive fuel bucket prefix = do
    listed ← list_objects fuel bucket prefix none
    delete_all bucket (batches [] (map key_of listed))

  unfoldable pub head_object : Text → Text → Exec S.State S3File
  head_object bucket key = do
    r ← send (head_request bucket key)
    pure (record { key = key; last_modified = r.last_modified; size = r.size; etag = r.etag })

  -- `iter_download`, with the chunks as a list
  unfoldable pub iter_download : Text → Text → Exec S.State (List Text)
  iter_download bucket key = do r ← send (get_request bucket key); pure r.chunks

  unfoldable pub put_object : Text → Text → Upload → Exec S.State S3File
  put_object bucket key content = do
    r ← send (put_request bucket key content)
    pure (record { key = key; last_modified = r.last_modified; size = content.size; etag = r.etag })
