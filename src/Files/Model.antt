-- ===== src/Files/Model.antt =====
-- The tables that the file services read and write, app/infrastructure/database/tortoise/models.py,
-- the domain objects `File`, `Namespace` and `Blob`, and what the services take from elsewhere.
use shelf_back.Base.{ℕ, Bool, Option, List, []}
use shelf_back.Base.Int.{ℤ}
use shelf_back.Base.Text.{Text, codes, text_eq}
use shelf_back.FilePath.{FilePath, Casing}

-- The database, Python's `str` and the random identifiers, as far as the services rely on them.
pub record Env : Type 0 where
  -- `str.casefold` and `str.lower`
  pub casing : Casing
  pub lower : Text → Text
  -- `UPPER`, by which `iexact` and `istartswith` compare, and `LOWER`
  pub sql_upper : Text → Text
  pub sql_lower : Text → Text
  -- the strict order of texts that `ORDER BY` goes by
  pub sql_lt : Text → Text → Bool
  -- `~*`: does the text match the pattern, without regard to case?
  pub regex_match : Text → Text → Bool
  -- `re.escape`
  pub regex_escape : Text → Text
  -- `suffix in mimetypes.encodings_map`
  pub encodings_map : Text → Bool
  -- the n-th identifier that `uuid7` returns
  pub uuid : ℕ → ℕ
  -- `str(id)`
  pub uuid_text : ℕ → Text

-- `models.Namespace`, and the domain's `Namespace`
pub record Namespace : Type 0 where
  pub id : ℕ
  pub path : Text
  pub owner_id : ℕ

-- `models.Blob`, and the domain's `Blob`
pub record Blob : Type 0 where
  pub id : ℕ
  pub storage_key : Text
  pub size : ℤ
  pub chash : Text
  pub media_type : Text
  pub created_at : ℕ

-- `models.File`. A folder has no blob.
pub record FileRow : Type 0 where
  pub id : ℕ
  pub name : Text
  pub path : Text
  pub size : ℤ
  pub modified_at : ℕ
  pub owner_id : ℕ
  pub namespace_id : ℕ
  pub blob_id : Option ℕ

-- `BlobJobPayload`
pub data Payload : Type 0 where
  delete_blob : ℕ → Text → Payload
  delete_prefix : Text → Payload
  move_blob : ℕ → Text → Text → Payload
  move_prefix : Text → Text → Payload

-- `BlobJob`
pub record BlobJob : Type 0 where
  pub id : ℕ
  pub payload : Payload

-- The database and the number of identifiers drawn.
pub record Db : Type 0 where
  pub files : List FileRow
  pub namespaces : List Namespace
  pub blobs : List Blob
  pub jobs : List BlobJob
  pub drawn : ℕ

-- `File`
pub record File : Type 0 where
  pub id : ℕ
  pub blob_id : Option ℕ
  pub owner_id : ℕ
  pub ns_path : Text
  pub name : Text
  pub path : FilePath
  pub chash : Text
  pub size : ℤ
  pub modified_at : ℕ
  pub mediatype : Text

-- `EMPTY_CONTENT_HASH` and `MediaType.FOLDER`
abbrev pub empty_content_hash : Text
empty_content_hash = []

abbrev pub folder : Text
folder = codes "application/directory"

-- `File.is_folder`
unfoldable pub is_folder : File → Bool
is_folder f = text_eq f.mediatype folder
