-- ===== src/Lib.antt =====
-- shelf-back is the back end of a file and photo storage. Its parts, and the files that model them:
--
-- * `Path`, app/app/files/domain/path.py, is modelled by FilePath over OsPath, a model of the parts of
--   Python's posixpath and pathlib that it calls. A `str` is the list of its code points (Base/Text).
-- * The file service. Files/Model has the tables of files, namespaces, blobs and blob jobs
--   (app/infrastructure/database/tortoise/models.py), one record for the whole database. A query of a
--   repository is a pass over a list of rows: Files/Repository and Files/Writes
--   (app/infrastructure/database/tortoise/repositories/file.py), Files/Namespaces (namespace.py).
--   Files/Core and Files/Move have the methods of `FileCoreService`
--   (app/app/files/services/file/filecore.py).
--   Files/FileService and Files/NamespaceService are the services over it, Files/NamespaceUseCase is
--   `NamespaceUseCase` (app/app/files/usecases/namespace.py) on a `Site`, the database with the accounts
--   and the audit trail, and Files/Batch has the worker's batches (app/worker/jobs/files.py).
-- * Requests. Requests has the validators of the paths in a request (app/api/files/schemas.py), whose
--   values the use cases and the batches are called with.
-- * Audit is the audit trail (app/app/audit/services/audit.py), to which the use case adds.
-- * Blobs. Blobs/Repository, Blobs/Service and Blobs/Jobs are the tables of blobs and jobs and
--   `BlobService` (app/app/blobs/services/blob.py): the file service and the photos call it to record
--   jobs, and a worker carries them out later.
-- * FileSystem is `FileSystemStorage` (app/infrastructure/storage/filesystem.py), one implementation of
--   the storage that blobs are kept in, over an interface for `os` and `shutil`.
-- * S3 is the other implementation, `S3Storage` (app/infrastructure/storage/s3/storage.py, modelled by
--   S3/Storage), over the client of app/infrastructure/storage/s3/clients (S3 and, for uploads in parts,
--   S3/Multipart). Its service, with the HTTP library, is an interface that answers requests.
-- * Sessions. Auth is `TokenService` (app/app/auth/services/token.py) and its tokens.
-- * Users. Users/Repository and Users/Service are the tables of users and accounts and `UserService`
--   (app/app/users/services/user.py) with the e-mail methods of `UserUseCase`.
--   Users/Bookmarks are bookmarks (app/app/users/services/bookmark.py), and Registration is `AuthUseCase`
--   (app/app/auth/usecases/auth.py), which creates users, namespaces and sessions in one transaction.
-- * Config reads the durations of the settings (app/config.py).
-- * Photos. Photos/Albums and Photos/AlbumService are albums, Photos/MediaItems and
--   Photos/MediaItemService media items and favourites (app/app/photos and the repositories album.py,
--   media_item.py and media_item_favourite.py).
-- * Api has the HTTP layer: the errors with their statuses and the replies of views (app/api/exceptions.py
--   and the exceptions of the parts), Api/Albums, Api/MediaItems, Api/Files, Api/Sharing and
--   Api/Accounts the views with their dependencies (views.py and deps.py), Api/Downloads the cache of one-time downloads
--   (app/api/shortcuts.py). A view calls a method of a use case and catches some of its errors.
-- * Shared links. Sharing is `SharedLinkRepository`, `SharingService` and `SharingUseCase`
--   (app/app/files/services/sharing.py and usecases/sharing.py).
--
-- A method is a function from a store to a result and a store (Base/Exec). A raise keeps what was
-- written before it, and `atomic` undoes it. What a transaction does not undo, the messages that
-- `worker.enqueue` sends to Redis, is not in the store. Loops are structural recursions on lists, or they
-- run on fuel: the decimal digits of a number start with more fuel than there are digits, the slices of a
-- deletion and the chunks of an upload with more than there are, the loop of the purge counts the
-- batches that it reads, and a listing of S3 the pages.
--
-- What is not the repository's code is a parameter: the order and the pattern matching of the
-- database, `str.lower`, `str.strip`, the digits of `\d`, random identifiers and the clock (`Env` and
-- arguments), the storage (`Storage`), the file system (`Os`), the S3 service (`Service`), the JWT
-- library (`Jwt`), the caches (`TokenRepository`, `Cache`, `ValueCache`), the queue of jobs (`Worker`)
-- and the password library (`Credentials`). What is known of them is a record of laws (`IsJwt`,
-- `IsTokenRepository`, `IsCache`, `IsCasing`, `IsDigits`, `FoldsNames`, `Framed`, `IsBucket`,
-- `IsMultipart`, `IsValueCache`), and Tests has an instance of each.
--
-- Not modelled: the rest of the HTTP layer and of the settings, migrations, archives,
-- thumbnails and metadata, which are glue, input and output or calls of libraries; and
-- for now the look-up of the current user. Requests run one after the other, and what is scheduled in
-- the background is done at once.
pub mod Api
pub mod Base
pub mod Auth
pub mod OsPath
pub mod FilePath
pub mod Files
pub mod Blobs
pub mod Photos
pub mod Users
pub mod Requests
pub mod FileSystem
pub mod Registration
pub mod S3
pub mod Config
pub mod Sharing
pub mod Audit
mod Tests
