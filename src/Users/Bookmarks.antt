-- ===== src/Users/Bookmarks.antt =====
-- Bookmarks: app/app/users/services/bookmark.py, its repository in
-- app/infrastructure/database/tortoise/repositories/bookmark.py, and the methods on bookmarks of
-- `UserUseCase`, app/app/users/usecases/user.py.
pub mod Sets
use shelf_back.Base.{
  ℕ, ◌≡◌, Bool, not, ◌&&◌, Option, none, some, List, [], ◌∷◌, ◌++◌, map, ◌==◌, if◌then◌else◌,
  keep_if, contains, any, all,
}
use shelf_back.Base.Exec.{
  Exec, Result, ok, err, pure, gets, modify, guard, integrity_error, continue, ◌>>=◌, ◌>>◌,
}
use shelf_back.Files.Model.{Env, Db, File}
use shelf_back.Files.Namespaces
use shelf_back.Files.FileService

-- `models.Bookmark`, and the domain's `Bookmark`
pub record Bookmark : Type 0 where
  pub user_id : ℕ
  pub file_id : ℕ

-- The database of the files, with the identifiers of the users, and the bookmarks in the order of their
-- identifiers.
pub record BookmarkDb : Type 0 where
  pub core : Db
  pub users : List ℕ
  pub bookmarks : List Bookmark

abbrev pub is_for : ℕ → ℕ → Bookmark → Bool
is_for user_id file_id b = b.user_id == user_id && (b.file_id == file_id)

-- One row of `bulk_create` with `ignore_conflicts=True`: a pair that is there stays.
unfoldable pub insert : Bookmark → List Bookmark → List Bookmark
insert b rows = if any (is_for b.user_id b.file_id) rows then rows else rows ++ (b ∷ [])

-- `BookmarkRepository.save_batch`
unfoldable pub save_batch : List Bookmark → List Bookmark → List Bookmark
save_batch [] rows = rows
save_batch (b ∷ bookmarks) rows = save_batch bookmarks (insert b rows)

-- `BookmarkRepository.delete_batch`
unfoldable pub delete_batch : ℕ → List ℕ → List Bookmark → List Bookmark
delete_batch user_id file_ids rows =
    keep_if (λ b. not (b.user_id == user_id && contains file_ids b.file_id)) rows

-- `BookmarkRepository.list_all`
unfoldable pub list_all : ℕ → List Bookmark → List Bookmark
list_all user_id rows = keep_if (λ b. b.user_id == user_id) rows

-- `BookmarkService.add_batch`
abbrev pub bookmark_of : ℕ → ℕ → Bookmark
bookmark_of user_id file_id = record { user_id = user_id; file_id = file_id }

-- The foreign keys of `models.Bookmark`: the user and the file are there.
unfoldable pub refers : BookmarkDb → Bookmark → Bool
refers db b = contains db.users b.user_id && any (λ r. r.id == b.file_id) db.core.files

unfoldable pub add_batch : ℕ → List ℕ → Exec BookmarkDb Unit
add_batch user_id file_ids = do
  let entries = map (bookmark_of user_id) file_ids
  present ← gets (λ db. all (refers db) entries)
  guard present integrity_error
  modify (λ db. record db { bookmarks = save_batch entries db.bookmarks })

-- `BookmarkService.list_bookmarks` and `UserUseCase.list_bookmarks`
unfoldable pub list_bookmarks : ℕ → Exec BookmarkDb (List Bookmark)
list_bookmarks user_id = gets (λ db. list_all user_id db.bookmarks)

-- `BookmarkService.remove_batch` and `UserUseCase.remove_bookmark_batch`
unfoldable pub remove_batch : ℕ → List ℕ → Exec BookmarkDb Unit
remove_batch user_id file_ids =
    modify (λ db. record db { bookmarks = delete_batch user_id file_ids db.bookmarks })

abbrev pub in_core : {A : Type 0} → Exec Db A → Exec BookmarkDb A
in_core m db = let (r, core) = m db.core in (r, record db { core = core })

-- `UserUseCase.add_bookmark_batch`
unfoldable pub add_bookmark_batch : Env → ℕ → List ℕ → Exec BookmarkDb Unit
add_bookmark_batch V user_id file_ids = do
  namespace ← in_core (Namespaces.get_by_owner_id user_id)
  files ← in_core (FileService.get_by_id_batch V namespace.path file_ids)
  add_batch user_id (map (λ f. f.id) files)
