-- ===== src/Users/Bookmarks/Sets.antt =====
-- What bookmarks a user has: app/app/users/services/bookmark.py.
use shelf_back.Base.{ℕ, Bool, List, map, any, all}
use shelf_back.Users.Bookmarks.{Bookmark, BookmarkDb, is_for, bookmark_of, refers}

-- The user has bookmarked the file.
unfoldable pub has_bookmark : List Bookmark → ℕ → ℕ → Bool
has_bookmark rows user_id file_id = any (is_for user_id file_id) rows

-- The user and all of the files are there.
abbrev pub are_present : BookmarkDb → ℕ → List ℕ → Bool
are_present db user_id ids = all (refers db) (map (bookmark_of user_id) ids)
