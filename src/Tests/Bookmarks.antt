-- ===== src/Tests/Bookmarks.antt =====
-- Bookmarks of two users.
use shelf_back.Base.{[], ◌∷◌}
use shelf_back.Users.Bookmarks.{BookmarkDb}
use shelf_back.Tests.Files.{home}

abbrev marked : BookmarkDb
marked = record {
  core = home;
  users = 7 ∷ 8 ∷ [];
  bookmarks = record { user_id = 7; file_id = 12 } ∷ record { user_id = 8; file_id = 13 } ∷ [];
}
