-- ===== src/Tests/Batch.antt =====
-- Batches on a site of two accounts.
use shelf_back.Base.{List, [], ◌∷◌}
use shelf_back.Base.Text.{Text, codes}
use shelf_back.Files.NamespaceUseCase.{Site}
use shelf_back.Files.Batch.{delete_immediately_batch, move_batch, move_to_trash_batch}
use shelf_back.Files.Batch.Trace.{NoTrace, batches-NoTrace}
use shelf_back.Tests.Files.{ascii_env, home}

abbrev site : Site
site = record { core = home; accounts = []; processing = []; trail = [] }

abbrev paths : List Text
paths = codes "nothing" ∷ codes "b.txt" ∷ []

abbrev moves : List (Text × Text)
moves = (codes "nothing", codes "c.txt") ∷ (codes "b.txt", codes "Docs/b.txt") ∷ []

abbrev trashed : List (Text × Text)
trashed = (codes "120000", codes "nothing") ∷ (codes "120001", codes "Docs") ∷ []

batches-NoTrace_example :
    NoTrace (delete_immediately_batch ascii_env (codes "admin")) paths site
    × NoTrace (move_batch ascii_env 0 7 (codes "admin")) moves site
    × NoTrace (move_to_trash_batch ascii_env 0 7 (codes "admin")) trashed site
batches-NoTrace_example = batches-NoTrace ascii_env (codes "admin") 0 7 paths moves trashed site
