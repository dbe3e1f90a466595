-- ===== src/Tests/FileSystem.antt =====
-- A file system that only records which paths it was asked to change.
use shelf_back.Base.{◌≡◌, refl, Bool, true, false, ◌||◌, List, [], ◌∷◌, all}
use shelf_back.Base.Int.{pos}
use shelf_back.Base.Text.{Text, codes, text_eq, has_prefix}
use shelf_back.Base.Exec.{ok}
use shelf_back.OsPath.{normpath, split, collapse, push, rev_onto, joined, initial_slashes}
use shelf_back.OsPath.Normal.{IsNormal}
use shelf_back.OsPath.Climbs.{climbs}
use shelf_back.OsPath.Inside.{Inside}
use shelf_back.Blobs.{Content}
use shelf_back.FileSystem.{
  DirEntry, emptydir, Os, delete, delete_batch, deletedir, makedirs, move, movedir, save,
}
use shelf_back.FileSystem.Confined.{EntriesInside, IsPlainKey, Framed, storage_stays_inside}

abbrev recorder : Os
recorder = record {
  State = List Text;
  isdir = λ path s. false;
  exists = λ path s. false;
  lstat = λ path s. ok (record { size = 5; mtime = 0 });
  scandir = λ path s. ok [];
  read = λ path s. ok [];
  unlink = λ path s. (ok tt, path ∷ s);
  rmtree = λ path s. (ok tt, path ∷ s);
  makedirs = λ path s. (ok tt, path ∷ s);
  move = λ path to_path s. (ok tt, path ∷ to_path ∷ s);
  write = λ path content s. (ok tt, path ∷ s);
}

abbrev folder : Text
folder = codes "/srv/files"

abbrev is_inside : Text → Bool
is_inside path = text_eq path folder || has_prefix (codes "/srv/files/") path

abbrev AllInside : List Text → Type 0
AllInside s = all is_inside s ≡ true

all-cons : (path : Text) (s : List Text) → Inside folder path → AllInside s → AllInside (path ∷ s)
unfolding all
all-cons path s (_, h) k = rw (h, k) refl

none_listed : (entries : List DirEntry) → ok [] ≡ ok entries → EntriesInside folder entries
none_listed [] e = tt
none_listed (entry ∷ entries) e = cc

recorder-Framed : Framed recorder AllInside folder
recorder-Framed = record {
  scandir = λ path s entries h e. none_listed entries e;
  unlink = λ path h. record { at = λ s p. all-cons path s h p };
  rmtree = λ path h. record { at = λ s p. all-cons path s h p };
  makedirs = λ path h. record { at = λ s p. all-cons path s h p };
  move = λ path to_path h k. record {
    at = λ s p. all-cons path (to_path ∷ s) h (all-cons to_path s k p);
  };
  write = λ path content h. record { at = λ s p. all-cons path s h p };
}

folder-IsNormal : IsNormal true (codes "srv" ∷ codes "files" ∷ [])
unfolding rev_onto text_eq
folder-IsNormal = (refl, refl, (refl, refl, tt))

note : Content
note = record { size = pos 5; chash = codes "h"; media_type = λ _. codes "text/plain" }

key-IsPlainKey : IsPlainKey (codes "7/files/../b.txt")
unfolding climbs normpath split collapse push rev_onto joined initial_slashes text_eq has_prefix
key-IsPlainKey = (refl, refl)

storage_stays_inside_example :
    AllInside (delete recorder folder (codes "7/files/../b.txt") []).1
    × AllInside (delete_batch recorder folder (codes "7/files/../b.txt" ∷ []) []).1
    × AllInside (deletedir recorder folder (codes "7/files/../b.txt") []).1
    × AllInside (emptydir recorder folder (codes "7/files/../b.txt") []).1
    × AllInside (makedirs recorder folder (codes "7/files/../b.txt") []).1
    × AllInside (move recorder folder (codes "7/files/../b.txt") (codes "7/files/../b.txt") []).1
    × AllInside (movedir recorder folder (codes "7/files/../b.txt") (codes "7/files/../b.txt") []).1
    × AllInside (save recorder folder (codes "7/files/../b.txt") note []).1
unfolding joined all
storage_stays_inside_example =
    storage_stays_inside (codes "srv") (codes "files" ∷ []) folder-IsNormal recorder AllInside
      recorder-Framed (codes "7/files/../b.txt") (codes "7/files/../b.txt")
      (codes "7/files/../b.txt" ∷ []) note [] key-IsPlainKey key-IsPlainKey (key-IsPlainKey, tt)
      refl
