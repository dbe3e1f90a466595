-- ===== src/Tests/Requests.antt =====
-- Requests on texts of ASCII characters.
use shelf_back.Base.{◌≡◌, refl, true, not, ◌&&◌, [], ◌∷◌, any, arith}
use shelf_back.Base.Text.{Text, codes, text_eq, has_prefix, decimal, decimal_onto}
use shelf_back.Base.Exec.{ok}
use shelf_back.OsPath.{normpath, join, split, collapse, push, rev_onto, joined, initial_slashes}
use shelf_back.OsPath.Climbs.{climbs}
use shelf_back.FilePath.{casefold, path_of, is_relative_to}
use shelf_back.Files.NamespaceUseCase.{is_special}
use shelf_back.Files.Core.{storage_key}
use shelf_back.FileSystem.Confined.{IsPlainKey}
use shelf_back.Requests.{
  normalize, create_folder_request, delete_immediately_request, move_request, move_to_trash_request,
}
use shelf_back.Requests.Guards.{FoldsNames, asserted, validators_meet_assertions}
use shelf_back.Requests.Climbing.{climbing_path_is_accepted, accepted_path-IsPlainKey}
use shelf_back.Tests.FilePath.{ascii}
use shelf_back.Tests.Files.{ascii_env}

abbrev strip : Text → Text
strip s = s

ascii_dot_only : (v : Text) → casefold ascii v ≡ codes "." → v ≡ codes "."
unfolding casefold
ascii_dot_only [] h = cc
ascii_dot_only (c ∷ []) h = ground (arith, h)
ascii_dot_only (c ∷ d ∷ v) h = ground (arith, h)

ascii-FoldsNames : FoldsNames ascii
unfolding casefold
ascii-FoldsNames = record {
  dot = refl;
  dot_only = ascii_dot_only;
  trash = refl;
  trash_again = refl;
}

climbing_path_is_accepted_example :
    (q : Text) × (normalize strip (codes "a/../../x") ≡ ok q) × (climbs q ≡ true)
unfolding has_prefix any text_eq
climbing_path_is_accepted_example =
    climbing_path_is_accepted strip (codes "a") (codes "x") refl refl refl refl

accepted_path-IsPlainKey_example : IsPlainKey (storage_key ascii_env 7 (codes "Docs"))
unfolding normalize has_prefix any text_eq normpath split collapse push rev_onto joined
    initial_slashes climbs decimal decimal_onto
accepted_path-IsPlainKey_example =
    accepted_path-IsPlainKey ascii_env strip 7 (codes "a/../Docs") (codes "Docs") refl refl refl
      refl

validators_meet_assertions_example :
    (asserted
        (λ q. not (is_special ascii_env (path_of q)))
        (create_folder_request strip ascii (codes "./Trash"))
      ≡ create_folder_request strip ascii (codes "./Trash"))
    × (asserted
          (λ q. not (is_special ascii_env (path_of q)))
          (delete_immediately_request strip ascii (codes "./Trash"))
        ≡ delete_immediately_request strip ascii (codes "./Trash"))
    × (asserted
          (λ r.
            not (is_special ascii_env (path_of r.from_path))
            && (not (is_special ascii_env (path_of r.to_path))
                && not (is_relative_to ascii (path_of r.to_path) (codes "trash"))))
          (move_request strip ascii (casefold ascii) (codes "./Trash") (codes "b"))
        ≡ move_request strip ascii (casefold ascii) (codes "./Trash") (codes "b"))
    × (asserted
          (λ q. not (is_relative_to ascii (path_of q) (codes "trash")))
          (move_to_trash_request strip ascii (codes "./Trash"))
        ≡ move_to_trash_request strip ascii (codes "./Trash"))
validators_meet_assertions_example =
    validators_meet_assertions ascii_env ascii-FoldsNames strip (codes "./Trash") (codes "b")

-- The storage key of a path that a request is given for "a/../../../../x" leads out of the storage.
escapes :
    (normalize strip (codes "a/../../../../x") ≡ ok (codes "../../../x"))
    × (climbs (storage_key ascii_env 7 (codes "../../../x")) ≡ true)
unfolding normalize has_prefix any text_eq normpath split collapse push rev_onto joined
    initial_slashes climbs decimal decimal_onto storage_key join
escapes = (refl, refl)
