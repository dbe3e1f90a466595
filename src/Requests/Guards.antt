-- ===== src/Requests/Guards.antt =====
-- The validators of app/api/files/schemas.py and the assertions of `NamespaceUseCase` in
-- app/app/files/usecases/namespace.py.
use shelf_back.Base.{
  ◌≡◌, ◌≢◌, refl, sym, Bool, true, false, not, ◌&&◌, inl, inr, ◌++◌, if◌then◌else◌, arith,
  Bool-cases,
}
use shelf_back.Base.Text.{Text, codes, text_eq, has_prefix, eq_of_text_eq, text_eq_refl}
use shelf_back.Base.Exec.{Result, ok, err, assertion_error}
use shelf_back.OsPath.{normpath}
use shelf_back.OsPath.Normal.{normpath-normpath}
use shelf_back.OsPath.{initial_slashes, collapse, push, split, joined, rev_onto}
use shelf_back.FilePath.{Casing, path_of, casefold, path_eq, path_eq_str, is_relative_to}
use shelf_back.Files.Model.{Env}
use shelf_back.Files.NamespaceUseCase.{is_special}
use shelf_back.Requests.{
  check, normalize, MoveRequest, is_special_text, in_trash, may_be_created, may_be_deleted,
  not_home_or_trash, not_inside_trash, not_trash, not_into_itself, create_folder_request,
  delete_immediately_request, move_request, move_to_trash_request,
}

-- A check that gave `b` was given something, and what it was given passed.
check_ok :
    {A B : Type 0} (r : Result A) (f : A → Result B) (b : B)
    → check r f ≡ ok b
    → (a : A) × (r ≡ ok a) × (f a ≡ ok b)
check_ok (ok a) f b h = (a, refl, h)
check_ok (err e) f b h = cc

normalize-eq : (strip : Text → Text) (p q : Text) → normalize strip p ≡ ok q → normpath p ≡ q
unfolding normalize
normalize-eq strip p q h = ground (arith, h)

normalize-normpath : (strip : Text → Text) (p q : Text) → normalize strip p ≡ ok q → normpath q ≡ q
normalize-normpath strip p q h = rw (sym (normalize-eq strip p q h)) (normpath-normpath p)

module _ (C : Casing) where
  may_be_created-eq :
      (v q : Text) → may_be_created C v ≡ ok q → (v ≡ q) × (is_special_text C v ≡ false)
  unfolding may_be_created
  may_be_created-eq v q h = (ground (arith, h), ground (arith, h))

  may_be_deleted-eq :
      (v q : Text) → may_be_deleted C v ≡ ok q → (v ≡ q) × (is_special_text C v ≡ false)
  unfolding may_be_deleted
  may_be_deleted-eq v q h = (ground (arith, h), ground (arith, h))

  not_home_or_trash-eq :
      (v q : Text)
      → not_home_or_trash C v ≡ ok q
      → (v ≡ q) × (text_eq v (codes ".") ≡ false) × (text_eq (casefold C v) (codes "trash") ≡ false)
  unfolding not_home_or_trash
  not_home_or_trash-eq v q h = (ground (arith, h), ground (arith, h), ground (arith, h))

  not_inside_trash-eq :
      (v q : Text) → not_inside_trash C v ≡ ok q → (v ≡ q) × (in_trash C v ≡ false)
  unfolding not_inside_trash
  not_inside_trash-eq v q h = (ground (arith, h), ground (arith, h))

  not_trash-eq :
      (v q : Text)
      → not_trash C v ≡ ok q
      → (v ≡ q) × (text_eq (casefold C v) (codes "trash") ≡ false) × (in_trash C v ≡ false)
  unfolding not_trash
  not_trash-eq v q h = (ground (arith, h), ground (arith, h), ground (arith, h))

not_into_itself-eq :
    (lower : Text → Text) (r q : MoveRequest)
    → not_into_itself lower r ≡ ok q
    → (r ≡ q) × (has_prefix (lower r.from_path ++ codes "/") (lower r.to_path) ≡ false)
unfolding not_into_itself
not_into_itself-eq lower r q h = (ground (arith, h), ground (arith, h))

-- `casefold` makes of the two special names what the validators compare with.
pub record FoldsNames (C : Casing) : Type 0 where
  pub dot : casefold C (codes ".") ≡ codes "."
  pub dot_only : (v : Text) → casefold C v ≡ codes "." → v ≡ codes "."
  pub trash : casefold C (codes "Trash") ≡ codes "trash"
  pub trash_again : casefold C (codes "trash") ≡ codes "trash"

normpath-names :
    (normpath (codes ".") ≡ codes ".")
    × (normpath (codes "Trash") ≡ codes "Trash")
    × (normpath (codes "trash") ≡ codes "trash")
unfolding normpath initial_slashes collapse push split joined rev_onto has_prefix text_eq
normpath-names = (refl, refl, refl)

-- The request, once an assertion has been made of what it gives.
abbrev pub asserted : {A : Type 0} → (A → Bool) → Result A → Result A
asserted holds r = check r (λ q. if holds q then ok q else err assertion_error)

asserted_lem :
    {A : Type 0} (holds : A → Bool) (r : Result A)
    → ((q : A) → r ≡ ok q → holds q ≡ true)
    → asserted holds r ≡ r
asserted_lem holds (ok q) h = rw (h q refl) refl
asserted_lem holds (err e) h = refl

not_dot : (v : Text) → text_eq v (codes ".") ≡ false → v ≢ codes "."
not_dot v h e = let same = text_eq_refl (codes ".") in cc

module _ (V : Env) (F : FoldsNames V.casing) where
  is_special-eq :
      (v : Text) → normpath v ≡ v → is_special V (path_of v) ≡ is_special_text V.casing v
  unfolding is_special is_special_text path_eq
  is_special-eq v e = rw (e, normpath-names.0, normpath-names.1, F.dot, F.trash) refl

  is_special_text-eq :
      (v : Text)
      → text_eq v (codes ".") ≡ false
      → text_eq (casefold V.casing v) (codes "trash") ≡ false
      → is_special_text V.casing v ≡ false
  unfolding is_special_text
  is_special_text-eq v h k = elim (Bool-cases (text_eq (casefold V.casing v) (codes "."))) [
    | inl e ↦ absurd (not_dot v h (F.dot_only v (eq_of_text_eq _ _ e)))
    | inr e ↦ rw (e, k) refl
  ]

  in_trash-eq :
      (v : Text)
      → normpath v ≡ v
      → text_eq (casefold V.casing v) (codes "trash") ≡ false
      → in_trash V.casing v ≡ false
      → is_relative_to V.casing (path_of v) (codes "trash") ≡ false
  unfolding in_trash is_relative_to path_eq_str text_eq
  in_trash-eq v e h k = rw (e, normpath-names.2, F.trash_again, h, k) refl

  module _ (strip : Text → Text) where
    created :
        (p q : Text)
        → create_folder_request strip V.casing p ≡ ok q
        → not (is_special V (path_of q)) ≡ true
    unfolding create_folder_request
    created p q h =
        let (v, n, k) = check_ok _ _ q h in
        let (same, plain) = may_be_created-eq V.casing v q k in
        rw (sym same, is_special-eq v (normalize-normpath strip p v n), plain) refl

    deleted :
        (p q : Text)
        → delete_immediately_request strip V.casing p ≡ ok q
        → not (is_special V (path_of q)) ≡ true
    unfolding delete_immediately_request
    deleted p q h =
        let (v, n, k) = check_ok _ _ q h in
        let (same, plain) = may_be_deleted-eq V.casing v q k in
        rw (sym same, is_special-eq v (normalize-normpath strip p v n), plain) refl

    -- The value that passes the first validator of `MoveRequest`
    movable :
        (p q : Text)
        → check (normalize strip p) (not_home_or_trash V.casing) ≡ ok q
        → (normpath q ≡ q)
          × (is_special_text V.casing q ≡ false)
          × (text_eq (casefold V.casing q) (codes "trash") ≡ false)
    movable p q h =
        let (v, n, k) = check_ok _ _ q h in
        let (same, dot, trash) = not_home_or_trash-eq V.casing v q k in
        rw (sym same) (normalize-normpath strip p v n, is_special_text-eq v dot trash, trash)

    -- Neither path is the home or the Trash, and the target is not inside the Trash.
    abbrev may_move : MoveRequest → Bool
    may_move r =
        not (is_special V (path_of r.from_path))
        && (not (is_special V (path_of r.to_path))
            && not (is_relative_to V.casing (path_of r.to_path) (codes "trash")))

    moved :
        (p t : Text) (r : MoveRequest)
        → move_request strip V.casing V.lower p t ≡ ok r
        → may_move r ≡ true
    unfolding move_request
    moved p t r h =
        let (from_path, n, h2) = check_ok _ _ r h in
        let (to_path, m, h3) = check_ok _ _ r h2 in
        let (v, m2, m3) = check_ok _ _ to_path m in
        let (same, outside) = not_inside_trash-eq V.casing v to_path m3 in
        let (result, _) = not_into_itself-eq V.lower _ r h3 in
        let (normal, plain, _) = movable p from_path n in
        let (normal2, plain2, trash2) = movable t v m2 in
        rw
          (
            sym result,
            sym same,
            is_special-eq from_path normal,
            plain,
            is_special-eq v normal2,
            plain2,
            in_trash-eq v normal2 trash2 outside,
          )
          refl

    trashed :
        (p q : Text)
        → move_to_trash_request strip V.casing p ≡ ok q
        → not (is_relative_to V.casing (path_of q) (codes "trash")) ≡ true
    unfolding move_to_trash_request
    trashed p q h =
        let (v, n, k) = check_ok _ _ q h in
        let (same, trash, outside) = not_trash-eq V.casing v q k in
        rw (sym same, in_trash-eq v (normalize-normpath strip p v n) trash outside) refl

    -- Given that casefolding makes "." and "trash" of the special names and "." of no other text: a path
    -- that the request of a new folder or of a deletion gives passes the assertion of the use case on
    -- special paths; so do both paths of a move, whose target is outside the Trash; and a path that a
    -- move to the Trash gives is outside it.
    pub validators_meet_assertions :
        (p t : Text)
        → (asserted (λ q. not (is_special V (path_of q))) (create_folder_request strip V.casing p)
            ≡ create_folder_request strip V.casing p)
          × (asserted
                (λ q. not (is_special V (path_of q)))
                (delete_immediately_request strip V.casing p)
              ≡ delete_immediately_request strip V.casing p)
          × (asserted
                (λ r.
                  not (is_special V (path_of r.from_path))
                  && (not (is_special V (path_of r.to_path))
                      && not (is_relative_to V.casing (path_of r.to_path) (codes "trash"))))
                (move_request strip V.casing V.lower p t)
              ≡ move_request strip V.casing V.lower p t)
          × (asserted
                (λ q. not (is_relative_to V.casing (path_of q) (codes "trash")))
                (move_to_trash_request strip V.casing p)
              ≡ move_to_trash_request strip V.casing p)
    validators_meet_assertions p t = (
      asserted_lem _ _ (created p),
      asserted_lem _ _ (deleted p),
      asserted_lem _ _ (moved p t),
      asserted_lem _ _ (trashed p),
    )
