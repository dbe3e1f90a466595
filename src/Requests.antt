-- ===== src/Requests.antt =====
-- The paths of a request, app/api/files/schemas.py: `_normalize` and the validators of the request
-- models. What they raise ends the request, so that they are functions into a result.
pub mod Guards
pub mod Climbing
use shelf_back.Base.{
  ℕ, ◌≡◌, Bool, true, false, not, ◌&&◌, ◌||◌, List, [], ◌∷◌, ◌++◌, any, if◌then◌else◌, is_nil,
}
use shelf_back.Base.Text.{Text, codes, text_eq, has_prefix}
use shelf_back.Base.Exec.{Result, ok, err, malformed_path, file_already_deleted}
use shelf_back.OsPath.{normpath}
use shelf_back.FilePath.{Casing, casefold}

-- The value, if it passes the test.
abbrev pub check {ℓ} : {A B : Type ℓ} → Result A → (A → Result B) → Result B
check (ok a) f = f a
check (err e) f = err e

-- `symbols`
abbrev pub symbols : List Text
symbols = codes ".." ∷ codes "~" ∷ codes "/" ∷ []

-- `_normalize`; `strip` is `str.strip`.
unfoldable pub normalize : (Text → Text) → Text → Result Text
normalize strip path =
    if is_nil (strip path)
    then err malformed_path
    else if any (λ symbol. has_prefix symbol path) symbols
    then err malformed_path
    else ok (normpath path)

-- `MoveRequest`
pub record MoveRequest : Type 0 where
  pub from_path : Text
  pub to_path : Text

module _ (C : Casing) where
  -- `value.casefold() in {".", "trash"}`
  unfoldable pub is_special_text : Text → Bool
  is_special_text value =
      text_eq (casefold C value) (codes ".") || text_eq (casefold C value) (codes "trash")

  -- `value.casefold().startswith("trash/")`
  unfoldable pub in_trash : Text → Bool
  in_trash value = has_prefix (codes "trash/") (casefold C value)

  -- `CreateFolderRequest.check_path_is_not_special`
  unfoldable pub may_be_created : Text → Result Text
  may_be_created value =
      if is_special_text value
      then err malformed_path
      else if in_trash value
      then err malformed_path
      else ok value

  -- `DeleteImmediatelyRequest.check_path_is_not_special`
  unfoldable pub may_be_deleted : Text → Result Text
  may_be_deleted value = if is_special_text value then err malformed_path else ok value

  -- `MoveRequest.path_should_not_be_home_or_trash_folders`
  unfoldable pub not_home_or_trash : Text → Result Text
  not_home_or_trash value =
      if text_eq value (codes ".") || text_eq (casefold C value) (codes "trash")
      then err malformed_path
      else ok value

  -- `MoveRequest.to_path_should_not_be_inside_trash_folder`
  unfoldable pub not_inside_trash : Text → Result Text
  not_inside_trash value = if in_trash value then err malformed_path else ok value

  -- `MoveToTrashRequest.check_path_is_not_trash`
  unfoldable pub not_trash : Text → Result Text
  not_trash value =
      if text_eq (casefold C value) (codes "trash")
      then err malformed_path
      else if in_trash value
      then err file_already_deleted
      else ok value

-- `MoveRequest.check_path_does_not_contain_itself`; `lower` is `str.lower`.
unfoldable pub not_into_itself : (Text → Text) → MoveRequest → Result MoveRequest
not_into_itself lower r =
    if has_prefix (lower r.from_path ++ codes "/") (lower r.to_path)
    then err malformed_path
    else ok r

module _ (strip : Text → Text) (C : Casing) where
  -- `CreateFolderRequest`
  unfoldable pub create_folder_request : Text → Result Text
  create_folder_request path = check (normalize strip path) (may_be_created C)

  -- `DeleteImmediatelyRequest`
  unfoldable pub delete_immediately_request : Text → Result Text
  delete_immediately_request path = check (normalize strip path) (may_be_deleted C)

  -- `MoveRequest` with its validators, in the order pydantic runs them.
  unfoldable pub move_request : (Text → Text) → Text → Text → Result MoveRequest
  move_request lower from_text to_text =
      check (check (normalize strip from_text) (not_home_or_trash C)) (λ from_path.
        check (check (check (normalize strip to_text) (not_home_or_trash C)) (not_inside_trash C))
          (λ to_path. not_into_itself lower (record { from_path = from_path; to_path = to_path })))

  -- `MoveToTrashRequest`
  unfoldable pub move_to_trash_request : Text → Result Text
  move_to_trash_request path = check (normalize strip path) (not_trash C)
