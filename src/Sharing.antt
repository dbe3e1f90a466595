-- ===== src/Sharing.antt =====
-- Shared links: app/app/files/services/sharing.py, usecases/sharing.py and
-- app/infrastructure/database/tortoise/repositories/shared_link.py. A file has one link at most, and a
-- token is unique. The random token and the clock are arguments.
pub mod Links
use shelf_back.Base.{
  ℕ, ◌+◌, ◌≡◌, Bool, true, false, not, ◌&&◌, ◌||◌, List, [], ◌∷◌, ◌++◌, ◌==◌, if◌then◌else◌,
  keep_if, any, ltb, sort_by, take, drop,
}
use shelf_back.Base.Text.{Text, text_eq}
use shelf_back.Base.Exec.{
  Exec, Result, ok, err, Error, shared_link_not_found, file_not_found, file_action_not_allowed,
  multiple_objects_returned, pure, raise, gets, modify, guard, lift, one_of, not_found_as, continue,
  ◌>>=◌, ◌>>◌,
}
use shelf_back.Files.Model.{Env, Db, File}
use shelf_back.Files.Repository
use shelf_back.Files.Repository.{in_ns}

-- `models.SharedLink`, and the domain's `SharedLink`
pub record SharedLink : Type 0 where
  pub id : ℕ
  pub file_id : ℕ
  pub token : Text
  pub created_at : ℕ

-- The tables of the files and that of the links.
pub record LinkDb : Type 0 where
  pub core : Db
  pub links : List SharedLink

abbrev of_file : ℕ → SharedLink → Bool
of_file file_id l = l.file_id == file_id

abbrev pub has_token : Text → SharedLink → Bool
has_token token l = text_eq l.token token

-- `SharedLinkRepository`
unfoldable pub delete : Text → Exec LinkDb Unit
delete token = modify (λ db. record db { links = keep_if (λ l. not (has_token token l)) db.links })

unfoldable pub get_by_file_id : ℕ → Exec LinkDb SharedLink
get_by_file_id file_id db =
    lift (not_found_as shared_link_not_found (one_of (keep_if (of_file file_id) db.links))) db

unfoldable pub get_by_token : Text → Exec LinkDb SharedLink
get_by_token token db =
    lift (not_found_as shared_link_not_found (one_of (keep_if (has_token token) db.links))) db

abbrev latest_first : SharedLink → SharedLink → Bool
latest_first l m = ltb m.created_at l.created_at

unfoldable pub list_by_ns : Text → ℕ → ℕ → Exec LinkDb (List SharedLink)
list_by_ns ns_path offset limit = gets (λ db. take limit (
    drop offset (
      sort_by latest_first (
        keep_if (λ l. any (λ r. r.id == l.file_id && in_ns db.core ns_path r) db.core.files)
          db.links))))

module _ (V : Env) where
  -- `models.SharedLink.create`: an `IntegrityError`, for a token that is taken or a file that is not
  -- there, becomes `File.NotFound`.
  unfoldable pub insert : SharedLink → Exec LinkDb SharedLink
  insert link db =
      if any (has_token link.token) db.links || not (any (λ r. r.id == link.file_id) db.core.files)
      then (err file_not_found, db)
      else let saved = record link { id = V.uuid db.core.drawn } in
        (
          ok saved,
          record db {
            links = db.links ++ (saved ∷ []);
            core = record db.core { drawn = db.core.drawn + 1 };
          },
        )

  -- What `save` does with the links that the file has.
  unfoldable pub save_beside : List SharedLink → SharedLink → Exec LinkDb SharedLink
  save_beside [] link = insert link
  save_beside (l ∷ []) link = pure l
  save_beside (_ ∷ _ ∷ _) link = raise multiple_objects_returned

  unfoldable pub save : SharedLink → Exec LinkDb SharedLink
  save link db = save_beside (keep_if (of_file link.file_id) db.links) link db

  -- `SharingService.create_link`
  unfoldable pub create_link : ℕ → Text → ℕ → Exec LinkDb SharedLink
  create_link now token file_id =
      save (record { id = 0; file_id = file_id; token = token; created_at = now })

-- `SharingService.revoke_link`
unfoldable pub revoke_link : Text → Exec LinkDb Unit
revoke_link token = delete token

-- A method that reads and writes the core tables only
abbrev pub in_core : {A : Type 0} → Exec Db A → Exec LinkDb A
in_core m db = let (r, core) = m db.core in (r, record db { core = core })

-- `FileService.get_by_id`
unfoldable pub get_file : Text → ℕ → Exec LinkDb File
get_file ns_path file_id = do
  file ← in_core (Repository.get_by_id file_id)
  if not (text_eq file.ns_path ns_path) then raise file_not_found else pure file

-- `SharingUseCase.create_link`: `enabled` is the setting, and `is_superuser` looks up the user.
unfoldable pub share :
    Env → Bool → (Text → Result Bool) → ℕ → Text → Text → ℕ → Exec LinkDb SharedLink
share V enabled is_superuser now token ns_path file_id = do
  allowed ← (if enabled then pure true else lift (is_superuser ns_path))
  guard allowed file_action_not_allowed
  file ← get_file ns_path file_id
  create_link V now token file.id

-- `SharingUseCase.get_link`
unfoldable pub get_link : Text → ℕ → Exec LinkDb SharedLink
get_link ns_path file_id = do file ← get_file ns_path file_id; get_by_file_id file.id

-- `SharingUseCase.get_shared_item`
unfoldable pub get_shared_item : Text → Exec LinkDb File
get_shared_item token = do link ← get_by_token token; in_core (Repository.get_by_id link.file_id)
