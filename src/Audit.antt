-- ===== src/Audit.antt =====
-- The audit trail: app/app/audit/services/audit.py and
-- app/infrastructure/database/tortoise/repositories/audit.py. The table of action names, which
-- `get_or_create` fills, is the type `Action`. The current user comes as `user_id`.
use shelf_back.Base.{ℕ, Option, none, some, List, [], ◌∷◌, ◌++◌}
use shelf_back.Files.Model.{File}

-- `AuditTrailAction`
pub data Action : Type 0 where
  file_added file_moved file_trashed folder_created trash_emptied user_signed_in : Action

-- `models.AuditTrail` with its `AuditTrailAsset`
pub record AuditTrail : Type 0 where
  pub action : Action
  pub user_id : ℕ
  pub asset : Option ℕ
  pub created_at : ℕ

-- `_track_file_action` and `_track_user_action`, each with `AuditTrailRepository.save`: one more row.
unfoldable pub track_file_action : Action → ℕ → ℕ → File → List AuditTrail → List AuditTrail
track_file_action action now user_id file trail =
    trail
    ++ (record { action = action; user_id = user_id; asset = some file.id; created_at = now } ∷ [])

unfoldable pub track_user_action : Action → ℕ → ℕ → List AuditTrail → List AuditTrail
track_user_action action now user_id trail =
    trail ++ (record { action = action; user_id = user_id; asset = none; created_at = now } ∷ [])
