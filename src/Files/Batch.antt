-- ===== src/Files/Batch.antt =====
-- The jobs of the worker on files, app/worker/jobs/files.py. Each entry of a batch is tried by itself;
-- the logger is left out. An exception other than those of the program's files counts as internal.
pub mod Trace
use shelf_back.Base.{ℕ, ◌≡◌, Option, none, some, List, [], ◌∷◌}
use shelf_back.Base.Text.{Text}
use shelf_back.Base.Exec.{
  Exec, Result, ok, err, Error, file_action_not_allowed, file_already_exists, file_not_found,
  file_too_large, is_a_directory, malformed_path, missing_parent, not_a_directory, attempt, pure,
  gets, continue, ◌>>=◌, ◌>>◌,
}
use shelf_back.Files.Model.{Env, File}
use shelf_back.Files.NamespaceUseCase.{Site}
use shelf_back.Files.NamespaceUseCase as NamespaceUseCase

-- `ErrorCode`; the other codes are those of the program's exceptions.
pub data ErrorCode : Type 0 where
  internal : ErrorCode
  code_of : Error → ErrorCode

unfoldable pub exc_to_err_code : Error → ErrorCode
exc_to_err_code file_action_not_allowed = code_of file_action_not_allowed
exc_to_err_code file_already_exists = code_of file_already_exists
exc_to_err_code file_not_found = code_of file_not_found
exc_to_err_code file_too_large = code_of file_too_large
exc_to_err_code is_a_directory = code_of is_a_directory
exc_to_err_code malformed_path = code_of malformed_path
exc_to_err_code missing_parent = code_of missing_parent
exc_to_err_code not_a_directory = code_of not_a_directory
exc_to_err_code _ = internal

pub record FileTaskResult : Type 0 where
  pub file : Option File
  pub err_code : Option ErrorCode

-- The `try` statement of a batch
unfoldable pub task_result : Result File → FileTaskResult
task_result (ok file) = record { file = some file; err_code = none }
task_result (err e) = record { file = none; err_code = some (exc_to_err_code e) }

-- `for … in …` of a batch: `action` is what is done with an entry.
unfoldable pub run_batch :
    {X : Type 0} → (X → Exec Site File) → List X → Exec Site (List FileTaskResult)
run_batch action [] = pure []
run_batch action (x ∷ xs) = do
  outcome ← attempt (action x)
  results ← run_batch action xs
  pure (task_result outcome ∷ results)

module _ (V : Env) where
  unfoldable pub delete_immediately_batch : Text → List Text → Exec Site (List FileTaskResult)
  delete_immediately_batch ns_path = run_batch (NamespaceUseCase.delete_item V ns_path)

  abbrev pub move_entry : ℕ → ℕ → Text → Text × Text → Exec Site File
  move_entry now user_id ns_path (from_path, to_path) =
      NamespaceUseCase.move_item V now user_id ns_path from_path to_path

  unfoldable pub move_batch : ℕ → ℕ → Text → List (Text × Text) → Exec Site (List FileTaskResult)
  move_batch now user_id ns_path = run_batch (move_entry now user_id ns_path)

  -- The time is taken for each entry anew; `timestamp` belongs to the entry.
  abbrev pub trash_entry : ℕ → ℕ → Text → Text × Text → Exec Site File
  trash_entry now user_id ns_path (timestamp, path) =
      NamespaceUseCase.move_item_to_trash V now timestamp user_id ns_path path

  unfoldable pub move_to_trash_batch :
      ℕ → ℕ → Text → List (Text × Text) → Exec Site (List FileTaskResult)
  move_to_trash_batch now user_id ns_path = run_batch (trash_entry now user_id ns_path)

  -- `except Exception: logger.exception(…)`
  unfoldable pub empty_trash : ℕ → ℕ → Text → Exec Site Unit
  empty_trash now user_id ns_path site =
      (ok tt, (NamespaceUseCase.empty_trash V now user_id ns_path site).1)
