-- ===== src/Api/Files.antt =====
-- The views of files, app/api/files/views.py, with their dependencies of app/api/deps.py. The response
-- models are copies of fields, for which the entities stand; the response of a download is the file and
-- the storage key that its bytes are read from. Thumbnails and metadata of contents are left out.
pub mod Links
use shelf_back.Base.{ℕ, ◌≡◌, Bool, true, false, not, ◌&&◌, Option, none, some, List, if◌then◌else◌}
use shelf_back.Base.Int.{ℤ}
use shelf_back.Base.Text.{Text}
use shelf_back.Base.Exec.{
  Error, Exec, Result, ok, err, file_action_not_allowed, file_already_exists, file_not_found,
  file_too_large, is_a_directory, malformed_path, not_a_directory, storage_quota_exceeded, pure,
  lift, modify, gets, continue, ◌>>=◌, ◌>>◌,
}
use shelf_back.Files.Model.{Env, Namespace, Db, File, is_folder}
use shelf_back.Files.Core
use shelf_back.Files.Namespaces
use shelf_back.Files.FileService
use shelf_back.Files.NamespaceUseCase
use shelf_back.Files.NamespaceUseCase.{Site}
use shelf_back.Files.Batch.{FileTaskResult}
use shelf_back.Blobs.{Content, Storage}
use shelf_back.Api.{
  ApiError, api_download_not_found, api_file_action_not_allowed, api_file_already_exists,
  api_is_a_directory, api_malformed_path, api_not_a_directory, api_path_not_found,
  api_storage_quota_exceeded, api_unverified_user, api_upload_file_too_large, Reply, answer,
  refusal, failure, Caught, nothing_caught, view, after,
}
use shelf_back.Api.Downloads.{ValueCache, create_download_cache, pop_download_cache}

-- The jobs that the views hand over, with their arguments
pub data Job : Type 0 where
  delete_immediately_batch_job move_to_trash_batch_job : (ns_path : Text) (paths : List Text) → Job
  empty_trash_job : (ns_path : Text) → Job
  move_batch_job : (ns_path : Text) (items : List (Text × Text)) → Job

-- `JobStatus`
pub data JobStatus : Type 0 where
  pending complete : JobStatus

-- `IWorker`
pub record Worker : Type 1 where
  pub State : Type 0
  pub enqueue : Job → State → Text × State
  pub get_status : Text → State → JobStatus
  pub get_result : Text → State → Result (List FileTaskResult)

-- The response models of the checks: the result once the job is completed
pub data Check (A : Type 0) : Type 0 where
  check_pending : Check A
  check_completed : A → Check A

-- The `except` clauses of the views
abbrev on_create_folder : Caught
on_create_folder file_action_not_allowed = some api_file_action_not_allowed
on_create_folder file_already_exists = some api_file_already_exists
on_create_folder not_a_directory = some api_not_a_directory
on_create_folder e = none

abbrev pub on_download : Caught
on_download is_a_directory = some api_is_a_directory
on_download file_not_found = some api_path_not_found
on_download e = none

abbrev on_download_xhr : Caught
on_download_xhr file_action_not_allowed = some api_file_action_not_allowed
on_download_xhr is_a_directory = some api_is_a_directory
on_download_xhr file_not_found = some api_path_not_found
on_download_xhr e = none

abbrev pub on_get_download_url : Caught
on_get_download_url file_action_not_allowed = some api_file_action_not_allowed
on_get_download_url file_not_found = some api_path_not_found
on_get_download_url e = none

abbrev on_list_folder : Caught
on_list_folder file_action_not_allowed = some api_file_action_not_allowed
on_list_folder file_not_found = some api_path_not_found
on_list_folder not_a_directory = some api_not_a_directory
on_list_folder e = none

abbrev on_upload : Caught
on_upload file_action_not_allowed = some api_file_action_not_allowed
on_upload storage_quota_exceeded = some api_storage_quota_exceeded
on_upload malformed_path = some api_malformed_path
on_upload not_a_directory = some api_not_a_directory
on_upload file_too_large = some api_upload_file_too_large
on_upload e = none

-- `GetDownloadUrlResponse`: the view that the link leads to, and the key
pub data Link : Type 0 where
  download_link download_folder_link : (key : Text) → Link

module _ (C : ValueCache File) (W : Worker) where
  pub record Web : Type 0 where
    pub site : Site
    pub downloads : C.State
    pub queue : W.State

  abbrev in_site : {A : Type 0} → Exec Site A → Exec Web A
  in_site m w = let (r, site) = m w.site in (r, record w { site = site })

  abbrev pub in_db : {A : Type 0} → Exec Db A → Exec Web A
  in_db m = in_site (NamespaceUseCase.in_core m)

  abbrev pub in_downloads : {A : Type 0} → Exec C.State A → Exec Web A
  in_downloads m w = let (r, downloads) = m w.downloads in (r, record w { downloads = downloads })

  -- `worker.enqueue(…)`, and the identifier of the job
  unfoldable pub enqueue : Job → Exec Web Text
  enqueue job w = let (id, queue) = W.enqueue job w.queue in (ok id, record w { queue = queue })

  abbrev pub id : {A : Type 0} → A → A
  id a = a

  -- `verified_current_user`, for the setting `verification_required`
  unfoldable verified_current_user : Bool → Bool → Web → Reply Unit × Web
  verified_current_user verification_required is_verified w =
      if verification_required && not is_verified
      then (refusal api_unverified_user, w)
      else (answer tt, w)

  -- `namespace`, which catches nothing
  unfoldable pub namespace : ℕ → Web → Reply Namespace × Web
  namespace user_id = view nothing_caught id (in_db (Namespaces.get_by_owner_id user_id))

  -- `download_cache`
  abbrev pub or_not_found : Option File → Reply File
  or_not_found none = refusal api_download_not_found
  or_not_found (some file) = answer file

  unfoldable pub download_cache : ℕ → Text → Web → Reply File × Web
  download_cache now key =
      after (view nothing_caught id (in_downloads (pop_download_cache C now key)))
        (λ value w. (or_not_found value, w))

  abbrev pub link_to : File → Text → Link
  link_to file key = if is_folder file then download_folder_link key else download_link key

  -- `get_download_url`
  unfoldable pub get_download_url : ℕ → Text → Text → ℕ → Web → Reply Link × Web
  get_download_url now token ns_path file_id =
      after (view on_get_download_url id (in_db (FileService.get_by_id ns_path file_id))) (λ file.
        view nothing_caught (link_to file) (in_downloads (create_download_cache C now token file)))

  abbrev pub with_key : File → File × Text → File × Text
  with_key file (_, key) = (file, key)

  unfoldable pub download : Env → ℕ → Text → Web → Reply (File × Text) × Web
  download V now key =
      after (download_cache now key)
        (λ file. view on_download (with_key file) (in_db (Core.download V file.id)))

  -- The file, and the prefix of the keys that are archived
  unfoldable download_folder : Env → ℕ → Text → Web → Reply (File × Text) × Web
  download_folder V now key =
      after (download_cache now key)
        (λ file w. (answer (file, Core.storage_key V file.owner_id file.path.text), w))

  unfoldable pub delete_immediately_batch : Text → List Text → Web → Reply Text × Web
  delete_immediately_batch ns_path paths =
      view nothing_caught id (enqueue (delete_immediately_batch_job ns_path paths))

  unfoldable pub empty_trash : Text → Web → Reply Text × Web
  empty_trash ns_path = view nothing_caught id (enqueue (empty_trash_job ns_path))

  unfoldable pub move_batch : Text → List (Text × Text) → Web → Reply Text × Web
  move_batch ns_path items = view nothing_caught id (enqueue (move_batch_job ns_path items))

  unfoldable pub move_to_trash_batch : Text → List Text → Web → Reply Text × Web
  move_to_trash_batch ns_path paths =
      view nothing_caught id (enqueue (move_to_trash_batch_job ns_path paths))

  abbrev checked : JobStatus → Text → Exec Web (Check (List FileTaskResult))
  checked pending job_id w = (ok check_pending, w)
  checked complete job_id w = elim (W.get_result job_id w.queue) [
    | ok results ↦ (ok (check_completed results), w)
    | err e ↦ (err e, w)
  ]

  -- `delete_immediately_check`, `move_batch_check` and `empty_trash_check`; the last leaves the result
  -- out.
  unfoldable check_batch : Text → Web → Reply (Check (List FileTaskResult)) × Web
  check_batch job_id = view nothing_caught id (λ w. checked (W.get_status job_id w.queue) job_id w)

  module _ (V : Env) where
    unfoldable pub create_folder : ℕ → ℕ → Text → Text → Web → Reply File × Web
    create_folder now user_id ns_path path =
        view on_create_folder id
          (in_site (NamespaceUseCase.create_folder V now user_id ns_path path))

    unfoldable download_xhr : Text → Text → Web → Reply (File × Text) × Web
    download_xhr ns_path path =
        view on_download_xhr id (in_db (FileService.download V ns_path path))

    unfoldable get_batch : Text → List ℕ → Web → Reply (List File) × Web
    get_batch ns_path ids =
        view nothing_caught id (in_db (FileService.get_by_id_batch V ns_path ids))

    unfoldable pub list_folder : Text → Text → Web → Reply (List File) × Web
    list_folder ns_path path =
        view on_list_folder id (in_site (NamespaceUseCase.list_folder V ns_path path))

    unfoldable upload_file :
        Storage → ℤ → ℕ → ℕ → Text → Text → Content → Option ℕ → Web → Reply File × Web
    upload_file S upload_file_max_size now user_id ns_path path content modified_at =
        view on_upload id (
          in_site (
            NamespaceUseCase.add_file V S upload_file_max_size now user_id ns_path path content
              modified_at))
