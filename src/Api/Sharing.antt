-- ===== src/Api/Sharing.antt =====
-- The views of shared links, app/api/sharing/views.py, without the thumbnail. The response models are
-- copies of fields, for which the entities stand.
pub mod Revoked
use shelf_back.Base.{
  ℕ, ◌≡◌, refl, ap, ◌∙◌, Bool, true, false, not, inl, inr, Option, none, some, List, [], ◌∷◌,
  if◌then◌else◌, keep_if, Bool-cases, arith,
}
use shelf_back.Base.Text.{Text, text_eq, eq_of_text_eq}
use shelf_back.Base.Exec.{
  Error, Exec, Result, ok, err, file_action_not_allowed, file_not_found, shared_link_not_found,
  one_of, not_found_as, continue, ◌>>=◌,
}
use shelf_back.Files.Model.{Env, File, is_folder}
use shelf_back.Sharing
use shelf_back.Sharing.{SharedLink, LinkDb, has_token}
use shelf_back.Api.{
  ApiError, api_file_action_not_allowed, api_path_not_found, api_shared_link_not_found, Reply,
  answer, refusal, failure, Caught, nothing_caught, view, after, reply_of,
}
use shelf_back.Api.Downloads.{ValueCache, create_download_cache}
use shelf_back.Api.Files.{Link, download_link, download_folder_link}

abbrev on_create_shared_link : Caught
on_create_shared_link file_action_not_allowed = some api_file_action_not_allowed
on_create_shared_link file_not_found = some api_path_not_found
on_create_shared_link e = none

abbrev on_get_shared_link : Caught
on_get_shared_link file_not_found = some api_shared_link_not_found
on_get_shared_link shared_link_not_found = some api_shared_link_not_found
on_get_shared_link e = none

-- Of the views that are given a token
abbrev pub on_token : Caught
on_token shared_link_not_found = some api_shared_link_not_found
on_token e = none

module _ (C : ValueCache File) where
  pub record SharingWeb : Type 0 where
    pub links : LinkDb
    pub downloads : C.State

  abbrev in_links : {A : Type 0} → Exec LinkDb A → Exec SharingWeb A
  in_links m w = let (r, links) = m w.links in (r, record w { links = links })

  abbrev pub in_downloads : {A : Type 0} → Exec C.State A → Exec SharingWeb A
  in_downloads m w = let (r, downloads) = m w.downloads in (r, record w { downloads = downloads })

  abbrev pub same : {A : Type 0} → A → A
  same a = a

  unfoldable create_shared_link :
      Env
      → Bool
      → (Text → Result Bool)
      → ℕ
      → Text
      → Text
      → ℕ
      → SharingWeb
      → Reply SharedLink × SharingWeb
  create_shared_link V enabled is_superuser now token ns_path file_id =
      view on_create_shared_link same
        (in_links (Sharing.share V enabled is_superuser now token ns_path file_id))

  unfoldable get_shared_link : Text → ℕ → SharingWeb → Reply SharedLink × SharingWeb
  get_shared_link ns_path file_id =
      view on_get_shared_link same (in_links (Sharing.get_link ns_path file_id))

  unfoldable pub get_shared_link_file : Text → SharingWeb → Reply File × SharingWeb
  get_shared_link_file token = view on_token same (in_links (Sharing.get_shared_item token))

  abbrev link_to : File → Text → Link
  link_to file key = if is_folder file then download_folder_link key else download_link key

  -- `key` is what `secrets.token_urlsafe` returns.
  unfoldable pub get_shared_link_download_url :
      ℕ → Text → Text → SharingWeb → Reply Link × SharingWeb
  get_shared_link_download_url now key token = after (get_shared_link_file token) (λ file.
      view nothing_caught (link_to file) (in_downloads (create_download_cache C now key file)))

  unfoldable list_shared_links : Text → SharingWeb → Reply (List SharedLink) × SharingWeb
  list_shared_links ns_path = view nothing_caught same (in_links (Sharing.list_by_ns ns_path 0 50))

  unfoldable pub revoke_shared_link : Text → SharingWeb → Reply Unit × SharingWeb
  revoke_shared_link token = view nothing_caught same (in_links (Sharing.revoke_link token))
