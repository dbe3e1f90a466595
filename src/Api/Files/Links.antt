-- ===== src/Api/Files/Links.antt =====
-- Links to download a file, app/api/files/views.py and app/api/deps.py.
use shelf_back.Base.{ℕ, ◌+◌, ◌≤◌, ◌<◌, ◌≡◌, refl, ap, ◌∙◌, false, none, some}
use shelf_back.Base.Text.{Text}
use shelf_back.Base.Exec.{ok}
use shelf_back.Files.Model.{Env, File, is_folder}
use shelf_back.Files.Core
use shelf_back.Files.FileService
use shelf_back.Api.{
  nothing_caught, Reply, answer, refusal, api_download_not_found, reply_of, proceed, view,
}
use shelf_back.Api.Downloads.{ValueCache, IsValueCache, create_download_cache, pop_download_cache}
use shelf_back.Api.Downloads.Once.{pop-set, pop-expired, pop-delete}
use shelf_back.Api.Files.{
  Worker, Web, download_link, get_download_url, download, download_cache, on_download,
  on_get_download_url, with_key, link_to, or_not_found, in_db, in_downloads,
}

module _ (C : ValueCache File) (L : IsValueCache C) (W : Worker) (V : Env) where
  linked_lem :
      (now : ℕ) (token ns_path : Text) (file_id : ℕ) (file : File) (w : Web C W)
      → FileService.get_by_id ns_path file_id w.site.core ≡ (ok file, w.site.core)
      → is_folder file ≡ false
      → get_download_url C W now token ns_path file_id w ≡ (
        answer (download_link token),
        record w { downloads = C.set now token file 60 w.downloads },
      )
  unfolding get_download_url create_download_cache
  linked_lem now token ns_path file_id file w g f =
      ap
        (λ x.
          proceed
            (λ file.
              view nothing_caught (link_to C W file)
                (in_downloads C W (create_download_cache C now token file)))
            (
              reply_of on_get_download_url (λ file. file) x.0,
              record w { site = record w.site { core = x.1 } },
            ))
        g
      ∙ rw f refl

  cache-found :
      (t : ℕ) (token : Text) (file : File) (w : Web C W) (left : C.State)
      → pop_download_cache C t token w.downloads ≡ (ok (some file), left)
      → download_cache C W t token w ≡ (answer file, record w { downloads = left })
  unfolding download_cache
  cache-found t token file w left h =
      ap
        (λ x.
          proceed (λ value w. (or_not_found C W value, w))
            (reply_of nothing_caught (λ value. value) x.0, record w { downloads = x.1 }))
        h

  cache-missing :
      (t : ℕ) (token : Text) (w : Web C W)
      → pop_download_cache C t token w.downloads ≡ (ok none, w.downloads)
      → download_cache C W t token w ≡ (refusal api_download_not_found, w)
  unfolding download_cache
  cache-missing t token w h =
      ap
        (λ x.
          proceed (λ value w. (or_not_found C W value, w))
            (reply_of nothing_caught (λ value. value) x.0, record w { downloads = x.1 }))
        h

  -- What follows the dependency of `download`
  abbrev downloaded : Reply File × Web C W → Reply (File × Text) × Web C W
  downloaded =
      proceed (λ file. view on_download (with_key C W file) (in_db C W (Core.download V file.id)))

  cache-refused :
      (t : ℕ) (token : Text) (w : Web C W)
      → pop_download_cache C t token w.downloads ≡ (ok none, w.downloads)
      → (download C W V t token w).0 ≡ refusal api_download_not_found
  unfolding download
  cache-refused t token w h = ap (λ x. (downloaded x).0) (cache-missing t token w h)

  -- The link to a file that is found leads to it once, within a minute: the first request is answered
  -- as the file service answers, and every later one, and every request after a minute, is refused.
  pub get_download_url-download :
      (now t later late : ℕ) (token ns_path : Text) (file_id : ℕ) (file : File) (w : Web C W)
      → FileService.get_by_id ns_path file_id w.site.core ≡ (ok file, w.site.core)
      → is_folder file ≡ false
      → now ≤ t
      → t < now + 60
      → now + 60 ≤ late
      → let (link, linked) = get_download_url C W now token ns_path file_id w in
        let (first, downloaded) = download C W V t token linked in
        (link ≡ answer (download_link token))
        × (first ≡ reply_of on_download (with_key C W file) (Core.download V file.id w.site.core).0)
        × ((download C W V later token downloaded).0 ≡ refusal api_download_not_found)
        × ((download C W V late token linked).0 ≡ refusal api_download_not_found)
  unfolding download
  get_download_url-download now t later late token ns_path file_id file w g f h k l =
      let kept = C.set now token file 60 w.downloads in
      let after_fetch = record w.site { core = (Core.download V file.id w.site.core).1 } in
      let first =
        cache-found t token file (record w { downloads = kept }) (C.delete token kept)
          (pop-set C L now t token file w.downloads h k) in
      rw (linked_lem now token ns_path file_id file w g f) (
        refl,
        ap (λ x. (downloaded x).0) first,
        ap (λ x. (download C W V later token (downloaded x).1).0) first
            ∙ (cache-refused later token
                (record w { site = after_fetch; downloads = C.delete token kept })
                (pop-delete C L later token kept)),
        cache-refused late token (record w { downloads = kept })
            (pop-expired C L now late token file w.downloads l),
      )
