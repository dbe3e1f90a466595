-- ===== src/Api/Sharing/Revoked.antt =====
-- A link that is revoked, app/api/sharing/views.py.
use shelf_back.Base.{
  ℕ, ◌≡◌, refl, sym, ap, ◌∙◌, true, false, not, inl, inr, List, [], ◌∷◌, keep_if, Bool-cases, arith,
}
use shelf_back.Base.Text.{Text, text_eq, eq_of_text_eq, text_eq_iff}
use shelf_back.Base.Exec.{Result, ok, err, shared_link_not_found, one_of, not_found_as, continue}
use shelf_back.Files.Model.{File}
use shelf_back.Files.Repository
use shelf_back.Sharing
use shelf_back.Sharing.{SharedLink, LinkDb, has_token}
use shelf_back.Sharing.Links.{keep_if_neither}
use shelf_back.Api.{
  answer, refusal, api_shared_link_not_found, view, nothing_caught, proceed, reply_of,
}
use shelf_back.Api.Downloads.{ValueCache, create_download_cache}
use shelf_back.Api.Sharing.{
  SharingWeb, on_token, same, in_downloads, link_to, get_shared_link_file,
  get_shared_link_download_url, revoke_shared_link,
}

has_token-other :
    (token other : Text) (l : SharedLink)
    → text_eq token other ≡ false
    → has_token other l ≡ true
    → has_token token l ≡ false
has_token-other token other l d h = elim (Bool-cases (text_eq l.token token)) [
  | inl e ↦
      let equal =
        (text_eq_iff token other).1
          (sym (eq_of_text_eq l.token token e) ∙ eq_of_text_eq l.token other h) in
      cc
  | inr e ↦ e
]

keep_if-other :
    (token other : Text) (ls : List SharedLink)
    → text_eq token other ≡ false
    → keep_if (has_token other) (keep_if (λ l. not (has_token token l)) ls)
      ≡ keep_if (has_token other) ls
unfolding keep_if
keep_if-other token other [] d = refl
keep_if-other token other (l ∷ ls) d =
    ground (arith, has_token-other token other l d, keep_if-other token other ls d)

-- What a link leads to depends on the core tables only.
same_reply :
    (r : Result SharedLink) (db db' : LinkDb)
    → db.core ≡ db'.core
    → (continue r (λ link. Sharing.in_core (Repository.get_by_id link.file_id)) db).0
      ≡ (continue r (λ link. Sharing.in_core (Repository.get_by_id link.file_id)) db').0
same_reply (ok link) db db' h = ap (λ core. (Repository.get_by_id link.file_id core).0) h
same_reply (err e) db db' h = refl

module _ (C : ValueCache File) where
  revoked_links :
      (token : Text) (w : SharingWeb C)
      → (revoke_shared_link C token w).1.links.links
        ≡ keep_if (λ l. not (has_token token l)) w.links.links
  unfolding revoke_shared_link Sharing.revoke_link Sharing.delete
  revoked_links token w = refl

  gone_lem :
      (token : Text) (w : SharingWeb C)
      → keep_if (has_token token) w.links.links ≡ []
      → get_shared_link_file C token w ≡ (refusal api_shared_link_not_found, w)
  unfolding get_shared_link_file Sharing.get_shared_item Sharing.get_by_token
  gone_lem token w h = rw h refl

  done_lem : (token : Text) (w : SharingWeb C) → (revoke_shared_link C token w).0 ≡ answer tt
  unfolding revoke_shared_link Sharing.revoke_link Sharing.delete
  done_lem token w = refl

  revoked_core :
      (token : Text) (w : SharingWeb C) → (revoke_shared_link C token w).1.links.core ≡ w.links.core
  unfolding revoke_shared_link Sharing.revoke_link Sharing.delete
  revoked_core token w = refl

  kept_reply :
      (other : Text) (w w' : SharingWeb C)
      → keep_if (has_token other) w'.links.links ≡ keep_if (has_token other) w.links.links
      → w'.links.core ≡ w.links.core
      → (get_shared_link_file C other w').0 ≡ (get_shared_link_file C other w).0
  unfolding get_shared_link_file Sharing.get_shared_item Sharing.get_by_token
  kept_reply other w w' h k = ap (reply_of on_token (same C)) (
      ap
        (λ found.
          (continue (not_found_as shared_link_not_found (one_of found))
            (λ link. Sharing.in_core (Repository.get_by_id link.file_id)) w'.links).0)
        h
      ∙ same_reply
          (not_found_as shared_link_not_found (one_of (keep_if (has_token other) w.links.links)))
          w'.links w.links k)

  -- Once a link is revoked, its token is refused by the views that give the file and a link to download
  -- it, whatever links the tables have, and the view that gives the file gives the same reply as before for
  -- every other token.
  pub revoke_shared_link-get_shared_link_file :
      (now : ℕ) (key token other : Text) (w : SharingWeb C)
      → text_eq token other ≡ false
      → let (done, w') = revoke_shared_link C token w in
        (done ≡ answer tt)
        × (get_shared_link_file C token w' ≡ (refusal api_shared_link_not_found, w'))
        × (get_shared_link_download_url C now key token w'
            ≡ (refusal api_shared_link_not_found, w'))
        × ((get_shared_link_file C other w').0 ≡ (get_shared_link_file C other w).0)
  unfolding get_shared_link_download_url
  revoke_shared_link-get_shared_link_file now key token other w d =
      let w' = (revoke_shared_link C token w).1 in
      let gone = gone_lem token w' (
        ap (keep_if (has_token token)) (revoked_links token w)
        ∙ keep_if_neither (has_token token) w.links.links) in
      (
        done_lem token w,
        gone,
        ap
            (proceed (λ file.
              view nothing_caught (link_to C file)
                (in_downloads C (create_download_cache C now key file))))
            gone,
        kept_reply other w w'
            (ap (keep_if (has_token other)) (revoked_links token w)
              ∙ keep_if-other token other w.links.links d)
            (revoked_core token w),
      )
