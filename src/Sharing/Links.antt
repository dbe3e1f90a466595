-- ===== src/Sharing/Links.antt =====
-- What `SharingService` guarantees of a link: app/app/files/services/sharing.py.
use shelf_back.Base.{
  ℕ, ◌≡◌, refl, Bool, not, ◌||◌, inl, inr, List, [], ◌∷◌, ◌++◌, ◌==◌, keep_if, any, Bool-cases,
  arith,
}
use shelf_back.Base.Text.{Text}
use shelf_back.Base.Exec.{ok, err, shared_link_not_found}
use shelf_back.Files.Model.{Env}
use shelf_back.Sharing.{
  SharedLink, LinkDb, of_file, has_token, delete, get_by_file_id, get_by_token, insert, save_beside,
  save, create_link, revoke_link,
}

keep_if-append :
    (p : SharedLink → Bool) (ls ms : List SharedLink)
    → keep_if p (ls ++ ms) ≡ keep_if p ls ++ keep_if p ms
unfolding keep_if
keep_if-append p [] ms = refl
keep_if-append p (l ∷ ls) ms = ground (arith, keep_if-append p ls ms)

pub keep_if_neither :
    (p : SharedLink → Bool) (ls : List SharedLink) → keep_if p (keep_if (λ l. not (p l)) ls) ≡ []
unfolding keep_if
keep_if_neither p [] = refl
keep_if_neither p (l ∷ ls) = ground (arith, keep_if_neither p ls)

-- The links of the file after the link is returned.
links_after :
    (V : Env) (now : ℕ) (token : Text) (file_id : ℕ) (db : LinkDb) (link : SharedLink)
    (ls : List SharedLink)
    → keep_if (of_file file_id) db.links ≡ ls
    → (save_beside V ls
        (record { id = 0; file_id = file_id; token = token; created_at = now })
        db).0
      ≡ ok link
    → keep_if
        (of_file file_id)
        (save_beside V ls
          (record { id = 0; file_id = file_id; token = token; created_at = now })
          db).1.links
      ≡ link ∷ []
unfolding save_beside insert keep_if
links_after V now token file_id db link [] e h =
    elim (Bool-cases
      (any (has_token token) db.links || not (any (λ r. r.id == file_id) db.core.files))) [
        | inl t ↦ cc
        | inr f ↦
            let h' = rw f at h in
            rw (f, keep_if-append (of_file file_id) db.links) (rw e (ground (arith, h')))
      ]
links_after V now token file_id db link (l ∷ []) e h = rw e (cc)
links_after V now token file_id db link (_ ∷ _ ∷ _) e h = cc

one_link :
    (file_id : ℕ) (db : LinkDb) (link : SharedLink)
    → keep_if (of_file file_id) db.links ≡ link ∷ []
    → (get_by_file_id file_id db).0 ≡ ok link
unfolding get_by_file_id
one_link file_id db link e = rw e

-- When `create_link` succeeds, sharing the file again returns the same link and changes nothing,
-- whatever token is drawn then, and the link is found by the file. Once the link is revoked, its token
-- is not found.
pub create_link_lem :
    (V : Env) (now later : ℕ) (token next_token : Text) (file_id : ℕ) (db : LinkDb)
    (link : SharedLink)
    → (create_link V now token file_id db).0 ≡ ok link
    → let after = (create_link V now token file_id db).1 in
      (create_link V later next_token file_id after ≡ (ok link, after))
      × ((get_by_file_id file_id after).0 ≡ ok link)
      × ((get_by_token link.token (revoke_link link.token after).1).0 ≡ err shared_link_not_found)
unfolding create_link save save_beside get_by_token revoke_link delete
create_link_lem V now later token next_token file_id db link h =
    let after = (create_link V now token file_id db).1 in
    let one = links_after V now token file_id db link (keep_if (of_file file_id) db.links) refl h in
    (
      rw one,
      one_link file_id after link one,
      rw (keep_if_neither (has_token link.token) after.links),
    )
