-- ===== src/Tests/Sharing.antt =====
-- A file that is shared, shared again and no longer shared.
use shelf_back.Base.{◌≡◌, refl, false, none, ◌∷◌, [], any, keep_if}
use shelf_back.Base.Text.{codes, text_eq}
use shelf_back.Base.Exec.{ok, err, shared_link_not_found}
use shelf_back.Sharing.{
  SharedLink, LinkDb, create_link, get_by_file_id, get_by_token, revoke_link, save, save_beside,
  insert,
}
use shelf_back.Sharing.Links.{create_link_lem}
use shelf_back.Files.Model.{File}
use shelf_back.Api.{answer, refusal, api_shared_link_not_found}
use shelf_back.Api.Sharing.{
  SharingWeb, revoke_shared_link, get_shared_link_file, get_shared_link_download_url,
}
use shelf_back.Api.Sharing.Revoked.{revoke_shared_link-get_shared_link_file}
use shelf_back.Tests.Api.{values}
use shelf_back.Tests.Files.{home, ascii_env}

abbrev unshared : LinkDb
unshared = record { core = home; links = [] }

abbrev link : SharedLink
link = record { id = 100; file_id = 12; token = codes "xyz"; created_at = 5 }

shared : (create_link ascii_env 5 (codes "xyz") 12 unshared).0 ≡ ok link
unfolding create_link save save_beside insert keep_if any
shared = refl

create_link_lem_example :
    let after = (create_link ascii_env 5 (codes "xyz") 12 unshared).1 in
    (create_link ascii_env 9 (codes "abc") 12 after ≡ (ok link, after))
    × ((get_by_file_id 12 after).0 ≡ ok link)
    × ((get_by_token (codes "xyz") (revoke_link (codes "xyz") after).1).0
        ≡ err shared_link_not_found)
create_link_lem_example =
    create_link_lem ascii_env 5 9 (codes "xyz") (codes "abc") 12 unshared link shared

abbrev other_link : SharedLink
other_link = record { id = 101; file_id = 13; token = codes "abc"; created_at = 6 }

abbrev sharing_web : SharingWeb (values File)
sharing_web = record {
  links = record { core = home; links = link ∷ other_link ∷ [] };
  downloads = λ k. none;
}

other_token : text_eq (codes "xyz") (codes "abc") ≡ false
unfolding text_eq
other_token = refl

revoke_shared_link-get_shared_link_file_example :
    let (done, w) = revoke_shared_link (values File) (codes "xyz") sharing_web in
    (done ≡ answer tt)
    × (get_shared_link_file (values File) (codes "xyz") w ≡ (refusal api_shared_link_not_found, w))
    × (get_shared_link_download_url (values File) 5 (codes "k") (codes "xyz") w
        ≡ (refusal api_shared_link_not_found, w))
    × ((get_shared_link_file (values File) (codes "abc") w).0
        ≡ (get_shared_link_file (values File) (codes "abc") sharing_web).0)
revoke_shared_link-get_shared_link_file_example =
    revoke_shared_link-get_shared_link_file (values File) 5 (codes "k") (codes "xyz") (codes "abc")
      sharing_web other_token
