-- ===== src/Files/NamespaceUseCase/Upload.antt =====
-- `NamespaceUseCase.add_file`, app/app/files/usecases/namespace.py.
use shelf_back.Base.{
  ℕ, ◌≡◌, sym, ap, ◌∙◌, Bool, true, false, not, Option, none, some, [], ◌∷◌, ◌++◌, arith, keep_if,
}
use shelf_back.Base.Int.{ℤ, pos, ◌+ℤ◌, ltb_ℤ}
use shelf_back.Base.Text.{Text, codes}
use shelf_back.Base.Exec.{
  Exec, Result, ok, assertion_error, malformed_path, file_too_large, storage_quota_exceeded, pure,
  guard, or_raise, ◌>>=◌, ◌>>◌, returned, guard_returned, guard_ok, or_raise_ok,
}
use shelf_back.FilePath.{path_of, is_relative_to}
use shelf_back.Files.Model.{Env, Namespace, Db, File}
use shelf_back.Files.Namespaces
use shelf_back.Files.FileService
use shelf_back.Files.Atomicity.{namespace-ReadOnly}
use shelf_back.Blobs.{Content, Storage}
use shelf_back.Users.{Account}
use shelf_back.Audit.{file_added, track_file_action}
use shelf_back.Files.NamespaceUseCase.{
  Site, in_core, get_account, process_async, audited, check_quota, add_file,
}

-- The bytes in the namespaces of the owner
abbrev pub space_used : Db → ℕ → ℤ
space_used db owner_id = Namespaces.sum_sizes (keep_if (Namespaces.is_home_of db owner_id) db.files)

-- There is no quota, or the used bytes and the new ones are not more than it.
abbrev pub HasRoom : ℤ → ℕ → Option ℕ → Db → Type 0
HasRoom size owner_id none db = Unit
HasRoom size owner_id (some quota) db = ltb_ℤ (pos quota) (space_used db owner_id +ℤ size) ≡ false

passed : (b : Bool) → not b ≡ true → b ≡ false
passed b h = ground (arith, h)

HasRoom-at :
    (size : ℤ) (owner_id : ℕ) (quota : Option ℕ) (s t : Site)
    → s ≡ t
    → HasRoom size owner_id quota t.core
    → HasRoom size owner_id quota s.core
HasRoom-at size owner_id quota s t e h = rw e h

namespace_unchanged :
    (V : Env) (ns_path : Text) (s t : Site) (ns : Namespace)
    → in_core (Namespaces.get_by_path ns_path) s ≡ (ok ns, t)
    → (Namespaces.get_by_path ns_path s.core ≡ (ok ns, s.core)) × (s ≡ t)
namespace_unchanged V ns_path s t ns h =
    let same = (namespace-ReadOnly V ns_path).at s.core in
    let back = sym same in
    let answer = ap (λ (x : Result Namespace × Site). x.0) h in
    (
      λ i. (answer i, same i),
      (λ i. record s { core = back i }) ∙ ap (λ (x : Result Namespace × Site). x.1) h,
    )

account_unchanged :
    (owner_id : ℕ) (s t u : Site) (a : Account)
    → s ≡ t
    → get_account owner_id t ≡ (ok a, u)
    → (get_account owner_id s ≡ (ok a, s)) × (t ≡ u)
unfolding get_account
account_unchanged owner_id s t u a e h =
    (rw e (λ i. ((h i).0, t)), ap (λ (x : Result Account × Site). x.1) h)

-- What a method on the core tables does, and what it leaves alone
core_only :
    {A : Type 0} (m : Exec Db A) (s t : Site) (a : A)
    → in_core m s ≡ (ok a, t)
    → (m s.core ≡ (ok a, t.core)) × (s.processing ≡ t.processing) × (s.trail ≡ t.trail)
core_only m s t a h = (λ i. ((h i).0, (h i).1.core), λ i. (h i).1.processing, λ i. (h i).1.trail)

ok_inj : {A : Type 0} (a b : A) → ok a ≡ ok b → a ≡ b
ok_inj a b h = cc

check_quota-HasRoom :
    (V : Env) (size : ℤ) (owner_id : ℕ) (quota : Option ℕ) (site after : Site)
    → check_quota V size owner_id quota site ≡ (ok tt, after)
    → HasRoom size owner_id quota site.core × (site ≡ after)
unfolding check_quota Namespaces.get_space_used_by_owner_id
check_quota-HasRoom V size owner_id none site after h =
    (tt, ap (λ (x : Result (Unit {0}) × Site). x.1) h)
check_quota-HasRoom V size owner_id (some quota) site after h =
    let room = not (ltb_ℤ (pos quota) (space_used site.core owner_id +ℤ size)) in
    let (b, same) = guard_ok room storage_quota_exceeded site after h in (ground (arith, b), same)

module _ (V : Env) (S : Storage) (upload_file_max_size : ℤ) (now user_id : ℕ)
    (ns_path path_text : Text) (content : Content) (modified_at : Option ℕ) where
  -- The steps of `add_file` from each of its calls on
  abbrev recorded : File → ℕ → Exec Site File
  recorded file blob_id = process_async blob_id >>= λ _.
      (audited (track_file_action file_added now user_id file) >> pure file)

  abbrev uploaded : File → Exec Site File
  uploaded file = or_raise file.blob_id assertion_error >>= recorded file

  abbrev stored : Exec Site File
  stored =
      in_core (FileService.create_file V S now ns_path (path_of path_text).text content modified_at)
      >>= uploaded

  abbrev with_account : Namespace → Account → Exec Site File
  with_account ns account = check_quota V content.size ns.owner_id account.storage_quota >> stored

  abbrev in_namespace : Namespace → Exec Site File
  in_namespace ns = get_account ns.owner_id >>= with_account ns

  abbrev looked_up : Exec Site File
  looked_up = in_core (Namespaces.get_by_path ns_path) >>= in_namespace

  abbrev measured : Exec Site File
  measured = guard (not (ltb_ℤ upload_file_max_size content.size)) file_too_large >> looked_up

  recorded_changes :
      (file' file : File) (blob_id : ℕ) (s t : Site)
      → recorded file' blob_id s ≡ (ok file, t)
      → (file' ≡ file)
        × (s.core ≡ t.core)
        × (t.processing ≡ s.processing ++ (blob_id ∷ []))
        × (t.trail ≡ track_file_action file_added now user_id file' s.trail)
  unfolding process_async
  recorded_changes file' file blob_id s t h = (
    ok_inj file' file (λ i. (h i).0),
    (λ i. (h i).1.core),
    sym (λ i. (h i).1.processing),
    sym (λ i. (h i).1.trail),
  )

  -- What a call on the core tables and the records after it change
  stored_changes :
      (m : Exec Db File) (site s5 s6 s7 after : Site) (file' file : File) (blob_id : ℕ)
      → site ≡ s5
      → in_core m s5 ≡ (ok file', s6)
      → (file'.blob_id ≡ some blob_id) × (s6 ≡ s7)
      → recorded file' blob_id s7 ≡ (ok file, after)
      → (m site.core ≡ (ok file, after.core))
        × ((id : ℕ) × (file.blob_id ≡ some id) × (after.processing ≡ site.processing ++ (id ∷ [])))
        × (after.trail ≡ track_file_action file_added now user_id file site.trail)
  stored_changes m site s5 s6 s7 after file' file blob_id e h (b, e') k =
      let (created, kept_processing, kept_trail) = core_only m s5 s6 file' h in
      let (same, core, processing, trail) = recorded_changes file' file blob_id s7 after k in
      rw (e, sym same)
        (
          created ∙ ap (λ db. (ok file', db)) (ap (λ (s : Site). s.core) e' ∙ core),
          (
            blob_id,
            b,
            processing
                ∙ ap (λ ids. ids ++ (blob_id ∷ []))
                    (sym (kept_processing ∙ ap (λ (s : Site). s.processing) e')),
          ),
          trail
              ∙ ap (track_file_action file_added now user_id file')
                  (sym (kept_trail ∙ ap (λ (s : Site). s.trail) e')),
        )

  -- When an upload returns a file, its path is not in the Trash and its content no larger than the
  -- limit; the owner of the namespace has an account with room for the content before the upload; the
  -- core tables are as the file service leaves them; the blob is handed to the processor, and one
  -- record is added to the audit trail.
  pub add_file-within_bounds :
      (site after : Site) (file : File)
      → add_file V S upload_file_max_size now user_id ns_path path_text content modified_at site
        ≡ (ok file, after)
      → (is_relative_to V.casing (path_of path_text) (codes "trash") ≡ false)
        × (ltb_ℤ upload_file_max_size content.size ≡ false)
        × ((ns : Namespace) × (Namespaces.get_by_path ns_path site.core ≡ (ok ns, site.core))
            × ((account : Account) × (get_account ns.owner_id site ≡ (ok account, site))
                × HasRoom content.size ns.owner_id account.storage_quota site.core))
        × (FileService.create_file V S now ns_path
              (path_of path_text).text
              content
              modified_at
              site.core
            ≡ (ok file, after.core))
        × ((blob_id : ℕ) × (file.blob_id ≡ some blob_id)
            × (after.processing ≡ site.processing ++ (blob_id ∷ [])))
        × (after.trail ≡ track_file_action file_added now user_id file site.trail)
  unfolding add_file process_async
  add_file-within_bounds site after file h =
      let (b1, h1) =
        guard_returned (not (is_relative_to V.casing (path_of path_text) (codes "trash")))
          malformed_path (λ _. measured) site after file h in
      let (b2, h2) =
        guard_returned (not (ltb_ℤ upload_file_max_size content.size)) file_too_large
          (λ _. looked_up) site after file h1 in
      let (ns, s3, e3, h3) =
        returned (in_core (Namespaces.get_by_path ns_path)) in_namespace site after file h2 in
      let (account, s4, e4, h4) =
        returned (get_account ns.owner_id) (with_account ns) s3 after file h3 in
      let (_, s5, e5, h5) =
        returned (check_quota V content.size ns.owner_id account.storage_quota) (λ _. stored) s4
          after file h4 in
      let (file', s6, e6, h6) =
        returned
          (in_core
            (FileService.create_file V S now ns_path (path_of path_text).text content modified_at))
          uploaded s5 after file h5 in
      let (blob_id, s7, e7, h7) =
        returned (or_raise file'.blob_id assertion_error) (recorded file') s6 after file h6 in
      let (room, eq5) =
        check_quota-HasRoom V content.size ns.owner_id account.storage_quota s4 s5 e5 in
      let (e3', eq3) = namespace_unchanged V ns_path site s3 ns e3 in
      let (e4', eq4) = account_unchanged ns.owner_id site s3 s4 account eq3 e4 in
      let eq45 = eq3 ∙ (eq4 ∙ eq5) in
      let (has_blob, eq7) = or_raise_ok file'.blob_id assertion_error blob_id s6 s7 e7 in
      let (created, queued, recorded_once) =
        stored_changes
          (FileService.create_file V S now ns_path (path_of path_text).text content modified_at)
          site s5 s6 s7 after file' file blob_id eq45 e6 (has_blob, eq7) h7 in
      (
        passed _ b1,
        passed _ b2,
        (
          ns,
          e3',
          (
            account,
            e4',
            HasRoom-at content.size ns.owner_id account.storage_quota site s4 (eq3 ∙ eq4) room,
          ),
        ),
        created,
        queued,
        recorded_once,
      )
