-- ===== src/S3/Deletes.antt =====
-- Deletions from a bucket: app/infrastructure/storage/s3/storage.py and the client under it.
use shelf_back.Base.{
  ℕ, ◌≤◌, ◌≡◌, refl, ap, sym, ◌∙◌, Bool, true, false, inl, inr, ◌&&◌, ◌||◌, Option, none, List, [],
  ◌∷◌, ◌++◌, length, map, if◌then◌else◌, arith, is_nil, Bool-cases, Option-cases, leb,
}
use mathlib.Core.Path.{subst}
use shelf_back.Base.Text.{Text, codes, text_eq, has_prefix, text_eq_refl}
use shelf_back.Base.Exec.{Exec, ok}
use shelf_back.OsPath.{normpath}
use shelf_back.S3.{
  Service, Request, Response, S3File, Upload, Entry, key_of, entries_of, delete_limit,
  raise_for_status, send, delete_body, slices, batches, list_request, put_request, get_request,
  copy_request, head_request, delete_request, delete_1000_files, delete_all, list_from,
  list_objects, delete_recursive, copy_object, iter_download, head_object, put_object,
  error_of_code,
}
use shelf_back.S3
use shelf_back.S3.Batches.{flat, Short, flat-slices, slices-Short, flat-batches, batches-Short}
use shelf_back.S3.Laws.{holds, is_some, IsBucket, AllPlain, is_xml_plain}
use shelf_back.S3.Storage.{delete, delete_batch, deletedir, folder_prefix}
use shelf_back.S3.Sent.{send_ok, list_objects-Pages}

holds-append : (xs ys : List Text) (k : Text) → holds (xs ++ ys) k ≡ (holds xs k || holds ys k)
holds-append [] ys k = refl
holds-append (x ∷ xs) ys k = elim (Bool-cases (text_eq x k)) [
  | inl e ↦ rw e refl
  | inr e ↦ rw e (holds-append xs ys k)
]

AllPlain-append : (xs ys : List Text) → AllPlain (xs ++ ys) → AllPlain xs × AllPlain ys
AllPlain-append [] ys h = (tt, h)
AllPlain-append (x ∷ xs) ys (p, h) = let (hs, ks) = AllPlain-append xs ys h in ((p, hs), ks)

AllPlain-holds :
    (keys : List Text) → ((k : Text) → holds keys k ≡ true → is_xml_plain k ≡ true) → AllPlain keys
AllPlain-holds [] h = tt
AllPlain-holds (k ∷ keys) h = (
  h k (rw (text_eq_refl k) refl),
  AllPlain-holds keys (λ x e. h x (rw e (or_true (text_eq k x)))),
)
  where
    or_true : (b : Bool) → (b || true) ≡ true
    or_true true = refl
    or_true false = refl

if_or :
    {A : Type 0} (a b : Bool) (x y : A)
    → (if b then x else if a then x else y) ≡ (if a || b then x else y)
if_or true true x y = refl
if_or true false x y = refl
if_or false true x y = refl
if_or false false x y = refl

module _ (S : Service) (bucket : Text) (objects : S.State → Text → Option Text) where
  -- The method returns, and then the objects are these.
  abbrev pub Changes : {A : Type 0} → Exec S.State A → S.State → (Text → Option Text) → Type 0
  Changes {A} m s objects' =
      (a : A) × (s' : S.State) × (m s ≡ (ok a, s')) × ((k : Text) → objects s' k ≡ objects' k)

  abbrev pub without : List Text → S.State → Text → Option Text
  without keys s k = if holds keys k then none else objects s k

  -- The objects below a prefix have keys that XML reads as they are.
  abbrev pub PlainBelow : Text → S.State → Type 0
  PlainBelow prefix s =
      (k : Text) → has_prefix prefix k ≡ true → is_some (objects s k) ≡ true → is_xml_plain k ≡ true

  module _ (L : IsBucket S bucket objects) where
    delete_1000_files-Changes :
        (files : List Text) (s : S.State)
        → is_nil files ≡ false
        → length files ≤ delete_limit
        → AllPlain files
        → Changes (delete_1000_files S bucket files) s (without files s)
    unfolding delete_1000_files
    delete_1000_files-Changes files s some_file h p =
        let (r, s', e, k, o) = L.delete files s some_file h p in
        let short : leb (length files) delete_limit ≡ true = ground (arith, h) in
        (
          r.keys,
          s',
          rw (short, send_ok S bucket (delete_request bucket (delete_body files)) s s' r e k) refl,
          o,
        )

    -- No request of a deletion is longer than it may be, so that the assertion holds.
    delete_all-Changes :
        (xss : List (List Text)) (s : S.State)
        → Short xss
        → AllPlain (flat xss)
        → Changes (delete_all S bucket xss) s (without (flat xss) s)
    unfolding delete_all
    delete_all-Changes [] s h p = ([], s, refl, λ k. refl)
    delete_all-Changes (xs ∷ xss) s (some_file, h, hs) p =
        let (px, ps) = AllPlain-append xs (flat xss) p in
        let (ks, s', e, o) = delete_1000_files-Changes xs s some_file h px in
        let (ks', s'', e', o') = delete_all-Changes xss s' hs ps in
        (
          ks ++ ks',
          s'',
          rw (e, e') refl,
          λ k.
              rw (o' k, o k, holds-append xs (flat xss) k)
                (if_or (holds xs k) (holds (flat xss) k) none (objects s k)),
        )

    client_delete-Changes :
        (files : List Text) (s : S.State)
        → AllPlain files
        → Changes (S3.delete S bucket files) s (without files s)
    unfolding S3.delete
    client_delete-Changes files s p =
        let whole = flat-slices (length files) files (omega arith) in
        let (ks, s', e, o) =
          delete_all-Changes (slices (length files) files) s (slices-Short (length files) files)
            (subst AllPlain (sym whole) p) in
        (ks, s', e, λ k. o k ∙ ap (λ xs. without xs s k) whole)

    -- For keys whose normal forms have no mark-up of XML and no control characters, however many they
    -- are, `delete_batch` returns, and then the objects at the normal forms are gone and no others.
    pub delete_batch-objects :
        (fuel : ℕ) (keys : List Text) (s : S.State)
        → AllPlain (map normpath keys)
        → Changes (delete_batch S bucket fuel keys) s (without (map normpath keys) s)
    unfolding delete_batch
    delete_batch-objects fuel keys s p =
        let (ks, s', e, o) = client_delete-Changes (map normpath keys) s p in (tt, s', rw e refl, o)

    pub delete-Changes :
        (fuel : ℕ) (key : Text) (s : S.State)
        → is_xml_plain (normpath key) ≡ true
        → Changes (delete S bucket fuel key) s (without (normpath key ∷ []) s)
    unfolding delete
    delete-Changes fuel key s p =
        let (ks, s', e, o) = client_delete-Changes (normpath key ∷ []) s (p, tt) in
        (tt, s', rw e refl, o)

    below_prefix :
        (prefix : Text) (k : Text) (keys : List Text) (s : S.State)
        → holds keys k ≡ (has_prefix prefix k && is_some (objects s k))
        → without keys s k ≡ (if has_prefix prefix k then none else objects s k)
    below_prefix prefix k keys s h = elim (Bool-cases (has_prefix prefix k)) [
      | inr e ↦ rw (h, e) refl
      | inl e ↦ elim (Option-cases (objects s k)) [
        | inl n ↦ rw (h, e, n) refl
        | inr (b, n) ↦ rw (h, e, n) refl
      ]
    ]

    plain_listed :
        (prefix : Text) (keys : List Text) (s : S.State)
        → PlainBelow prefix s
        → ((k : Text) → holds keys k ≡ (has_prefix prefix k && is_some (objects s k)))
        → AllPlain keys
    plain_listed prefix keys s p h = AllPlain-holds keys (λ k e.
        let (a, b) = both (has_prefix prefix k) (is_some (objects s k)) (sym (h k) ∙ e) in p k a b)
      where
        both : (a b : Bool) → (a && b) ≡ true → (a ≡ true) × (b ≡ true)
        both true b e = (refl, e)
        both false b e = cc

    -- Where the keys of the objects below the folder have no mark-up of XML and no control characters,
    -- and with fuel for the pages of the listing, `deletedir` returns, and then the objects below the
    -- folder are gone and no others.
    pub deletedir-objects :
        (key : Text) (s : S.State)
        → has_prefix (codes "/") (folder_prefix key) ≡ false
        → PlainBelow (folder_prefix key) s
        → (n : ℕ) × ((fuel : ℕ)
            → n ≤ fuel
            → Changes
                (deletedir S bucket fuel key)
                s
                (λ k. if has_prefix (folder_prefix key) k then none else objects s k))
    unfolding deletedir delete_recursive
    deletedir-objects key s h plain =
        let (n, entries, p, listed) = L.list (folder_prefix key) s in
        let keys = map key_of entries in
        let (ks, s', e, o) =
          delete_all-Changes (batches [] keys) s (batches-Short [] keys (omega arith)) (
            subst AllPlain (sym (flat-batches [] keys))
              (plain_listed (folder_prefix key) keys s plain listed)) in
        (
          n,
          λ fuel k. (
            tt,
            s',
            rw (list_objects-Pages S bucket (folder_prefix key) s n entries h p fuel k, e) refl,
            λ x.
                o x
                ∙ ap (λ xs. without xs s x) (flat-batches [] keys)
                ∙ below_prefix (folder_prefix key) x keys s (listed x),
          ),
        )
