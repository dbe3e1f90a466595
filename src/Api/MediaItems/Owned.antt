-- ===== src/Api/MediaItems/Owned.antt =====
-- Whose contents a download session of media items has: app/app/photos/services/media_item.py.
use shelf_back.Base.{
  ℕ, ◌≡◌, refl, sym, ap, ◌∙◌, Bool, true, false, ◌&&◌, inl, inr, none, some, List, [], ◌∷◌, map,
  ◌==◌, keep_if, contains, any, sort_by, insert_sorted, is_nil, Bool-cases, Option-cases,
}
use shelf_back.Base.Text.{Text, text_eq, text_eq_refl}
use shelf_back.Base.Exec.{Result, ok, err}
use shelf_back.Files.Model.{Blob}
use shelf_back.Blobs.Repository
use shelf_back.Photos.{MediaItem, PhotoDb}
use shelf_back.Photos.Albums.{dict_get}
use shelf_back.Photos.MediaItems
use shelf_back.Api.MediaItems.{Session, from_keys, by_id, session_items, get_download_items}

-- The content of the blob of a media item that the user owns
abbrev is_owned_content : PhotoDb → ℕ → Text → Bool
is_owned_content db owner_id storage_key =
    any
      (λ m.
        m.owner_id == owner_id
        && any (λ b. b.id == m.blob_id && text_eq b.storage_key storage_key) db.core.blobs)
      db.media_items

abbrev pub all_owned : PhotoDb → ℕ → Session → Bool
all_owned db owner_id [] = true
all_owned db owner_id (item ∷ items) =
    is_owned_content db owner_id item.storage_key && all_owned db owner_id items

-- The element is in the list: what holds of it holds of one of the list.
abbrev Among : {A : Type 0} → List A → A → Type 0
Among {A} xs x = (p : A → Bool) → p x ≡ true → any p xs ≡ true

abbrev All : {A : Type 0} → (A → Type 0) → List A → Type 0
All P [] = Unit
All P (x ∷ xs) = P x × All P xs

All-map :
    {A : Type 0} {P Q : A → Type 0} (xs : List A) → ((x : A) → P x → Q x) → All P xs → All Q xs
All-map [] f h = tt
All-map (x ∷ xs) f (h, hs) = (f x h, All-map xs f hs)

All-keep_if :
    {A : Type 0} (P : A → Type 0) (q : A → Bool) (xs : List A)
    → All P xs
    → All (λ x. P x × (q x ≡ true)) (keep_if q xs)
unfolding keep_if
All-keep_if P q [] h = tt
All-keep_if P q (x ∷ xs) (h, hs) = elim (Bool-cases (q x)) [
  | inl e ↦ rw e ((h, e), All-keep_if P q xs hs)
  | inr e ↦ rw e (All-keep_if P q xs hs)
]

All-insert_sorted :
    {A : Type 0} (P : A → Type 0) (lt : A → A → Bool) (x : A) (xs : List A)
    → P x
    → All P xs
    → All P (insert_sorted lt x xs)
unfolding insert_sorted
All-insert_sorted P lt x [] p h = (p, tt)
All-insert_sorted P lt x (y ∷ xs) p (h, hs) = elim (Bool-cases (lt y x)) [
  | inl e ↦ rw e (h, All-insert_sorted P lt x xs p hs)
  | inr e ↦ rw e (p, (h, hs))
]

All-sort_by :
    {A : Type 0} (P : A → Type 0) (lt : A → A → Bool) (xs : List A)
    → All P xs
    → All P (sort_by lt xs)
unfolding sort_by
All-sort_by P lt [] h = tt
All-sort_by P lt (x ∷ xs) (h, hs) =
    All-insert_sorted P lt x (sort_by lt xs) h (All-sort_by P lt xs hs)

Among-cons : {A : Type 0} (y x : A) (xs : List A) → Among xs x → Among (y ∷ xs) x
unfolding any
Among-cons y x xs h p e = elim (Bool-cases (p y)) [ inl k ↦ rw k refl | inr k ↦ rw k (h p e) ]

Among-head : {A : Type 0} (x : A) (xs : List A) → Among (x ∷ xs) x
unfolding any
Among-head x xs p e = rw e refl

Among-self : {A : Type 0} (xs : List A) → All (Among xs) xs
Among-self [] = tt
Among-self (x ∷ xs) = (Among-head x xs, All-map xs (λ y h. Among-cons x y xs h) (Among-self xs))

any-All :
    {A : Type 0} (p : A → Bool) (all xs : List A)
    → All (Among all) xs
    → any p xs ≡ true
    → any p all ≡ true
unfolding any
any-All p all [] h e = cc
any-All p all (x ∷ xs) (h, hs) e = elim (Bool-cases (p x)) [
  | inl k ↦ h p k
  | inr k ↦ any-All p all xs hs (rw k at e)
]

-- What the dictionary has at a key is a blob with that identifier.
dict_get-by_id :
    (blobs : List Blob) (id : ℕ) (b : Blob)
    → dict_get (by_id blobs) id ≡ some b
    → Among blobs b × ((b.id == id) ≡ true)
unfolding dict_get
dict_get-by_id [] id b h = cc
dict_get-by_id (a ∷ blobs) id b h = elim (Option-cases (dict_get (by_id blobs) id)) [
  | inr (c, e) ↦
      let (among, same) = dict_get-by_id blobs id b (e ∙ (rw e at h)) in
      (Among-cons a b blobs among, same)
  | inl e ↦ elim (Bool-cases (a.id == id)) [
    | inl k ↦
        let same : a ≡ b = ap (λ o. elim o [ none ↦ a | some x ↦ x ]) (rw (e, k) at h) in
        ((λ p q. Among-head a blobs p (ap p same ∙ q)), ap (λ x. x.id == id) (sym same) ∙ k)
    | inr k ↦ let no = rw (e, k) at h in cc
  ]
]

module _ (db : PhotoDb) (owner_id : ℕ) (blobs : List Blob)
    (from_table : All (Among db.core.blobs) blobs) where
  owned-content :
      (m : MediaItem) (b : Blob)
      → Among db.media_items m
      → (m.owner_id == owner_id) ≡ true
      → dict_get (by_id blobs) m.blob_id ≡ some b
      → is_owned_content db owner_id b.storage_key ≡ true
  owned-content m b among owner found =
      let (in_blobs, same) = dict_get-by_id blobs m.blob_id b found in
      let stored =
        any-All (λ c. c.id == m.blob_id && text_eq c.storage_key b.storage_key) db.core.blobs blobs
          from_table
          (in_blobs (λ c. c.id == m.blob_id && text_eq c.storage_key b.storage_key)
            (rw (same, text_eq_refl b.storage_key) refl)) in
      among _ (rw (owner, stored) refl)

  session_items-owned :
      (items : List MediaItem)
      → All (λ m. Among db.media_items m × ((m.owner_id == owner_id) ≡ true)) items
      → all_owned db owner_id (session_items (by_id blobs) items) ≡ true
  unfolding session_items
  session_items-owned [] h = refl
  session_items-owned (m ∷ items) ((among, owner), hs) =
      elim (Option-cases (dict_get (by_id blobs) m.blob_id)) [
        | inl e ↦ rw (e, all_owned) (session_items-owned items hs)
        | inr (b, e) ↦
            rw (e, all_owned, owned-content m b among owner e, session_items-owned items hs) refl
      ]

abbrev session_of : Result Session → Session
session_of (ok items) = items
session_of (err e) = []

-- The items of a session are contents of media items that the user owns, whatever identifiers are
-- asked for, and there is one.
pub get_download_items-owned :
    (owner_id : ℕ) (ids : List ℕ) (db : PhotoDb) (items : Session)
    → get_download_items owner_id ids db ≡ (ok items, db)
    → (all_owned db owner_id items ≡ true) × (is_nil items ≡ false)
unfolding get_download_items MediaItems.get_by_id_batch Repository.get_by_id_batch
get_download_items-owned owner_id ids db items h =
    let found =
      sort_by MediaItems.latest_first
        (keep_if (λ m. contains (from_keys ids) m.id) db.media_items) in
    let kept = keep_if (λ m. m.owner_id == owner_id) found in
    let blobs = keep_if (λ b. contains (map (λ m. m.blob_id) kept) b.id) db.core.blobs in
    let stored = All-sort_by (Among db.media_items) MediaItems.latest_first _ (
      All-map _ (λ m x. x.0)
        (All-keep_if (Among db.media_items) (λ m. contains (from_keys ids) m.id) db.media_items
          (Among-self db.media_items))) in
    let owned =
      session_items-owned db owner_id blobs
        (All-map blobs (λ b x. x.0)
          (All-keep_if (Among db.core.blobs) (λ b. contains (map (λ m. m.blob_id) kept) b.id)
            db.core.blobs (Among-self db.core.blobs)))
        kept (All-keep_if (Among db.media_items) (λ m. m.owner_id == owner_id) found stored) in
    elim (Bool-cases (is_nil kept)) [
      | inl e ↦ let no = rw e at h in cc
      | inr e ↦ elim (Bool-cases (is_nil (session_items (by_id blobs) kept))) [
        | inl e' ↦ let no = rw (e, e') at h in cc
        | inr e' ↦
            let same = ap (λ x. session_of x.0) (rw (e, e') at h) in
            (ap (all_owned db owner_id) (sym same) ∙ owned, ap is_nil (sym same) ∙ e')
      ]
    ]
