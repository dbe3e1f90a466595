-- ===== src/Photos/AlbumService/Covers.antt =====
-- Which cover an album gets: `AlbumService.reassign_covers` and its callers,
-- app/app/photos/services/album.py and usecases/album.py.
use mathlib.Core.Path.{ap₂}
use shelf_back.Base.{
  ℕ, ◌≡◌, refl, sym, ◌∙◌, Bool, true, false, ◌&&◌, ◌||◌, inl, inr, Option, none, some, List, [],
  ◌∷◌, map, ◌==◌, ltb, if◌then◌else◌, keep_if, any, contains, sort_by, insert_sorted, Bool-cases,
  Option-cases, arith, ==_refl,
}
use shelf_back.Base.Exec.{ok}
use shelf_back.Photos.{Album, MediaItem, PhotoDb}
use shelf_back.Photos.Albums.{
  dict_get, cover_candidate, candidates_of, first_item, list_cover_candidates, set_cover_batch,
  cover_from, has_item, is_live,
}
use shelf_back.Photos.AlbumService.{covers_for, reassign_covers}

-- The identifier of an item, if there is one.
abbrev pub id_of : Option MediaItem → Option ℕ
id_of none = none
id_of (some m) = some m.id

-- The album with the cover that `cover_candidate` names, if it is one of the given albums.
unfoldable pub recover : PhotoDb → List ℕ → Album → Album
recover db ids a =
    if contains ids a.id then record a { cover = id_of (cover_candidate db a.id) } else a

dict_get-candidates_of :
    (db : PhotoDb) (albums : List Album) (k : ℕ)
    → dict_get (candidates_of db albums) k
      ≡ (if any (λ a. a.id == k) albums then id_of (cover_candidate db k) else none)
unfolding dict_get candidates_of any
dict_get-candidates_of db [] k = refl
dict_get-candidates_of db (a ∷ albums) k = ground (arith, dict_get-candidates_of db albums k)

dict_get-covers_for :
    (candidates : List (ℕ × ℕ)) (ids : List ℕ) (k : ℕ)
    → dict_get (covers_for candidates ids) k
      ≡ (if contains ids k then some (dict_get candidates k) else none)
unfolding dict_get covers_for contains
dict_get-covers_for candidates [] k = refl
dict_get-covers_for candidates (id ∷ ids) k = ground (arith, dict_get-covers_for candidates ids k)

pub any-insert_sorted :
    {A : Type 0} (p : A → Bool) (lt : A → A → Bool) (a : A) (albums : List A)
    → any p (insert_sorted lt a albums) ≡ (p a || any p albums)
unfolding any insert_sorted
any-insert_sorted p lt a [] = refl
any-insert_sorted p lt a (b ∷ albums) = ground (arith, any-insert_sorted p lt a albums)

pub any-sort_by :
    {A : Type 0} (p : A → Bool) (lt : A → A → Bool) (albums : List A)
    → any p (sort_by lt albums) ≡ any p albums
unfolding any sort_by
any-sort_by p lt [] = refl
any-sort_by p lt (a ∷ albums) =
    any-insert_sorted p lt a (sort_by lt albums) ∙ rw (any-sort_by p lt albums)

any-keep_if_ids :
    (ids : List ℕ) (k : ℕ) (albums : List Album)
    → contains ids k ≡ true
    → any (λ a. a.id == k) (keep_if (λ a. contains ids a.id) albums) ≡ any (λ a. a.id == k) albums
unfolding any keep_if
any-keep_if_ids ids k [] h = refl
any-keep_if_ids ids k (a ∷ albums) h = ground (arith, any-keep_if_ids ids k albums h)

map_cong_ids :
    (f g : Album → Album) (albums : List Album)
    → ((a : Album) → any (λ b. b.id == a.id) albums ≡ true → f a ≡ g a)
    → map f albums ≡ map g albums
unfolding any
map_cong_ids f g [] h = refl
map_cong_ids f g (a ∷ albums) h =
    ap₂ (λ b bs. b ∷ bs) (h a (rw (==_refl a.id)))
      (map_cong_ids f g albums (λ b e. h b (rw e (ground arith))))

map_id : (f : Album → Album) (albums : List Album) → ((a : Album) → f a ≡ a) → map f albums ≡ albums
map_id f [] h = refl
map_id f (a ∷ albums) h = ap₂ (λ b bs. b ∷ bs) (h a) (map_id f albums h)

cover_from-recover :
    (db : PhotoDb) (ids : List ℕ) (lt : Album → Album → Bool) (a : Album)
    → any (λ b. b.id == a.id) db.albums ≡ true
    → let known = sort_by lt (keep_if (λ b. contains ids b.id) db.albums) in
      cover_from (covers_for (candidates_of db known) ids) a ≡ recover db ids a
unfolding cover_from recover
cover_from-recover db ids lt a h =
    let known = sort_by lt (keep_if (λ b. contains ids b.id) db.albums) in
    elim (Bool-cases (contains ids a.id)) [
      | inl e ↦ rw (
        dict_get-covers_for (candidates_of db known) ids a.id,
        e,
        cover_from,
        dict_get-candidates_of db known a.id,
        any-sort_by (λ b. b.id == a.id) lt (keep_if (λ b. contains ids b.id) db.albums),
        any-keep_if_ids ids a.id db.albums e,
        h,
      )
      | inr e ↦ rw (dict_get-covers_for (candidates_of db known) ids a.id, e, cover_from)
    ]

-- `reassign_covers` always succeeds. It gives each of the named albums the cover that
-- `cover_candidate` names, the latest item of the album that is not deleted, or none if there is
-- no such item; it changes nothing else, the other albums' covers included.
pub reassign_covers_lem :
    (ids : List ℕ) (db : PhotoDb)
    → reassign_covers ids db ≡ (ok tt, record db { albums = map (recover db ids) db.albums })
unfolding reassign_covers list_cover_candidates set_cover_batch
reassign_covers_lem [] db =
    let same = map_id (recover db []) db.albums (λ a. unfold recover contains in refl) in
    λ i. (ok tt, record db { albums = sym same i })
reassign_covers_lem (id ∷ ids) db =
    let lt : Album → Album → Bool = λ a b. ltb a.id b.id in
    let known = sort_by lt (keep_if (λ a. contains (id ∷ ids) a.id) db.albums) in
    let same =
      map_cong_ids (cover_from (covers_for (candidates_of db known) (id ∷ ids)))
        (recover db (id ∷ ids)) db.albums (λ a h. cover_from-recover db (id ∷ ids) lt a h) in
    λ i. (ok tt, record db { albums = same i })

-- An item of the list has the identifier.
unfoldable pub any_id : ℕ → List MediaItem → Bool
any_id id [] = false
any_id id (m ∷ ms) = m.id == id || any_id id ms

pub first_item-keep_if :
    (p : MediaItem → Bool) (ms : List MediaItem) (m : MediaItem)
    → first_item (keep_if p ms) ≡ some m
    → (p m ≡ true) × (any_id m.id ms ≡ true)
unfolding first_item keep_if any_id
first_item-keep_if p [] m h = cc
first_item-keep_if p (k ∷ ms) m h = elim (Bool-cases (p k)) [
  | inl e ↦ elim (Option-cases (first_item (keep_if p ms))) [
    | inl none_left ↦ ground arith
    | inr (j, f) ↦ ground (arith, first_item-keep_if p ms j f, first_item-keep_if p ms m)
  ]
  | inr e ↦ ground (arith, first_item-keep_if p ms m)
]

-- The candidate is an item of the album that is not deleted.
pub cover_candidate_lem :
    (db : PhotoDb) (album_id : ℕ) (m : MediaItem)
    → cover_candidate db album_id ≡ some m
    → ((has_item db.album_items album_id m.id && is_live m) ≡ true)
      × (any_id m.id db.media_items ≡ true)
unfolding cover_candidate
cover_candidate_lem db album_id m h =
    first_item-keep_if (λ k. has_item db.album_items album_id k.id && is_live k) db.media_items m h
