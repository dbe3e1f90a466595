-- ===== src/Photos/AlbumService/Contents.antt =====
-- What `AlbumUseCase.add_album_items` puts into an album, app/app/photos/usecases/album.py, and
-- `AlbumUseCase.list_items` shows.
use mathlib.Core.Option
use shelf_back.Base.{
  ℕ, ◌≤◌, ◌≡◌, refl, ap, ◌∙◌, Bool, true, ◌&&◌, inl, inr, Option, some, List, [], ◌∷◌, ◌==◌, ==_iff,
  if◌then◌else◌, keep_if, any, contains, find_first, update_where, sort_by, length, take,
  Option-cases, arith,
}
use shelf_back.Base.Int.{pos, ◌+ℤ◌}
use shelf_back.Base.Text.{Text}
use shelf_back.Base.Exec.{ok, album_not_found}
use shelf_back.Base.Keeps.{Keeps, Keeps-modify, Keeps-pure, Keeps-or_raise, keep_rules}
use shelf_back.Photos.{Album, MediaItem, PhotoDb}
use shelf_back.Photos.Albums.{
  is_album, get_by_slug, write_album, has_item, add_pairs, items_in, ids_of, recount, add_items,
  is_live, latest_first, list_items, set_cover,
}
use shelf_back.Photos.AlbumService.{add_album_items, cover_first}
use shelf_back.Photos.AlbumService.Covers.{any-sort_by}
use shelf_back.Photos.AlbumService.Removal.{find_first-update_where}
use shelf_back.Photos.AlbumService.Finding.{
  has_item-add_pairs, any-keep_if-found, any-keep_if-live, contains-live, or_true, length-keep_if,
  length-sort_by, take_all, rollback_ok, kept_id,
}

module _ (owner_id : ℕ) (slug : Text) (id limit : ℕ) where
  -- The album of that slug has the item, which is there and not deleted.
  abbrev Contains : PhotoDb → Type 0
  Contains db =
      (a : Album) × (find_first (is_album owner_id slug) db.albums ≡ some a)
      × (has_item db.album_items a.id id ≡ true)
      × (any (λ n. n.id == id && is_live n) db.media_items ≡ true)
      × (length db.media_items ≤ limit)

  list_items-Contains :
      (db : PhotoDb)
      → Contains db
      → (items : List MediaItem) × (list_items owner_id slug 0 limit db ≡ (ok items, db))
        × (any (λ n. n.id == id) items ≡ true)
  unfolding list_items
  list_items-Contains db (a, f, h, live, bound) =
      let albums = keep_if (is_album owner_id slug) db.albums in
      let shown : MediaItem → Bool =
        λ m. any (λ b. has_item db.album_items b.id m.id) albums && is_live m in
      let sorted = sort_by latest_first (keep_if shown db.media_items) in
      let there =
        any-keep_if-live id shown db.media_items
          (λ n e l.
            rw
              (
                any-keep_if-found (is_album owner_id slug) (λ b. has_item db.album_items b.id n.id)
                    db.albums a f (ap (has_item db.album_items a.id) ((==_iff n.id id).0 e) ∙ h),
                l,
              )
              refl)
          live in
      (
        take limit sorted,
        refl,
        ap (any (λ n. n.id == id)) (
              take_all limit sorted (
                omega (
                  arith,
                  bound,
                  length-sort_by latest_first (keep_if shown db.media_items),
                  length-keep_if shown db.media_items,
                )))
            ∙ any-sort_by (λ n. n.id == id) latest_first (keep_if shown db.media_items)
            ∙ there,
      )

  Contains-write_album :
      (album_id : ℕ) (change : Album → Album)
      → ((a : Album) → is_album owner_id slug (change a) ≡ is_album owner_id slug a)
      → ((a : Album) → (change a).id ≡ a.id)
      → Keeps Contains (write_album album_id change)
  unfolding write_album
  Contains-write_album album_id change same_album same_id =
      Keeps-modify Contains _ (λ db (a, f, h, live, bound). (
        (if a.id == album_id then change a else a),
        find_first-update_where (is_album owner_id slug) (λ b. b.id == album_id) change db.albums
              same_album
            ∙ ap (Option.map (λ b. if b.id == album_id then change b else b)) f,
        ap (λ k. has_item db.album_items k id) (kept_id (a.id == album_id) a change (same_id a))
            ∙ h,
        live,
        bound,
      ))

  get_by_slug-Keeps : Keeps Contains (get_by_slug owner_id slug)
  unfolding get_by_slug
  get_by_slug-Keeps = record {
    at = λ db c.
        (Keeps-or_raise Contains (find_first (is_album owner_id slug) db.albums) album_not_found).at
          db c;
  }

  cover-Keeps :
      (album_id : ℕ) (cover : Option ℕ)
      → Keeps Contains (write_album album_id (λ a. record a { cover = cover }))
  cover-Keeps album_id cover = Contains-write_album album_id _ (λ a. refl) (λ a. refl)

  set_cover-Contains : (cover : Option ℕ) → Keeps Contains (set_cover owner_id slug cover)
  unfolding set_cover
  set_cover-Contains cover = search (keep_rules, get_by_slug-Keeps, cover-Keeps) depth 14

  cover_first-Contains :
      (ids : List ℕ) (album : Album) → Keeps Contains (cover_first owner_id slug ids album)
  cover_first-Contains [] album = search keep_rules
  cover_first-Contains (i ∷ ids) album = elim (Option-cases album.cover) [
    | inl e ↦ rw e (set_cover-Contains (some i))
    | inr (cover, e) ↦ rw e (Keeps-pure Contains _)
  ]

  -- The album as `add_items` leaves it, and the tables
  abbrev grown : List ℕ → Album → Album
  grown ids a = recount (a.items_count +ℤ pos (length ids)) a

  abbrev filled : List ℕ → Album → PhotoDb → PhotoDb
  filled ids a db = record db {
    album_items = add_pairs a.id (ids_of (items_in db ids)) db.album_items;
    albums =
        update_where (λ b. b.id == a.id) (recount (a.items_count +ℤ pos (length ids))) db.albums;
  }

  add_items_lem :
      (ids : List ℕ) (a : Album) (db : PhotoDb)
      → find_first (is_album owner_id slug) db.albums ≡ some a
      → add_items owner_id slug ids db ≡ (ok (grown ids a), filled ids a db)
  unfolding add_items get_by_slug write_album
  add_items_lem ids a db f = rw f refl

  filled_ids :
      (ids : List ℕ) (db : PhotoDb)
      → contains ids id ≡ true
      → any (λ n. n.id == id && is_live n) db.media_items ≡ true
      → contains (ids_of (items_in db ids)) id ≡ true
  unfolding items_in
  filled_ids ids db c live = contains-live ids id db.media_items live c

  filled-Contains :
      (ids : List ℕ) (a : Album) (db : PhotoDb)
      → find_first (is_album owner_id slug) db.albums ≡ some a
      → contains ids id ≡ true
      → any (λ n. n.id == id && is_live n) db.media_items ≡ true
      → length db.media_items ≤ limit
      → Contains (filled ids a db)
  filled-Contains ids a db f c live bound = (
    (if a.id == a.id then grown ids a else a),
    find_first-update_where (is_album owner_id slug) (λ b. b.id == a.id) _ db.albums (λ b. refl)
        ∙ ap
            (Option.map
              (λ b. if b.id == a.id then recount (a.items_count +ℤ pos (length ids)) b else b))
            f,
    ap (λ k. has_item (add_pairs a.id (ids_of (items_in db ids)) db.album_items) k id)
          (kept_id (a.id == a.id) a (grown ids) refl)
        ∙ has_item-add_pairs a.id id (ids_of (items_in db ids)) db.album_items
            (or_true _ _ (filled_ids ids db c live)),
    live,
    bound,
  )

  -- An item that is there and not deleted, whoever owns it, is among the items of the album once it was
  -- added.
  pub add_album_items-list_items :
      (ids : List ℕ) (a album : Album) (db db' : PhotoDb)
      → find_first (is_album owner_id slug) db.albums ≡ some a
      → contains ids id ≡ true
      → any (λ n. n.id == id && is_live n) db.media_items ≡ true
      → length db.media_items ≤ limit
      → add_album_items owner_id slug ids db ≡ (ok album, db')
      → (items : List MediaItem) × (list_items owner_id slug 0 limit db' ≡ (ok items, db'))
        × (any (λ n. n.id == id) items ≡ true)
  unfolding add_album_items
  add_album_items-list_items ids a album db db' f c live bound h =
      let added = add_items_lem ids a db f in
      let kept =
        (cover_first-Contains ids (grown ids a)).at (filled ids a db)
          (filled-Contains ids a db f c live bound) in
      let ended : cover_first owner_id slug ids (grown ids a) (filled ids a db) ≡ (ok album, db') =
        rw added at (rollback_ok _ db db' album h) in
      list_items-Contains db' (rw (ap (λ x. x.1) ended) at kept)
