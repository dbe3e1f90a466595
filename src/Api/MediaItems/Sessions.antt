-- ===== src/Api/MediaItems/Sessions.antt =====
-- Download sessions of media items: app/app/photos/services/media_item.py and
-- app/api/photos/media_items.
use shelf_back.Base.{
  ℕ, ◌+◌, ◌≤◌, ◌<◌, ◌≡◌, refl, ap, ◌∙◌, true, false, Option, none, some, List, length, ltb,
  if◌then◌else◌, is_nil, arith,
}
use shelf_back.Base.Text.{Text}
use shelf_back.Base.Exec.{ok, media_item_not_found, raise, continue}
use shelf_back.Api.{
  nothing_caught, Reply, answer, refusal, api_download_not_found, reply_of, proceed,
}
use shelf_back.Api.Downloads.{ValueCache, IsValueCache}
use shelf_back.Api.MediaItems.{
  DownloadMediaItem, Session, get_download_items, cache_key, MediaWeb, create_download_session,
  get_download_session, download_session, download_media_item, download_media_items_batch,
  get_download_url, link_to, one_item, or_not_found, popped, keep_session, on_get_download_url,
}
use shelf_back.Api.MediaItems.Owned.{all_owned, get_download_items-owned}

module _ (C : ValueCache Session) (L : IsValueCache C) where
  -- What `_download_session` answers for what the cache has
  abbrev opened : Text → MediaWeb C → Option Session → Reply Session × MediaWeb C
  opened key w value =
      let (r, w') = popped C value (cache_key key) w in
      proceed (λ value w. (or_not_found C value, w))
        (reply_of nothing_caught (λ value. value) r, w')

  abbrev ones : Reply Session × MediaWeb C → Reply DownloadMediaItem × MediaWeb C
  ones = proceed (λ session w. (one_item C session, w))

  abbrev archives : Reply Session × MediaWeb C → Reply Session × MediaWeb C
  archives = proceed (λ session w.
      (if ltb (length session) 2 then refusal api_download_not_found else answer session, w))

  session-found :
      (t : ℕ) (key : Text) (items : Session) (w : MediaWeb C)
      → C.get t w.sessions (cache_key key) ≡ some items
      → download_session C t key w
        ≡ (answer items, record w { sessions = C.delete (cache_key key) w.sessions })
  unfolding download_session get_download_session
  session-found t key items w h = ap (opened key w) h

  session-missing :
      (t : ℕ) (key : Text) (w : MediaWeb C)
      → C.get t w.sessions (cache_key key) ≡ none
      → download_session C t key w ≡ (refusal api_download_not_found, w)
  unfolding download_session get_download_session
  session-missing t key w h = ap (opened key w) h

  -- Once deleted, the session is in neither view.
  used_up :
      (later : ℕ) (key : Text) (w : MediaWeb C) (left : C.State)
      → ((download_media_item C later key (record w { sessions = C.delete (cache_key key) left })).0
          ≡ refusal api_download_not_found)
        × ((download_media_items_batch C later key
              (record w { sessions = C.delete (cache_key key) left })).0
            ≡ refusal api_download_not_found)
  unfolding download_media_item download_media_items_batch
  used_up later key w left =
      let gone =
        session-missing later key (record w { sessions = C.delete (cache_key key) left })
          (L.get-delete later (cache_key key) left) in
      (ap (λ x. (ones x).0) gone, ap (λ x. (archives x).0) gone)

  linked_lem :
      (now : ℕ) (key : Text) (user_id : ℕ) (ids : List ℕ) (items : Session) (w : MediaWeb C)
      → get_download_items user_id ids w.photos ≡ (ok items, w.photos)
      → is_nil items ≡ false
      → get_download_url C now key user_id ids w ≡ (
        answer (link_to C (record { key = key; items_count = length items })),
        record w { sessions = C.set now (cache_key key) items 60 w.sessions },
      )
  unfolding get_download_url create_download_session
  linked_lem now key user_id ids items w h n =
      ap
        (λ x.
          let (r, w') =
            continue x.0
              (λ items.
                if is_nil items then raise media_item_not_found else keep_session C now key items)
              (record w { photos = x.1 }) in
          (reply_of on_get_download_url (link_to C) r, w'))
        h
      ∙ rw n refl

  -- A link to media items leads to them once, within a minute: a link to one item to the view of one
  -- item, a link to several to the archive. They are contents of media items of the user who asked for
  -- the link. Either view uses the link up, also when it refuses the session.
  pub get_download_url-download_media_item :
      (now t later : ℕ) (key : Text) (user_id : ℕ) (ids : List ℕ) (items : Session) (w : MediaWeb C)
      → get_download_items user_id ids w.photos ≡ (ok items, w.photos)
      → now ≤ t
      → t < now + 60
      → let (link, linked) = get_download_url C now key user_id ids w in
        let (one, after_one) = download_media_item C t key linked in
        let (batch, after_batch) = download_media_items_batch C t key linked in
        (link ≡ answer (link_to C (record { key = key; items_count = length items })))
        × (one ≡ one_item C items)
        × (batch ≡ (if ltb (length items) 2 then refusal api_download_not_found else answer items))
        × (all_owned w.photos user_id items ≡ true)
        × ((download_media_item C later key after_one).0 ≡ refusal api_download_not_found)
        × ((download_media_items_batch C later key after_one).0 ≡ refusal api_download_not_found)
        × ((download_media_item C later key after_batch).0 ≡ refusal api_download_not_found)
        × ((download_media_items_batch C later key after_batch).0 ≡ refusal api_download_not_found)
  unfolding download_media_item download_media_items_batch
  get_download_url-download_media_item now t later key user_id ids items w h k l =
      let (owned, nonempty) = get_download_items-owned user_id ids w.photos items h in
      let kept = C.set now (cache_key key) items 60 w.sessions in
      let in_time : ltb t (now + 60) ≡ true = ground (arith, l) in
      let first =
        session-found t key items (record w { sessions = kept })
          (L.get-set t now 60 (cache_key key) items w.sessions k ∙ rw in_time refl) in
      let (gone, gone') = used_up later key w kept in
      rw (linked_lem now key user_id ids items w h nonempty) (
        refl,
        ap (λ x. (ones x).0) first,
        ap (λ x. (archives x).0) first,
        owned,
        ap (λ x. (download_media_item C later key (ones x).1).0) first ∙ gone,
        ap (λ x. (download_media_items_batch C later key (ones x).1).0) first ∙ gone',
        ap (λ x. (download_media_item C later key (archives x).1).0) first ∙ gone,
        ap (λ x. (download_media_items_batch C later key (archives x).1).0) first ∙ gone',
      )
