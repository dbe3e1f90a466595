-- ===== src/Requests/Climbing.antt =====
-- Paths of requests that lead out of their folder: `_normalize` of app/api/files/schemas.py and the
-- storage keys of app/app/files/services/file/filecore.py.
use shelf_back.Base.{
  ℕ, ◌≡◌, refl, sym, ap, ◌∙◌, true, false, List, [], ◌∷◌, ◌++◌, any, arith, is_nil,
}
use mathlib.Core.List.{append_assoc}
use shelf_back.Base.Text.{Text, codes, text_eq, has_prefix}
use shelf_back.Base.Exec.{ok}
use shelf_back.OsPath.{
  slash, normpath, is_dotdot, join, split, collapse, push, joined, or_dot, rev_onto,
}
use shelf_back.OsPath.Normal.{
  is_word, no_slash, no_lead, no_lead-joined, first_is_word_of_IsNormal, normpath-normpath,
  split-append,
}
use shelf_back.OsPath.Climbs.{
  climbs, climbs-eq, climbs-out, ends_with_dotdot, normpath_relative, stack-IsNormal, push-plain,
}
use shelf_back.OsPath.Inside.{collapse_below, stays, ends_word, ends_append}
use shelf_back.Files.Model.{Env}
use shelf_back.Files.Core.{storage_key}
use shelf_back.FileSystem.Confined.{IsPlainKey}
use shelf_back.Requests.{normalize, symbols}

-- A text that passes both tests of `_normalize`, and has a component that is neither "." nor "..",
-- followed by two "..", is accepted, and the path that the request is given begins with "..".
pub climbing_path_is_accepted :
    (strip : Text → Text) (w r : Text)
    → is_word w ≡ true
    → is_dotdot w ≡ false
    → is_nil (strip (w ++ (codes "/../../" ++ r))) ≡ false
    → any (λ symbol. has_prefix symbol (w ++ (codes "/../../" ++ r))) symbols ≡ false
    → (q : Text) × (normalize strip (w ++ (codes "/../../" ++ r)) ≡ ok q) × (climbs q ≡ true)
unfolding normalize
climbing_path_is_accepted strip w r word plain full free = (
  normpath (w ++ (codes "/../../" ++ r)),
  rw (full, free) refl,
  unfold climbs in
      rw (normpath-normpath (w ++ (codes "/../../" ++ r)))
        (unfold climbs in climbs-out w r word plain),
)

relative_or_dot : (t : Text) → no_lead t ≡ true → has_prefix (codes "/") (or_dot t) ≡ false
unfolding has_prefix
relative_or_dot [] h = refl
relative_or_dot (c ∷ t) h = ground (arith, h)

relative_normpath :
    (p : Text) → has_prefix (codes "/") p ≡ false → has_prefix (codes "/") (normpath p) ≡ false
relative_normpath [] h = unfold normpath has_prefix in refl
relative_normpath (c ∷ s) h =
    let cs = rev_onto (collapse false [] (split (c ∷ s))) [] in
    rw (normpath_relative c s h) (
      relative_or_dot (joined cs)
        (no_lead-joined cs (first_is_word_of_IsNormal false cs (stack-IsNormal (c ∷ s)))))

key-eq :
    (c : ℕ) (u q : Text)
    → is_word (c ∷ u) ≡ true
    → has_prefix (codes "/") q ≡ false
    → join (join (c ∷ u) (codes "files")) q ≡ (c ∷ u) ++ (slash ∷ (codes "files" ++ (slash ∷ q)))
unfolding join has_prefix
key-eq c u q h k =
    rw (ends_word (c ∷ u) h, k, ends_append (c ∷ u) slash (codes "files"))
      (append_assoc (c ∷ u) (slash ∷ codes "files") (slash ∷ q))

ends_below : (st : List Text) (v w : Text) → ends_with_dotdot (st ++ (v ∷ w ∷ [])) ≡ is_dotdot w
unfolding ends_with_dotdot
ends_below [] v w = refl
ends_below (x ∷ []) v w = refl
ends_below (x ∷ y ∷ st) v w = ends_below (y ∷ st) v w

push_files :
    (u : Text)
    → is_word u ≡ true
    → is_dotdot u ≡ false
    → push false (push false [] u) (codes "files") ≡ codes "files" ∷ u ∷ []
push_files u h k = rw (push-plain u h k) (unfold push text_eq in refl)

split-key :
    (u q : Text)
    → no_slash u ≡ true
    → split (u ++ (slash ∷ (codes "files" ++ (slash ∷ q)))) ≡ u ∷ codes "files" ∷ split q
split-key u q h =
    split-append u (codes "files" ++ (slash ∷ q)) h
    ∙ ap (λ ws. u ∷ ws) (split-append (codes "files") q refl)

key-collapse :
    (u q : Text)
    → is_word u ≡ true
    → is_dotdot u ≡ false
    → IsPlainKey q
    → ends_with_dotdot (collapse false [] (u ∷ codes "files" ∷ split q)) ≡ false
unfolding collapse
key-collapse u q word plain (h, k) =
    ap (λ st. ends_with_dotdot (collapse false st (split q))) (push_files u word plain)
    ∙ (ap ends_with_dotdot
          (collapse_below false (codes "files" ∷ u ∷ []) (split q) [] refl (stays q h k))
        ∙ (ends_below (collapse false [] (split q)) (codes "files") u ∙ plain))

key-IsPlainKey :
    (c : ℕ) (u q : Text)
    → is_word (c ∷ u) ≡ true
    → is_dotdot (c ∷ u) ≡ false
    → IsPlainKey q
    → IsPlainKey ((c ∷ u) ++ (slash ∷ (codes "files" ++ (slash ∷ q))))
key-IsPlainKey c u q word plain h =
    let bare : no_slash (c ∷ u) ≡ true = ground (arith, word) in
    let relative : has_prefix (codes "/") (c ∷ (u ++ (slash ∷ (codes "files" ++ (slash ∷ q)))))
        ≡ false =
      unfold has_prefix in ground (arith, bare) in
    (
      climbs-eq c (u ++ (slash ∷ (codes "files" ++ (slash ∷ q)))) relative
          ∙ (ap (λ ws. ends_with_dotdot (collapse false [] ws)) (split-key (c ∷ u) q bare)
              ∙ key-collapse (c ∷ u) q word plain h),
      relative,
    )

storage_key-IsPlainKey :
    (u q : Text)
    → is_word u ≡ true
    → is_dotdot u ≡ false
    → IsPlainKey q
    → IsPlainKey (join (join u (codes "files")) q)
storage_key-IsPlainKey [] q word plain h = cc
storage_key-IsPlainKey (c ∷ u) q word plain h =
    rw (key-eq c u q word h.1) (key-IsPlainKey c u q word plain h)

normalize_ok :
    (strip : Text → Text) (p q : Text)
    → normalize strip p ≡ ok q
    → (normpath p ≡ q) × (has_prefix (codes "/") p ≡ false)
unfolding normalize any
normalize_ok strip p q h = (ground (arith, h), ground (arith, h))

-- The storage key of a file, at a path that a request is given for a text whose normal form does not
-- begin with "..", is relative, and its normal form does not begin with ".." either; the identifiers
-- of users are single components.
pub accepted_path-IsPlainKey :
    (V : Env) (strip : Text → Text) (owner_id : ℕ) (p q : Text)
    → is_word (V.uuid_text owner_id) ≡ true
    → is_dotdot (V.uuid_text owner_id) ≡ false
    → normalize strip p ≡ ok q
    → climbs p ≡ false
    → IsPlainKey (storage_key V owner_id q)
unfolding storage_key
accepted_path-IsPlainKey V strip owner_id p q word plain h k =
    let (e, relative) = normalize_ok strip p q h in
    let same : climbs q ≡ false =
      unfold climbs in rw (sym e, normpath-normpath p) (unfold climbs in k) in
    storage_key-IsPlainKey (V.uuid_text owner_id) q word plain
      (same, rw (sym e) (relative_normpath p relative))
