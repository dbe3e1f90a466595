-- ===== src/S3/Sent.antt =====
-- Requests that the service answers, and listings of all their pages:
-- app/infrastructure/storage/s3/clients.
use shelf_back.Base.{
  ℕ, zero, suc, ◌≤◌, ◌≡◌, refl, ap, ◌∙◌, true, false, Option, none, some, List, arith,
}
use shelf_back.Base.Text.{Text, codes, text_eq, has_prefix}
use shelf_back.Base.Exec.{ok, err, no_such_key, resource_not_found}
use shelf_back.S3.{
  Service, Request, Response, Entry, raise_for_status, send, list_request, list_from, list_objects,
  error_of_code,
}
use shelf_back.S3.Laws.{Pages, last, more}

module _ (S : Service) (bucket : Text) where
  pub send_ok :
      (q : Request) (s s' : S.State) (r : Response)
      → S.answer q s ≡ (r, s')
      → r.is_success ≡ true
      → send S q s ≡ (ok r, s')
  unfolding send raise_for_status
  send_ok q s s' r h k = rw (h, k) refl

  pub send_missing :
      (q : Request) (s s' : S.State) (r : Response)
      → S.answer q s ≡ (r, s')
      → r.is_success ≡ false
      → r.code ≡ some (codes "NoSuchKey")
      → send S q s ≡ (err no_such_key, s')
  unfolding send raise_for_status error_of_code text_eq
  send_missing q s s' r h k c = rw (h, k, c) refl

  pub send_not_found :
      (q : Request) (s s' : S.State) (r : Response)
      → S.answer q s ≡ (r, s')
      → r.is_success ≡ false
      → r.code ≡ none
      → r.status_code ≡ 404
      → send S q s ≡ (err resource_not_found, s')
  unfolding send raise_for_status
  send_not_found q s s' r h k c e = ap (λ x. (raise_for_status x.0, x.1)) h ∙ rw (k, c, e) refl

  -- With fuel for its pages, a listing gives the entries of them all.
  list_from-Pages :
      (prefix : Text) (s : S.State) (token : Option Text) (n : ℕ) (entries : List Entry)
      → Pages S bucket prefix s token n entries
      → (fuel : ℕ) → n ≤ fuel
      → list_from S fuel bucket (some prefix) none token s ≡ (ok entries, s)
  unfolding list_from
  list_from-Pages prefix s _ _ _ (last token r a k l) zero h = absurd (omega (arith, h))
  list_from-Pages prefix s _ _ _ (last token r a k l) (suc fuel) h =
      rw (send_ok (list_request bucket (some prefix) none token) s s r a k, l) refl
  list_from-Pages prefix s _ _ _ (more token r t m rest a k l e p) zero h =
      absurd (omega (arith, h))
  list_from-Pages prefix s _ _ _ (more token r t m rest a k l e p) (suc fuel) h =
      rw
        (
          send_ok (list_request bucket (some prefix) none token) s s r a k,
          l,
          e,
          list_from-Pages prefix s (some t) m rest p fuel (omega (arith, h)),
        )
        refl

  -- A listing below a prefix that is no absolute path
  pub list_objects-Pages :
      (prefix : Text) (s : S.State) (n : ℕ) (entries : List Entry)
      → has_prefix (codes "/") prefix ≡ false
      → Pages S bucket prefix s none n entries
      → (fuel : ℕ) → n ≤ fuel
      → list_objects S fuel bucket (some prefix) none s ≡ (ok entries, s)
  unfolding list_objects
  list_objects-Pages prefix s n entries h p fuel k =
      rw (h, list_from-Pages prefix s none n entries p fuel k) refl
