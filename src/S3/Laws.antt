-- ===== src/S3/Laws.antt =====
-- What the service is known to do with the objects of a bucket, by its documentation.
use shelf_back.Base.{
  ℕ, suc, ◌≤◌, ◌+◌, ◌≡◌, Bool, true, false, ◌&&◌, ◌||◌, Option, none, some, List, [], ◌∷◌, ◌++◌,
  length, if◌then◌else◌, map, all, is_nil, not, ltb, leb, ◌==◌,
}
use shelf_back.Base.Text.{Text, codes, text_eq, has_prefix}
use shelf_back.S3.Batches.{flat}
use shelf_back.S3.Multipart.{five_mb}
use shelf_back.S3.{
  Service, Response, Upload, Entry, key_of, entries_of, delete_limit, copy_source, delete_body,
  list_request, put_request, copy_request, delete_request, get_request, head_request,
  create_upload_request, upload_part_request, complete_request,
}

abbrev pub holds : List Text → Text → Bool
holds [] k = false
holds (j ∷ ks) k = text_eq j k || holds ks k

abbrev pub is_some : Option Text → Bool
is_some none = false
is_some (some v) = true

-- The answers to a listing from a token on, which do not change the bucket: so many pages, with those
-- entries.
pub data Pages (S : Service) (bucket prefix : Text) (s : S.State)
    : Option Text → ℕ → List Entry → Type 0 where
  last :
      (token : Option Text) (r : Response)
      → S.answer (list_request bucket (some prefix) none token) s ≡ (r, s)
      → r.is_success ≡ true
      → r.is_last ≡ true
      → Pages S bucket prefix s token 1 (entries_of r)
  more :
      (token : Option Text) (r : Response) (t : Text) (n : ℕ) (entries : List Entry)
      → S.answer (list_request bucket (some prefix) none token) s ≡ (r, s)
      → r.is_success ≡ true
      → r.is_last ≡ false
      → r.next_token ≡ some t
      → Pages S bucket prefix s (some t) n entries
      → Pages S bucket prefix s token (suc n) (entries_of r ++ entries)

-- What XML reads as it is written: no mark-up and no control characters
abbrev is_xml_char : ℕ → Bool
is_xml_char c = leb 32 c && (ltb c 55296 && not (c == 38 || (c == 60 || c == 62)))

unfoldable pub is_xml_plain : Text → Bool
is_xml_plain key = all (λ c. is_xml_char c) key

-- What stands in a URL as it is: visible ASCII, and none of `#`, `%`, `+` and `?`
abbrev is_url_char : ℕ → Bool
is_url_char c = leb 33 c && (ltb c 127 && not (c == 35 || (c == 37 || (c == 43 || c == 63))))

unfoldable pub is_url_plain : Text → Bool
is_url_plain key = all (λ c. is_url_char c) key

abbrev pub AllPlain : List Text → Type 0
AllPlain [] = Unit
AllPlain (k ∷ keys) = (is_xml_plain k ≡ true) × AllPlain keys

-- `objects` is the content at each key of the bucket.
pub record IsBucket (S : Service) (bucket : Text) (objects : S.State → Text → Option Text)
    : Type 0 where
  pub put :
      (key : Text) (content : Upload) (s : S.State)
      → content.size ≡ length content.bytes
      → (r : Response) × (s' : S.State) × (S.answer (put_request bucket key content) s ≡ (r, s'))
        × (r.is_success ≡ true)
        × ((k : Text) → objects s' k ≡ (if text_eq key k then some content.bytes else objects s k))
  pub copy :
      (from_key to_key bytes : Text) (s : S.State)
      → is_url_plain from_key ≡ true
      → objects s from_key ≡ some bytes
      → text_eq from_key to_key ≡ false
      → (r : Response) × (s' : S.State) × (S.answer
            (copy_request bucket (copy_source bucket from_key) to_key)
            s
          ≡ (r, s'))
        × (r.is_success ≡ true)
        × ((k : Text) → objects s' k ≡ (if text_eq to_key k then some bytes else objects s k))
  pub copy_missing :
      (from_key to_key : Text) (s : S.State)
      → is_url_plain from_key ≡ true
      → objects s from_key ≡ none
      → (r : Response) × (S.answer (copy_request bucket (copy_source bucket from_key) to_key) s
          ≡ (r, s))
        × (r.is_success ≡ false)
        × (r.code ≡ some (codes "NoSuchKey"))
  pub delete :
      (keys : List Text) (s : S.State)
      → is_nil keys ≡ false
      → length keys ≤ delete_limit
      → AllPlain keys
      → (r : Response) × (s' : S.State) × (S.answer (delete_request bucket (delete_body keys)) s
          ≡ (r, s'))
        × (r.is_success ≡ true)
        × ((k : Text) → objects s' k ≡ (if holds keys k then none else objects s k))
  pub get :
      (key bytes : Text) (s : S.State)
      → objects s key ≡ some bytes
      → (r : Response) × (S.answer (get_request bucket key) s ≡ (r, s))
        × (r.is_success ≡ true)
        × (flat r.chunks ≡ bytes)
  pub get_missing :
      (key : Text) (s : S.State)
      → objects s key ≡ none
      → (r : Response) × (S.answer (get_request bucket key) s ≡ (r, s))
        × (r.is_success ≡ false)
        × (r.code ≡ some (codes "NoSuchKey"))
  -- The answer to a `HEAD` has no body, so that the code of its error is not to be read.
  pub head :
      (key : Text) (s : S.State)
      → (r : Response) × (S.answer (head_request bucket key) s ≡ (r, s))
        × (r.is_success ≡ is_some (objects s key))
        × (r.code ≡ none)
        × ((objects s key ≡ none) → r.status_code ≡ 404)
  pub list :
      (prefix : Text) (s : S.State)
      → (n : ℕ) × (entries : List Entry) × Pages S bucket prefix s none n entries
        × ((k : Text)
            → holds (map key_of entries) k ≡ (has_prefix prefix k && is_some (objects s k)))

-- The part numbers and `ETag`s of a completed upload, counted from a number on
abbrev pub number_from : ℕ → List Text → List (ℕ × Text)
number_from n [] = []
number_from n (e ∷ es) = (n, e) ∷ number_from (n + 1) es

-- The contents that may be the parts of an upload: there is one, and all but the last have 5 MB.
abbrev pub IsUploadable : List Text → Type 0
IsUploadable [] = ⊥
IsUploadable (c ∷ []) = Unit
IsUploadable (c ∷ d ∷ cs) = (five_mb ≤ length c) × IsUploadable (d ∷ cs)

-- `parts` is the `ETag` and the content of each part of an upload that is not completed.
pub record IsMultipart (S : Service) (bucket : Text) (objects : S.State → Text → Option Text)
    (parts : S.State → Text → List (Text × Text)) : Type 0 where
  pub create_upload :
      (key : Text) (s : S.State)
      → (r : Response) × (s' : S.State) × (upload_id : Text) × (S.answer
            (create_upload_request bucket key)
            s
          ≡ (r, s'))
        × (r.is_success ≡ true)
        × (r.upload_id ≡ some upload_id)
        × (parts s' upload_id ≡ [])
        × ((k : Text) → objects s' k ≡ objects s k)
  pub upload_part :
      (key upload_id content : Text) (s : S.State)
      → (r : Response) × (s' : S.State) × (S.answer
            (upload_part_request bucket key upload_id (length (parts s upload_id) + 1) content)
            s
          ≡ (r, s'))
        × (r.is_success ≡ true)
        × (parts s' upload_id ≡ parts s upload_id ++ ((r.etag, content) ∷ []))
        × ((k : Text) → objects s' k ≡ objects s k)
  pub complete :
      (key upload_id : Text) (s : S.State)
      → IsUploadable (map (λ p. p.1) (parts s upload_id))
      → length (parts s upload_id) ≤ 10000
      → (r : Response) × (s' : S.State) × (S.answer
            (complete_request bucket key upload_id
              (number_from 1 (map (λ p. p.0) (parts s upload_id))))
            s
          ≡ (r, s'))
        × (r.is_success ≡ true)
        × ((k : Text)
            → objects s' k ≡ (
                if text_eq key k
                then some (flat (map (λ p. p.1) (parts s upload_id)))
                else objects s k))
