-- ===== src/Tests/Bucket.antt =====
-- A service that keeps the objects of one bucket and the parts of one upload.
use shelf_back.Base.{
  ◌≡◌, refl, ap, ◌∙◌, true, false, ◌&&◌, inl, inr, Option, none, some, List, [], ◌∷◌, ◌++◌, map,
  length, if◌then◌else◌, Bool-cases, Option-cases,
}
use mathlib.Core.List.{append-nil}
use shelf_back.Base.Text.{Text, codes, text_eq, has_prefix, eq_of_text_eq}
use shelf_back.S3.{
  Request, Response, S3File, Service, file, key_of, copy_request, create_bucket_request,
  delete_bucket_request, delete_request, head_request, get_request, list_request, put_request,
  create_upload_request, upload_part_request, complete_request, abort_request,
}
use shelf_back.S3.Batches.{flat}
use shelf_back.S3.Laws.{holds, is_some, last, IsBucket, IsMultipart}
use shelf_back.Tests.KeyTexts.{key_texts, key_texts-delete_body}

-- The newest entry of a key is its object.
pub record Bucket : Type 0 where
  pub stored : List (Text × Text)
  pub parts : List (Text × Text)

abbrev pub lookup : List (Text × Text) → Text → Option Text
lookup [] k = none
lookup ((j, v) ∷ stored) k = if text_eq j k then some v else lookup stored k

abbrev pub remove : List Text → List (Text × Text) → List (Text × Text)
remove keys [] = []
remove keys ((j, v) ∷ stored) =
    let rest = remove keys stored in if holds keys j then rest else (j, v) ∷ rest

abbrev pub below : Text → List (Text × Text) → List S3File
below prefix [] = []
below prefix ((j, v) ∷ stored) =
    let rest = below prefix stored in
    if has_prefix prefix j
    then record { key = j; last_modified = 0; size = length v; etag = codes "e" } ∷ rest
    else rest

abbrev pub reply : List S3File → List Text → Response
reply contents chunks = record {
  is_success = true;
  status_code = 200;
  code = none;
  keys = [];
  common_prefixes = [];
  contents = contents;
  is_last = true;
  next_token = none;
  upload_id = some (codes "u");
  key = [];
  etag = codes "e";
  last_modified = 7;
  size = 0;
  chunks = chunks;
}

abbrev pub missing : Option Text → Response
missing code = record {
  is_success = false;
  status_code = 404;
  code = code;
  keys = [];
  common_prefixes = [];
  contents = [];
  is_last = false;
  next_token = none;
  upload_id = none;
  key = [];
  etag = [];
  last_modified = 0;
  size = 0;
  chunks = [];
}

abbrev no_key : Response
no_key = missing (some (codes "NoSuchKey"))

abbrev copied : Text → Option Text → Bucket → Response × Bucket
copied to_key none s = (no_key, s)
copied to_key (some v) s =
    (reply [] [], record { stored = (to_key, v) ∷ s.stored; parts = s.parts })

abbrev got : Option Text → Bucket → Response × Bucket
got none s = (no_key, s)
got (some v) s = (reply [] (v ∷ []), s)

abbrev headed : Option Text → Bucket → Response × Bucket
headed none s = (missing none, s)
headed (some v) s = (reply [] [], s)

abbrev prefix_of : Option Text → Text
prefix_of none = []
prefix_of (some p) = p

-- The copied key stands after the bucket.
abbrev strip : Text → Text → Text
strip [] t = t
strip (p ∷ prefix) [] = []
strip (p ∷ prefix) (c ∷ t) = strip prefix t

strip-append : (bucket k : Text) → strip (bucket ++ codes "/") (bucket ++ (codes "/" ++ k)) ≡ k
strip-append [] k = refl
strip-append (c ∷ bucket) k = strip-append bucket k

abbrev pub answer : Request → Bucket → Response × Bucket
answer (copy_request bucket source to_key) s =
    copied to_key (lookup s.stored (strip (codes "/" ++ (bucket ++ codes "/")) source)) s
answer (create_bucket_request bucket) s = (reply [] [], s)
answer (delete_bucket_request bucket) s = (reply [] [], s)
answer (delete_request bucket body) s =
    (reply [] [], record { stored = remove (key_texts [] body) s.stored; parts = s.parts })
answer (head_request bucket key) s = headed (lookup s.stored key) s
answer (get_request bucket key) s = got (lookup s.stored key) s
answer (list_request bucket prefix delimiter token) s =
    (reply (below (prefix_of prefix) s.stored) [], s)
answer (put_request bucket key content) s =
    (reply [] [], record { stored = (key, content.bytes) ∷ s.stored; parts = s.parts })
answer (create_upload_request bucket key) s =
    (reply [] [], record { stored = s.stored; parts = [] })
answer (upload_part_request bucket key upload_id n content) s =
    (reply [] [], record { stored = s.stored; parts = s.parts ++ ((codes "e", content) ∷ []) })
answer (complete_request bucket key upload_id numbers) s =
    (reply [] [], record { stored = (key, flat (map (λ p. p.1) s.parts)) ∷ s.stored; parts = [] })
answer (abort_request bucket key upload_id) s =
    (reply [] [], record { stored = s.stored; parts = [] })

abbrev pub service : Service
service = record { State = Bucket; answer = answer }

abbrev pub objects : Bucket → Text → Option Text
objects s k = lookup s.stored k

lookup-remove :
    (keys : List Text) (stored : List (Text × Text)) (k : Text)
    → lookup (remove keys stored) k ≡ (if holds keys k then none else lookup stored k)
lookup-remove keys [] k = elim (Bool-cases (holds keys k)) [ inl h ↦ rw h refl | inr h ↦ rw h refl ]
lookup-remove keys ((j, v) ∷ stored) k = elim (Bool-cases (text_eq j k)) [
  | inl e ↦
      let same = eq_of_text_eq j k e in
      elim (Bool-cases (holds keys j)) [
        | inl h ↦ rw (h, e, lookup-remove keys stored k, rw same at h) refl
        | inr h ↦ rw (h, e, rw same at h) refl
      ]
  | inr e ↦ elim (Bool-cases (holds keys j)) [
    | inl h ↦ rw (h, e) (lookup-remove keys stored k)
    | inr h ↦ rw (h, e) (lookup-remove keys stored k)
  ]
]

holds-below :
    (prefix : Text) (stored : List (Text × Text)) (k : Text)
    → holds (map key_of (map file (below prefix stored))) k
      ≡ (has_prefix prefix k && is_some (lookup stored k))
holds-below prefix [] k = elim (Bool-cases (has_prefix prefix k)) [
  | inl h ↦ rw h refl
  | inr h ↦ rw h refl
]
holds-below prefix ((j, v) ∷ stored) k = elim (Bool-cases (text_eq j k)) [
  | inl e ↦
      let same = eq_of_text_eq j k e in
      elim (Bool-cases (has_prefix prefix j)) [
        | inl h ↦ rw (h, e, rw same at h) refl
        | inr h ↦ rw (h, e, holds-below prefix stored k, rw same at h) refl
      ]
  | inr e ↦ elim (Bool-cases (has_prefix prefix j)) [
    | inl h ↦ rw (h, e) (holds-below prefix stored k)
    | inr h ↦ rw (h, e) (holds-below prefix stored k)
  ]
]

pub service-IsBucket : (bucket : Text) → IsBucket service bucket objects
service-IsBucket bucket = record {
  put = λ key content s h. (_, _, refl, refl, λ k. refl);
  copy = λ from_key to_key bytes s u h d. (
    reply [] [],
    record { stored = (to_key, bytes) ∷ s.stored; parts = s.parts },
    rw (strip-append bucket from_key, h) refl,
    refl,
    λ k. refl,
  );
  copy_missing =
      λ from_key to_key s u h. (no_key, rw (strip-append bucket from_key, h) refl, refl, refl);
  delete = λ keys s some_key h p. (
    _,
    _,
    refl,
    refl,
    λ k.
        ap (λ ks. lookup (remove ks s.stored) k) (key_texts-delete_body keys p)
        ∙ lookup-remove keys s.stored k,
  );
  get = λ key bytes s h. (reply [] (bytes ∷ []), rw h refl, refl, append-nil bytes);
  get_missing = λ key s h. (no_key, rw h refl, refl, refl);
  head = λ key s. elim (Option-cases (lookup s.stored key)) [
    | inl n ↦ (missing none, rw n refl, rw n refl, refl, λ h. refl)
    | inr (v, n) ↦ (reply [] [], rw n refl, rw n refl, refl, λ h. cc)
  ];
  list = λ prefix s. (
    1,
    map file (below prefix s.stored),
    last none _ refl refl refl,
    holds-below prefix s.stored,
  );
}

pub service-IsMultipart :
    (bucket : Text) → IsMultipart service bucket objects (λ s upload_id. s.parts)
service-IsMultipart bucket = record {
  create_upload = λ key s. (_, _, codes "u", refl, refl, refl, refl, λ k. refl);
  upload_part = λ key upload_id content s. (_, _, refl, refl, refl, λ k. refl);
  complete = λ key upload_id s u l. (_, _, refl, refl, λ k. refl);
}
