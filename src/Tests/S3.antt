-- ===== src/Tests/S3.antt =====
-- The theorems on S3 at a small bucket.
use shelf_back.Base.{
  ℕ, ◌≤◌, ◌≡◌, refl, sym, ap, ◌∙◌, inl, inr, Bool-cases, all, true, false, Option, none, List, [],
  ◌∷◌, map, if◌then◌else◌,
}
use shelf_back.Base.Text.{Text, codes, text_eq, has_prefix, eq_of_text_eq}
use shelf_back.OsPath.{normpath, split, joined, initial_slashes, collapse, rev_onto, push}
use shelf_back.S3.{Upload}
use shelf_back.S3.Laws.{AllPlain, is_some, is_xml_plain}
use shelf_back.S3.Storage.{delete_batch, deletedir, folder_prefix}
use shelf_back.S3.Deletes.{Changes, without, delete_batch-objects, deletedir-objects}
use shelf_back.Tests.Bucket.{Bucket, lookup, service, objects, service-IsBucket}

abbrev two_objects : Bucket
two_objects = record {
  stored =
      (codes "a/f", codes "one") ∷ (codes "a/g/h", codes "two") ∷ (codes "b", codes "three") ∷ [];
  parts = [];
}

abbrev bucket_name : Text
bucket_name = codes "shelf"

abbrev kept : Bucket → Text → Option Text
kept s k = lookup s.stored k

abbrev word : Upload
word = record { size = 4; bytes = codes "four" }

-- A content that gives less than its size, which is enough to be uploaded in parts
abbrev big : Upload
big = record { size = 5242880; bytes = codes "four" }

a_is_relative : has_prefix (codes "/") (folder_prefix (codes "a")) ≡ false
unfolding normpath split joined initial_slashes collapse rev_onto push has_prefix text_eq
a_is_relative = refl

given_are_plain : AllPlain (map normpath (codes "a/./f" ∷ codes "c" ∷ []))
unfolding normpath split joined initial_slashes collapse rev_onto push has_prefix text_eq
    is_xml_plain all
given_are_plain = (refl, (refl, tt))

kept_are_plain : AllPlain (map (λ p. p.0) two_objects.stored)
unfolding is_xml_plain all
kept_are_plain = (refl, (refl, (refl, tt)))

stored_is_plain :
    (stored : List (Text × Text)) (k : Text)
    → AllPlain (map (λ p. p.0) stored)
    → is_some (lookup stored k) ≡ true
    → is_xml_plain k ≡ true
stored_is_plain [] k h e = cc
stored_is_plain ((j, v) ∷ stored) k (p, h) e = elim (Bool-cases (text_eq j k)) [
  | inl same ↦ ap is_xml_plain (sym (eq_of_text_eq j k same)) ∙ p
  | inr other ↦ stored_is_plain stored k h (rw other at e)
]

delete_batch-objects_example :
    Changes service bucket_name objects
      (delete_batch service bucket_name 3 (codes "a/./f" ∷ codes "c" ∷ []))
      two_objects
      (without service bucket_name objects
        (map normpath (codes "a/./f" ∷ codes "c" ∷ []))
        two_objects)
delete_batch-objects_example =
    delete_batch-objects service bucket_name objects (service-IsBucket bucket_name) 3
      (codes "a/./f" ∷ codes "c" ∷ []) two_objects given_are_plain

deletedir-objects_example :
    (n : ℕ) × ((fuel : ℕ)
      → n ≤ fuel
      → Changes service bucket_name objects
          (deletedir service bucket_name fuel (codes "a"))
          two_objects
          (λ k. if has_prefix (folder_prefix (codes "a")) k then none else objects two_objects k))
deletedir-objects_example =
    deletedir-objects service bucket_name objects (service-IsBucket bucket_name) (codes "a")
      two_objects a_is_relative (λ k _ e. stored_is_plain two_objects.stored k kept_are_plain e)
