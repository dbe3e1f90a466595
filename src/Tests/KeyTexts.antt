-- ===== src/Tests/KeyTexts.antt =====
-- A reader of the keys in the body of a deletion.
use shelf_back.Base.{
  ◌≡◌, refl, sym, ap, ◌∙◌, ◌||◌, ◌==◌, all, arith, true, false, ◌&&◌, List, [], ◌∷◌, ◌++◌,
  if◌then◌else◌,
}
use mathlib.Core.List.{append-nil, append_assoc}
use shelf_back.Base.Text.{Text, codes, text_eq, has_prefix}
use shelf_back.S3.{delete_objects, delete_body}
use shelf_back.S3.Laws.{is_xml_plain, AllPlain}

-- The text of each `Key` of a body: `acc` is what was read since the last mark-up.
unfoldable pub key_texts : Text → Text → List Text
key_texts acc [] = []
key_texts acc (c ∷ t) =
    let rest = key_texts (if c == 60 || c == 62 then [] else acc ++ (c ∷ [])) t in
    if c == 60 && has_prefix (codes "/Key>") t then acc ∷ rest else rest

-- A key that XML reads as it is written is read whole.
key_texts-plain :
    (acc k t : Text) → is_xml_plain k ≡ true → key_texts acc (k ++ t) ≡ key_texts (acc ++ k) t
unfolding key_texts is_xml_plain all
key_texts-plain acc [] t h = ap (λ a. key_texts a t) (sym (append-nil acc))
key_texts-plain acc (c ∷ k) t h =
    let no_open : (c == 60) ≡ false = ground (arith, h) in
    let no_close : (c == 62) ≡ false = ground (arith, h) in
    let rest : is_xml_plain k ≡ true = ground (arith, h) in
    rw (no_open, no_close)
      (key_texts-plain (acc ++ (c ∷ [])) k t rest
        ∙ ap (λ a. key_texts a t) (append_assoc acc (c ∷ []) k))

key_texts-objects :
    (acc : Text) (keys : List Text)
    → AllPlain keys
    → key_texts acc (delete_objects keys ++ codes "</Delete>") ≡ keys
unfolding key_texts delete_objects has_prefix text_eq
key_texts-objects acc [] h = refl
key_texts-objects acc (k ∷ keys) (p, h) =
    ap (λ t. key_texts acc t) (shape k keys)
    ∙ key_texts-plain [] k _ p
    ∙ ap (λ ks. k ∷ ks) (key_texts-objects [] keys h)
  where
    shape :
        (k : Text) (keys : List Text)
        → delete_objects (k ∷ keys) ++ codes "</Delete>"
          ≡ codes "<Object><Key>"
            ++ (k ++ (codes "</Key></Object>" ++ (delete_objects keys ++ codes "</Delete>")))
    shape k keys = ap (λ t. codes "<Object><Key>" ++ t) (append_assoc k _ (codes "</Delete>"))

pub key_texts-delete_body :
    (keys : List Text) → AllPlain keys → key_texts [] (delete_body keys) ≡ keys
unfolding key_texts delete_body has_prefix
key_texts-delete_body keys h = key_texts-objects _ keys h
