-- ===== src/Configuration/Lists.antt =====
-- `_split_csv` of src/core/config.py as a parser: what it makes of its own output.
use nimbus_commerce_platform.Common.{
  ℕ, ◌≡◌, refl, Bool, true, false, ◌==◌, some, List, [], ◌∷◌, ◌++◌, arith,
}
use nimbus_commerce_platform.Common.Text.{
  all, split_on, split_on-free, split_on-append, is_free, strip-strip, strip_left, strip_right,
  push,
}
use nimbus_commerce_platform.Configuration.{text, items, clean_items, split_csv}

-- `",".join(parts)`
abbrev pub join_csv : List (List ℕ) → List ℕ
join_csv [] = []
join_csv (part ∷ []) = part
join_csv (part ∷ next ∷ rest) = part ++ b',' ∷ join_csv (next ∷ rest)

split_on-join_csv :
    (part : List ℕ) (parts : List (List ℕ))
    → all (is_free b',') (part ∷ parts) ≡ true
    → split_on b',' (join_csv (part ∷ parts)) ≡ part ∷ parts
split_on-join_csv part [] h = split_on-free b',' part (ground arith)
split_on-join_csv part (next ∷ rest) h =
    ground (arith, split_on-append b',' part (join_csv (next ∷ rest)), split_on-join_csv next rest)

push-is_free :
    (c : ℕ) (parts : List (List ℕ))
    → (c == b',') ≡ false
    → all (is_free b',') parts ≡ true
    → all (is_free b',') (push c parts) ≡ true
push-is_free c [] h k = ground arith
push-is_free c (part ∷ parts) h k = ground arith

split_on-is_free : (t : List ℕ) → all (is_free b',') (split_on b',' t) ≡ true
split_on-is_free [] = refl
split_on-is_free (c ∷ t) = ground (arith, split_on-is_free t, push-is_free c (split_on b',' t))

module _ (is_space : ℕ → Bool) where
  strip_left-is_free :
      (t : List ℕ) → is_free b',' t ≡ true → is_free b',' (strip_left is_space t) ≡ true
  strip_left-is_free [] h = refl
  strip_left-is_free (c ∷ t) h = ground (arith, strip_left-is_free t)

  strip_right-is_free :
      (t : List ℕ) → is_free b',' t ≡ true → is_free b',' (strip_right is_space t) ≡ true
  strip_right-is_free [] h = refl
  strip_right-is_free (c ∷ t) h = ground (arith, strip_right-is_free t)

  clean_items-is_free :
      (parts : List (List ℕ))
      → all (is_free b',') parts ≡ true
      → all (is_free b',') (clean_items is_space parts) ≡ true
  clean_items-is_free [] h = refl
  clean_items-is_free (part ∷ parts) h =
      let r = strip_right-is_free part in
      let l = strip_left-is_free (strip_right is_space part) in
      ground (arith, clean_items-is_free parts)

  clean_items-clean_items :
      (parts : List (List ℕ))
      → clean_items is_space (clean_items is_space parts) ≡ clean_items is_space parts
  clean_items-clean_items [] = refl
  clean_items-clean_items (part ∷ parts) =
      ground (arith, strip-strip is_space part, clean_items-clean_items parts)

  split_csv-text :
      (t : List ℕ) → split_csv is_space (text t) ≡ some (clean_items is_space (split_on b',' t))
  unfolding split_csv
  split_csv-text [] = refl
  split_csv-text (c ∷ t) = refl

  clean_items-join_csv :
      (parts : List (List ℕ))
      → all (is_free b',') parts ≡ true
      → clean_items is_space (split_on b',' (join_csv parts)) ≡ clean_items is_space parts
  clean_items-join_csv [] h = refl
  clean_items-join_csv (part ∷ parts) h = ground (arith, split_on-join_csv part parts h)

  -- Whatever list `_split_csv` makes of a text, it makes of that list's items joined by commas, and
  -- of the list itself: what it returns is a normal form.
  split_csv_normal :
      (t : List ℕ)
      → (parts : List (List ℕ)) × (split_csv is_space (text t) ≡ some parts)
        × (split_csv is_space (text (join_csv parts)) ≡ some parts)
        × (split_csv is_space (items parts) ≡ some parts)
  unfolding split_csv
  split_csv_normal t =
      let parts = clean_items is_space (split_on b',' t) in
      let same = clean_items-clean_items (split_on b',' t) in
      let free = clean_items-is_free (split_on b',' t) (split_on-is_free t) in
      let joined = clean_items-join_csv parts free in
      (parts, split_csv-text t, ground (arith, split_csv-text (join_csv parts)), ground arith)
