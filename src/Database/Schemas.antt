-- ===== src/Database/Schemas.antt =====
-- The search_path that `with_schemas` of src/core/database.py sets, read back.
use nimbus_commerce_platform.Common.{
  ℕ, String, ◌≡◌, refl, Bool, true, false, not, ◌&&◌, ◌==◌, inl, inr, Bool-cases, List, [], ◌∷◌,
  ◌++◌, map, arith, if◌then◌else◌,
}
use nimbus_commerce_platform.Common.Text.{
  split_on, split_on-free, split_on-append, is_free, codes, all,
}
use nimbus_commerce_platform.Errors.{ok}
use nimbus_commerce_platform.Database.{Chars, is_name_char, is_schema, join, with_schemas}

-- A reader of a search_path: the names between the commas, without the blank before them.
abbrev trim : List ℕ → List ℕ
trim [] = []
trim (c ∷ text) = if c == b' ' then text else c ∷ text

abbrev pub read_path : List ℕ → List (List ℕ)
read_path text = map trim (split_on b',' text)

abbrev is_clean : List ℕ → Bool
is_clean = all (λ c. not (c == b',') && not (c == b' '))

is_free_clean : (name : List ℕ) → is_clean name ≡ true → is_free b',' name ≡ true
is_free_clean [] h = refl
is_free_clean (c ∷ name) h = ground (arith, is_free_clean name)

abbrev blank : List ℕ → List ℕ
blank name = b' ' ∷ name

split_on-join :
    (name : List ℕ) (names : List (List ℕ))
    → all is_clean (name ∷ names) ≡ true
    → split_on b',' (join (name ∷ names)) ≡ name ∷ map blank names
split_on-join name [] h = split_on-free b',' name (is_free_clean name (ground arith))
split_on-join name (next ∷ rest) h =
    let free = is_free_clean name (ground arith) in
    ground
      (arith, split_on-append b',' name (b' ' ∷ join (next ∷ rest)) free, split_on-join next rest)

trim-clean : (name : List ℕ) → is_clean name ≡ true → trim name ≡ name
trim-clean [] h = refl
trim-clean (c ∷ name) h = ground arith

trim-blank : (names : List (List ℕ)) → map trim (map blank names) ≡ names
trim-blank [] = refl
trim-blank (name ∷ names) = ground (arith, trim-blank names)

read_path-join :
    (name : List ℕ) (names : List (List ℕ))
    → all is_clean (name ∷ names) ≡ true
    → read_path (join (name ∷ names)) ≡ name ∷ names
read_path-join name names h =
    ground (arith, split_on-join name names h, trim-clean name, trim-blank names)

module _ (chars : Chars) (comma : chars.is_alnum b',' ≡ false)
    (space : chars.is_alnum b' ' ≡ false) where
  is_clean-name : (text : List ℕ) → all (is_name_char chars) text ≡ true → is_clean text ≡ true
  is_clean-name [] h = refl
  is_clean-name (c ∷ text) h = ground (arith, comma, space, is_clean-name text)

  all-is_clean :
      (names : List (List ℕ)) → all (is_schema chars) names ≡ true → all is_clean names ≡ true
  all-is_clean [] h = refl
  all-is_clean ([] ∷ names) h = absurd (ground arith)
  all-is_clean ((c ∷ text) ∷ names) h = ground (arith, is_clean-name (c ∷ text), all-is_clean names)

  all_append :
      {A : Type 0} (p : A → Bool) (xs : List A) (x : A)
      → all p xs ≡ true
      → p x ≡ true
      → all p (xs ++ x ∷ []) ≡ true
  all_append p [] x h k = ground arith
  all_append p (y ∷ xs) x h k = ground (arith, all_append p xs x)

  -- Where neither the comma nor the blank is alphanumeric: the search_path that `with_schemas` sets,
  -- split at its commas, is the schemas that were asked for, in their order, and "public"; no name
  -- can bring another one in.
  pub with_schemas_lem :
      (schemas : List String) (text : List ℕ)
      → with_schemas chars schemas ≡ ok text
      → read_path text ≡ map codes schemas ++ codes "public" ∷ []
  unfolding with_schemas
  with_schemas_lem [] text h = absurd (ground arith)
  with_schemas_lem (s ∷ schemas) text h =
      elim (Bool-cases (all (is_schema chars) (map codes (s ∷ schemas)))) [
        | inr q ↦ absurd (ground arith)
        | inl q ↦
            let names = map codes schemas ++ codes "public" ∷ [] in
            let clean =
              all_append is_clean (map codes (s ∷ schemas)) (codes "public")
                (all-is_clean (map codes (s ∷ schemas)) q) refl in
            let r = read_path-join (codes s) names clean in ground arith
      ]
