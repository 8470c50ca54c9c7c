-- ===== src/Tools/Secrets/Placeholders.antt =====
-- What the search of .pre-commit-hooks/check-nimbus-env/hooks.py finds, line by line.
use nimbus_commerce_platform.Common.{
  ℕ, ◌≡◌, refl, Bool, true, false, not, ◌&&◌, ◌||◌, Option, none, some, List, [], ◌∷◌, ◌==◌, arith,
  All,
}
use nimbus_commerce_platform.Common.Text.{all, starts_with, split_on, is_free}
use nimbus_commerce_platform.Tools.Secrets.{
  after_prefix, starts_with_any, is_populated_at, search_lines,
}

-- The text up to the first line break, and the lines after it.
abbrev first_line : List ℕ → List ℕ
first_line [] = []
first_line (c ∷ text) = elim (c == b'\n') [ true ↦ [] | false ↦ c ∷ first_line text ]

abbrev rest_lines : List ℕ → List (List ℕ)
rest_lines [] = []
rest_lines (c ∷ text) = elim (c == b'\n') [
  | true ↦ first_line text ∷ rest_lines text
  | false ↦ rest_lines text
]

split_on-lines : (text : List ℕ) → split_on b'\n' text ≡ first_line text ∷ rest_lines text
split_on-lines [] = refl
split_on-lines (c ∷ text) = ground (arith, split_on-lines text)

-- A text with no line break in it begins the text exactly if it begins its first line.
starts_with-first_line :
    (prefix text : List ℕ)
    → is_free b'\n' prefix ≡ true
    → starts_with prefix (first_line text) ≡ starts_with prefix text
starts_with-first_line [] text h = refl
starts_with-first_line (p ∷ prefix) [] h = refl
starts_with-first_line (p ∷ prefix) (c ∷ text) h =
    ground (arith, starts_with-first_line prefix text)

abbrev all_free : List (List ℕ) → Bool
all_free = all (is_free b'\n')

starts_with_any-first_line :
    (prefixes : List (List ℕ)) (text : List ℕ)
    → all_free prefixes ≡ true
    → starts_with_any prefixes (first_line text) ≡ starts_with_any prefixes text
starts_with_any-first_line [] text h = refl
starts_with_any-first_line (prefix ∷ prefixes) text h =
    ground (arith, starts_with-first_line prefix text, starts_with_any-first_line prefixes text)

-- The value that a line gives a key, if it begins with it, begins with a placeholder.
abbrev IsPlaceholder : List (List ℕ) → Option (List ℕ) → Type 0
IsPlaceholder placeholders none = Unit
IsPlaceholder placeholders (some value) = starts_with_any placeholders value ≡ true

abbrev pub IsPlaceheld : List ℕ → List (List ℕ) → List ℕ → Type 0
IsPlaceheld key placeholders line = IsPlaceholder placeholders (after_prefix key line)

or_false : (a b : Bool) → a || b ≡ false → (a ≡ false) × (b ≡ false)
or_false true b h = absurd (ground arith)
or_false false b h = (refl, h)

abbrev cut : Option (List ℕ) → Option (List ℕ)
cut none = none
cut (some text) = some (first_line text)

after_prefix-first_line :
    (key text : List ℕ)
    → is_free b'\n' key ≡ true
    → after_prefix key (first_line text) ≡ cut (after_prefix key text)
after_prefix-first_line [] text h = refl
after_prefix-first_line (p ∷ key) [] h = refl
after_prefix-first_line (p ∷ key) (c ∷ text) h = ground (arith, after_prefix-first_line key text)

module _ (key : List ℕ) (placeholders : List (List ℕ)) (key_free : is_free b'\n' key ≡ true)
    (all_placeholders_free : all_free placeholders ≡ true)
    (some_key : after_prefix key [] ≡ none) where
  cut-IsPlaceholder :
      (m : Option (List ℕ))
      → elim m [ none ↦ false | some rest ↦ not (starts_with_any placeholders rest) ] ≡ false
      → IsPlaceholder placeholders (cut m)
  cut-IsPlaceholder none h = tt
  cut-IsPlaceholder (some rest) h =
      ground (arith, starts_with_any-first_line placeholders rest all_placeholders_free)

  first_line-IsPlaceheld :
      (text : List ℕ)
      → is_populated_at key placeholders text ≡ false
      → IsPlaceheld key placeholders (first_line text)
  unfolding is_populated_at
  first_line-IsPlaceheld text h =
      rw (after_prefix-first_line key text key_free) (cut-IsPlaceholder (after_prefix key text) h)

  empty-IsPlaceheld : IsPlaceheld key placeholders []
  empty-IsPlaceheld = rw some_key tt

  not_found :
      (at_start : Bool) (c : ℕ) (text : List ℕ)
      → search_lines key placeholders at_start (c ∷ text) ≡ false
      → (at_start && is_populated_at key placeholders (c ∷ text) ≡ false)
        × (search_lines key placeholders (c == b'\n') text ≡ false)
  unfolding search_lines
  not_found at_start c text h =
      or_false (at_start && is_populated_at key placeholders (c ∷ text)) _ h

  found_no_first :
      (text : List ℕ)
      → search_lines key placeholders true text ≡ false
      → IsPlaceheld key placeholders (first_line text)
  found_no_first [] h = empty-IsPlaceheld
  found_no_first (c ∷ text) h = first_line-IsPlaceheld (c ∷ text) (not_found true c text h).0

  add_first :
      (at_start : Bool) (text : List ℕ)
      → search_lines key placeholders at_start text ≡ false
      → All (IsPlaceheld key placeholders) (rest_lines text)
      → All
          (IsPlaceheld key placeholders)
          (elim at_start [ true ↦ first_line text ∷ rest_lines text | false ↦ rest_lines text ])
  add_first true text h others = (found_no_first text h, others)
  add_first false text h others = others

  found_no_rest :
      (at_start : Bool) (text : List ℕ)
      → search_lines key placeholders at_start text ≡ false
      → All (IsPlaceheld key placeholders) (rest_lines text)
  found_no_rest at_start [] h = tt
  found_no_rest at_start (c ∷ text) h =
      let rest = (not_found at_start c text h).1 in
      add_first (c == b'\n') text rest (found_no_rest (c == b'\n') text rest)

  -- Where the search finds nothing, every line that begins with the key goes on with a placeholder.
  pub search_lines-IsPlaceheld :
      (text : List ℕ)
      → search_lines key placeholders true text ≡ false
      → All (IsPlaceheld key placeholders) (split_on b'\n' text)
  search_lines-IsPlaceheld text h =
      rw (split_on-lines text) (found_no_first text h, found_no_rest true text h)
