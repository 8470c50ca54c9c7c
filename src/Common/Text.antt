-- ===== src/Common/Text.antt =====
-- Text as the list of its code points, where the code walks over characters.
use Prim.Native.Char.{code}
use Prim.Native.String.{String}
use Prim.Native.Nat.{ℕ}
use mathlib.Core.Bool.{not, Bool, true, false, ◌&&◌, ◌||◌}
use mathlib.Core.List.{List, [], ◌∷◌, ◌++◌}
use mathlib.Core.Path.{◌≡◌, refl}
use native.Mathlib.Omega.{arith}
use nimbus_commerce_platform.Common.Tests.{◌==◌, if◌then◌else◌}

-- `String` has its own `[]` and `∷`.
abbrev pub codes : String → List ℕ
codes String.[] = []
codes (String.◌∷◌ c s) = code c ∷ codes s

-- `all(test(c) for c in text)`
abbrev pub all {ℓ} : {A : Type ℓ} → (A → Bool) → List A → Bool
all test [] = true
all test (c ∷ text) = test c && all test text

abbrev pub starts_with : List ℕ → List ℕ → Bool
starts_with [] text = true
starts_with (p ∷ prefix) [] = false
starts_with (p ∷ prefix) (c ∷ text) = p == c && starts_with prefix text

-- `part in text`
abbrev pub contains : List ℕ → List ℕ → Bool
contains part [] = starts_with part []
contains part (c ∷ text) = starts_with part (c ∷ text) || contains part text

abbrev pub push : ℕ → List (List ℕ) → List (List ℕ)
push c [] = (c ∷ []) ∷ []
push c (part ∷ parts) = (c ∷ part) ∷ parts

-- `text.split(sep)`, for a separator of one character
abbrev pub split_on : ℕ → List ℕ → List (List ℕ)
split_on sep [] = [] ∷ []
split_on sep (c ∷ text) = elim (c == sep) [
  | true ↦ [] ∷ split_on sep text
  | false ↦ push c (split_on sep text)
]

-- Text in which a character does not occur.
abbrev pub is_free : ℕ → List ℕ → Bool
is_free sep = all (λ c. not (c == sep))

pub split_on-free :
    (sep : ℕ) (part : List ℕ) → is_free sep part ≡ true → split_on sep part ≡ part ∷ []
split_on-free sep [] h = refl
split_on-free sep (c ∷ part) h = ground (arith, split_on-free sep part)

pub split_on-append :
    (sep : ℕ) (part text : List ℕ)
    → is_free sep part ≡ true
    → split_on sep (part ++ sep ∷ text) ≡ part ∷ split_on sep text
split_on-append sep [] text h = ground arith
split_on-append sep (c ∷ part) text h = ground (arith, split_on-append sep part text)

-- `text.strip()`, given the characters that it removes.
module _ (is_space : ℕ → Bool) where
  abbrev pub strip_left : List ℕ → List ℕ
  strip_left [] = []
  strip_left (c ∷ text) = elim (is_space c) [ true ↦ strip_left text | false ↦ c ∷ text ]

  abbrev keep_right : ℕ → List ℕ → List ℕ
  keep_right c [] = if is_space c then [] else c ∷ []
  keep_right c (d ∷ text) = c ∷ d ∷ text

  abbrev pub strip_right : List ℕ → List ℕ
  strip_right [] = []
  strip_right (c ∷ text) = keep_right c (strip_right text)

  abbrev pub strip : List ℕ → List ℕ
  strip text = strip_left (strip_right text)

  pub strip_right-strip_right : (text : List ℕ) → strip_right (strip_right text) ≡ strip_right text
  strip_right-strip_right [] = refl
  strip_right-strip_right (c ∷ text) = ground (arith, strip_right-strip_right text)

  strip_left-strip_left : (text : List ℕ) → strip_left (strip_left text) ≡ strip_left text
  strip_left-strip_left [] = refl
  strip_left-strip_left (c ∷ text) = ground (arith, strip_left-strip_left text)

  strip_right-strip_left :
      (text : List ℕ) → strip_right text ≡ text → strip_right (strip_left text) ≡ strip_left text
  strip_right-strip_left [] h = refl
  strip_right-strip_left (c ∷ text) h = ground (arith, strip_right-strip_left text)

  pub strip-strip_left : (text : List ℕ) → strip (strip_left text) ≡ strip text
  strip-strip_left [] = refl
  strip-strip_left (c ∷ text) = ground (arith, strip-strip_left text)

  pub strip-strip : (text : List ℕ) → strip (strip text) ≡ strip text
  strip-strip text = ground (
    arith,
    strip_right-strip_left (strip_right text) (strip_right-strip_right text),
    strip_left-strip_left (strip_right text),
  )

abbrev pub same_text : List ℕ → List ℕ → Bool
same_text [] [] = true
same_text [] (d ∷ t) = false
same_text (c ∷ s) [] = false
same_text (c ∷ s) (d ∷ t) = c == d && same_text s t

pub same_text_sound : (s t : List ℕ) → same_text s t ≡ true → s ≡ t
same_text_sound [] [] h = refl
same_text_sound [] (d ∷ t) h = absurd (ground arith)
same_text_sound (c ∷ s) [] h = absurd (ground arith)
same_text_sound (c ∷ s) (d ∷ t) h = ground (arith, same_text_sound s t)

pub same_text_refl : (s : List ℕ) → same_text s s ≡ true
same_text_refl [] = refl
same_text_refl (c ∷ s) = ground (arith, same_text_refl s)

abbrev pub member : List ℕ → List (List ℕ) → Bool
member name [] = false
member name (x ∷ xs) = same_text x name || member name xs
