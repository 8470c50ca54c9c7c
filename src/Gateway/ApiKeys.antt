-- ===== src/Gateway/ApiKeys.antt =====
-- `generate_api_key` of src/modules/gateway/security.py. Text is a list of code points; `is_alnum` is
-- `isalnum` of one character, and `token` what secrets.token_urlsafe returns.
use nimbus_commerce_platform.Common.{
  ℕ, ◌≡◌, ◌≢◌, refl, ap, sym, Bool, false, if◌then◌else◌, List, [], ◌∷◌, ◌++◌, length, ◌==◌, ◌+◌,
  arith,
}
use mathlib.Core.Path.{ap₂}
use nimbus_commerce_platform.Common.Text.{all}
use nimbus_commerce_platform.Errors.{Result, ok, err, value_error}

-- `prefix.replace("_", "")`
abbrev without_underscores : List ℕ → List ℕ
without_underscores [] = []
without_underscores (c ∷ text) =
    let rest = without_underscores text in if c == b'_' then rest else c ∷ rest

-- `str.isalnum`, which is false on the empty text.
abbrev is_alnum_text : (ℕ → Bool) → List ℕ → Bool
is_alnum_text is_alnum [] = false
is_alnum_text is_alnum (c ∷ text) = all is_alnum (c ∷ text)

-- A prefix that is empty has nothing left without its underscores either.
unfoldable pub generate_api_key : (ℕ → Bool) → List ℕ → List ℕ → Result (List ℕ)
generate_api_key is_alnum prefix token =
    if is_alnum_text is_alnum (without_underscores prefix)
    then ok (prefix ++ b'_' ∷ token)
    else err value_error

length-append : (s t : List ℕ) → length (s ++ t) ≡ length s + length t
length-append [] t = omega arith
length-append (c ∷ s) t = omega (arith, length-append s t)

tail_of : List ℕ → List ℕ
tail_of [] = []
tail_of (c ∷ text) = text

head_of : ℕ → List ℕ → ℕ
head_of d [] = d
head_of d (c ∷ text) = c

too_short : (c : ℕ) (p t u : List ℕ) → length t ≡ length u → t ≢ p ++ c ∷ u
too_short c p t u same q = ground (arith, ap length q, length-append p (c ∷ u), same)

append_inj :
    (c : ℕ) (p q t u : List ℕ) → length t ≡ length u → p ++ c ∷ t ≡ q ++ c ∷ u → (p ≡ q) × (t ≡ u)
unfolding tail_of head_of
append_inj c [] [] t u same h = (refl, ap tail_of h)
append_inj c [] (d ∷ q) t u same h = absurd (too_short c q t u same (ap tail_of h))
append_inj c (d ∷ p) [] t u same h = absurd (too_short c p u t (sym same) (sym (ap tail_of h)))
append_inj c (d ∷ p) (e ∷ q) t u same h =
    let (prefixes, tokens) = append_inj c p q t u same (ap tail_of h) in
    (ap₂ ◌∷◌ (ap (head_of 0) h) prefixes, tokens)

-- Keys whose tokens are of one length are equal only if they have one prefix and one token, although
-- underscores may stand in both.
generate_api_key_inj :
    (is_alnum : ℕ → Bool) (p q t u k : List ℕ)
    → length t ≡ length u
    → generate_api_key is_alnum p t ≡ ok k
    → generate_api_key is_alnum q u ≡ ok k
    → (p ≡ q) × (t ≡ u)
unfolding generate_api_key
generate_api_key_inj is_alnum p q t u k same h h' =
    append_inj b'_' p q t u same (ground (arith, h, h'))
