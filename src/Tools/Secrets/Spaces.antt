-- ===== src/Tools/Secrets/Spaces.antt =====
-- A secret that .pre-commit-hooks/check-nimbus-env/hooks.py reads and does not find.
use nimbus_commerce_platform.Common.{
  ℕ, ◌≡◌, refl, Bool, true, false, not, none, some, List, [], ◌∷◌, ◌++◌, arith,
}
use nimbus_commerce_platform.Common.Text.{codes, all, starts_with, strip, strip_right}
use nimbus_commerce_platform.Tools.EnvFile.{hook_line}
use nimbus_commerce_platform.Tools.Secrets.{
  after_prefix, starts_with_any, search_lines, search_text, is_populated, is_credentials_at,
  is_aws_key_at, private_keys, is_lower, secret_placeholders, database_placeholders,
  redis_placeholders,
}

abbrev is_word : List ℕ → Bool
is_word = all is_lower

-- What is not in lower case begins no word.
after_prefix-word :
    (prefix text : List ℕ)
    → is_word prefix ≡ false
    → is_word text ≡ true
    → after_prefix prefix text ≡ none
after_prefix-word [] text h w = absurd (ground arith)
after_prefix-word (p ∷ prefix) [] h w = refl
after_prefix-word (p ∷ prefix) (c ∷ text) h w = ground (arith, after_prefix-word prefix text)

starts_with-word :
    (prefix text : List ℕ)
    → is_word prefix ≡ false
    → is_word text ≡ true
    → starts_with prefix text ≡ false
starts_with-word [] text h w = absurd (ground arith)
starts_with-word (p ∷ prefix) [] h w = refl
starts_with-word (p ∷ prefix) (c ∷ text) h w = ground (arith, starts_with-word prefix text)

search_text-word :
    (test : List ℕ → Bool) (text : List ℕ)
    → ((word : List ℕ) → is_word word ≡ true → test word ≡ false)
    → is_word text ≡ true
    → search_text test text ≡ false
unfolding search_text
search_text-word test [] never w = never [] refl
search_text-word test (c ∷ text) never w =
    ground (arith, never (c ∷ text) w, search_text-word test text never)

search_lines-word :
    (key : List ℕ) (placeholders : List (List ℕ)) (text : List ℕ)
    → is_word text ≡ true
    → search_lines key placeholders false text ≡ false
unfolding search_lines
search_lines-word key placeholders [] w = refl
search_lines-word key placeholders (c ∷ text) w =
    ground (arith, search_lines-word key placeholders text)

credentials-word : (word : List ℕ) → is_word word ≡ true → is_credentials_at word ≡ false
unfolding is_credentials_at
credentials-word word w =
    rw
      (
        is_credentials_at,
        after_prefix-word (codes "http://") word refl w,
        after_prefix-word (codes "https://") word refl w,
      )
      refl

aws_key-word : (word : List ℕ) → is_word word ≡ true → is_aws_key_at word ≡ false
unfolding is_aws_key_at
aws_key-word word w = rw (is_aws_key_at, after_prefix-word (codes "AKIA") word refl w) refl

private_key-word :
    (prefixes : List (List ℕ)) (word : List ℕ)
    → all (λ prefix. not (is_word prefix)) prefixes ≡ true
    → is_word word ≡ true
    → starts_with_any prefixes word ≡ false
private_key-word [] word h w = refl
private_key-word (prefix ∷ prefixes) word h w =
    ground (arith, starts_with-word prefix word, private_key-word prefixes word)

-- The line SECRET_KEY = and a word: with a blank before the mark.
abbrev pub spaced : List ℕ → List ℕ
spaced secret = codes "SECRET_KEY =" ++ secret

module _ (secret : List ℕ) (w : is_word secret ≡ true) where
  no_secret : search_lines (codes "SECRET_KEY=") secret_placeholders true (spaced secret) ≡ false
  unfolding search_lines
  no_secret = search_lines-word (codes "SECRET_KEY=") secret_placeholders secret w

  no_url :
      (key : List ℕ) (placeholders : List (List ℕ))
      → starts_with (codes "S") key ≡ false
      → is_word key ≡ false
      → search_lines key placeholders true (spaced secret) ≡ false
  unfolding search_lines
  no_url [] placeholders h g = absurd (ground arith)
  no_url (p ∷ key) placeholders h g =
      ground (arith, search_lines-word (p ∷ key) placeholders secret w)

  no_credentials : search_text is_credentials_at (spaced secret) ≡ false
  unfolding search_text is_credentials_at
  no_credentials = search_text-word is_credentials_at secret credentials-word w

  no_aws_key : search_text is_aws_key_at (spaced secret) ≡ false
  unfolding search_text is_aws_key_at
  no_aws_key = search_text-word is_aws_key_at secret aws_key-word w

  no_private_key : search_text (starts_with_any private_keys) (spaced secret) ≡ false
  unfolding search_text
  no_private_key =
      search_text-word (starts_with_any private_keys) secret
        (λ word h. private_key-word private_keys word refl h) w

  is_populated-spaced : is_populated (spaced secret) ≡ false
  unfolding is_populated
  is_populated-spaced =
      rw
        (
          is_populated,
          no_secret,
          no_url (codes "DATABASE_URL=postgresql+asyncpg://") database_placeholders refl refl,
          no_url (codes "TEST_DATABASE_URL=postgresql+asyncpg://") database_placeholders refl refl,
          no_url (codes "REDIS_URL=redis://") redis_placeholders refl refl,
          no_url (codes "TEST_REDIS_URL=redis://") redis_placeholders refl refl,
          no_credentials,
          no_aws_key,
          no_private_key,
        )
        refl

module _ (is_space : ℕ → Bool) (letters : (c : ℕ) → is_lower c ≡ true → is_space c ≡ false) where
  strip_right-word : (word : List ℕ) → is_word word ≡ true → strip_right is_space word ≡ word
  strip_right-word [] w = refl
  strip_right-word (c ∷ []) w = ground (arith, letters c)
  strip_right-word (c ∷ d ∷ word) w = ground (arith, strip_right-word (d ∷ word))

  strip-word : (word : List ℕ) → is_word word ≡ true → strip is_space word ≡ word
  strip-word [] w = refl
  strip-word (c ∷ word) w = ground (arith, strip_right-word (c ∷ word) w, letters c)

  module _ (blank : is_space b' ' ≡ true)
      (others : all (λ c. not (is_space c)) (codes "SECRET_KEY=") ≡ true) where
    strip-spaced :
        (secret : List ℕ) → is_word secret ≡ true → strip is_space (spaced secret) ≡ spaced secret
    strip-spaced [] w = ground arith
    strip-spaced (c ∷ secret) w = ground (arith, strip_right-word (c ∷ secret) w)

    strip_key : strip is_space (codes "SECRET_KEY ") ≡ codes "SECRET_KEY"
    strip_key = ground arith

    -- Where a blank is a space and no small letter, no letter of SECRET_KEY and no "=" is: of the
    -- line SECRET_KEY = with a blank before the mark and any word of small letters after it, the
    -- hook reads the word as the value of SECRET_KEY, and yet does not find it populated.
    pub spaced_secret_missed :
        (secret : List ℕ)
        → is_word secret ≡ true
        → (hook_line is_space (spaced secret) ≡ some (codes "SECRET_KEY", secret))
          × (is_populated (spaced secret) ≡ false)
    unfolding hook_line
    spaced_secret_missed secret w = (
      rw (hook_line, strip-spaced secret w, strip_key, strip-word secret w) refl,
      is_populated-spaced secret w,
    )
