-- ===== src/Tools/Commits/Format.antt =====
-- What the expression of .pre-commit-hooks/conventional-commits.py makes of the messages that its
-- groups describe, and of the ordinary ones.
use nimbus_commerce_platform.Common.{
  ℕ, ◌≡◌, refl, ◌∙◌, Bool, true, false, ◌&&◌, Option, none, some, List, [], ◌∷◌, ◌++◌, arith, ◌==◌,
}
use nimbus_commerce_platform.Common.Text.{all}
use nimbus_commerce_platform.Tools.Commits.{
  Commit, is_type_char, is_scope_char, is_line_char, span, span_some, match_body, match_rest,
  match_commit,
}

-- Text that does not begin with a character of a class.
abbrev begins : (ℕ → Bool) → List ℕ → Bool
begins test [] = false
begins test (c ∷ text) = test c

abbrev is_some_text : List ℕ → Bool
is_some_text [] = false
is_some_text (c ∷ text) = true

span-append :
    (test : ℕ → Bool) (p rest : List ℕ)
    → all test p ≡ true
    → begins test rest ≡ false
    → span test (p ++ rest) ≡ (p, rest)
span-append test [] [] h k = refl
span-append test [] (c ∷ rest) h k = ground arith
span-append test (c ∷ p) rest h k = ground (arith, span-append test p rest)

span_some-append :
    (test : ℕ → Bool) (p rest : List ℕ)
    → is_some_text p ≡ true
    → all test p ≡ true
    → begins test rest ≡ false
    → span_some test (p ++ rest) ≡ some (p, rest)
span_some-append test [] rest n h k = absurd (ground arith)
span_some-append test (c ∷ p) rest n h k = ground (arith, span-append test (c ∷ p) rest h k)

-- The text of the groups.
abbrev pub render_body : Option (List ℕ) → List ℕ
render_body none = []
render_body (some body) = b'\n' ∷ b'\n' ∷ body

abbrev pub render_scope : Option (List ℕ) → List ℕ → List ℕ
render_scope none tail = tail
render_scope (some scope) tail = b'(' ∷ (scope ++ b')' ∷ tail)

abbrev pub render : Commit → List ℕ
render c =
    c.commit_type ++ render_scope c.scope (b'!' ∷ b':' ∷ b' ' ∷ (c.subject ++ render_body c.body))

-- The same with no "!": an ordinary message.
abbrev pub render_ordinary : Commit → List ℕ
render_ordinary c =
    c.commit_type ++ render_scope c.scope (b':' ∷ b' ' ∷ (c.subject ++ render_body c.body))

-- Text of a class with `+`.
abbrev pub is_word : (ℕ → Bool) → List ℕ → Bool
is_word test text = is_some_text text && all test text

abbrev pub is_word_or_none : (ℕ → Bool) → Option (List ℕ) → Bool
is_word_or_none test none = true
is_word_or_none test (some text) = is_word test text

-- Groups that the classes of the expression allow.
pub record IsWellFormed (c : Commit) : Type 0 where
  pub commit_type : is_word is_type_char c.commit_type ≡ true
  pub scope : is_word_or_none is_scope_char c.scope ≡ true
  pub subject : is_word is_line_char c.subject ≡ true
  pub body : is_word_or_none (λ _. true) c.body ≡ true

match_body-render :
    (body : Option (List ℕ))
    → is_word_or_none (λ _. true) body ≡ true
    → match_body (render_body body) ≡ body
match_body-render none h = refl
match_body-render (some []) h = absurd (ground arith)
match_body-render (some (c ∷ body)) h = refl

begins-render_body : (body : Option (List ℕ)) → begins is_line_char (render_body body) ≡ false
begins-render_body none = refl
begins-render_body (some body) = refl

match_rest-render :
    (commit_type : List ℕ) (scope : Option (List ℕ)) (subject : List ℕ) (body : Option (List ℕ))
    → is_word is_line_char subject ≡ true
    → is_word_or_none (λ _. true) body ≡ true
    → match_rest commit_type scope (b'!' ∷ b':' ∷ b' ' ∷ (subject ++ render_body body))
      ≡ some (record { commit_type = commit_type; scope = scope; subject = subject; body = body })
unfolding match_rest
match_rest-render commit_type scope subject body s b =
    let taken =
      span_some-append is_line_char subject (render_body body) (ground arith) (ground arith)
        (begins-render_body body) in
    ground (arith, taken, match_body-render body b)

-- What follows the type: the scope, or what follows it.
match_scope-render :
    (commit_type : List ℕ) (scope : Option (List ℕ)) (tail : List ℕ)
    → is_word is_type_char commit_type ≡ true
    → is_word_or_none is_scope_char scope ≡ true
    → begins is_type_char tail ≡ false
    → begins (λ c. c == b'(') tail ≡ false
    → match_commit (commit_type ++ render_scope scope tail) ≡ match_rest commit_type scope tail
unfolding match_commit
match_scope-render commit_type none tail t s n p =
    let taken = span_some-append is_type_char commit_type tail (ground arith) (ground arith) n in
    ground (arith, taken)
match_scope-render commit_type (some scope) tail t s n p =
    let taken =
      span_some-append is_type_char commit_type (b'(' ∷ (scope ++ b')' ∷ tail)) (ground arith)
        (ground arith) refl in
    let inner =
      span_some-append is_scope_char scope (b')' ∷ tail) (ground arith) (ground arith) refl in
    ground (arith, taken, inner)

-- The expression reads back the groups of every message that is put together from groups that its
-- classes allow.
pub match_commit-render : (c : Commit) → IsWellFormed c → match_commit (render c) ≡ some c
match_commit-render c h =
    match_scope-render c.commit_type c.scope
      (b'!' ∷ b':' ∷ b' ' ∷ (c.subject ++ render_body c.body)) h.commit_type h.scope refl refl
    ∙ match_rest-render c.commit_type c.scope c.subject c.body h.subject h.body

match_rest_ordinary :
    (commit_type : List ℕ) (scope : Option (List ℕ)) (text : List ℕ)
    → match_rest commit_type scope (b':' ∷ text) ≡ none
unfolding match_rest
match_rest_ordinary commit_type scope text = refl

pub match_commit_ordinary : (c : Commit) → IsWellFormed c → match_commit (render_ordinary c) ≡ none
match_commit_ordinary c h =
    match_scope-render c.commit_type c.scope (b':' ∷ b' ' ∷ (c.subject ++ render_body c.body))
      h.commit_type h.scope refl refl
    ∙ match_rest_ordinary c.commit_type c.scope (b' ' ∷ (c.subject ++ render_body c.body))
