-- ===== src/Tools/Commits.antt =====
-- The check of commit messages in .pre-commit-hooks/conventional-commits.py. Text is a list of code
-- points; `str.isupper`, `str.upper`, `str.strip` and `str.splitlines` are arguments.
pub mod Format
pub mod Verdicts
use nimbus_commerce_platform.Common.{
  ℕ, Bool, true, false, not, ◌&&◌, ◌||◌, Option, none, some, List, [], ◌∷◌, ◌++◌, ltb, leb, ◌==◌,
  length, if◌then◌else◌,
}
use nimbus_commerce_platform.Common.Text.{
  codes, starts_with, contains, same_text, member, strip, strip_left,
}

-- The groups of CONVENTIONAL_RE; the group `breaking` is always "!".
pub record Commit : Type 0 where
  pub commit_type : List ℕ
  pub scope : Option (List ℕ)
  pub subject : List ℕ
  pub body : Option (List ℕ)

-- [a-z]
abbrev pub is_type_char : ℕ → Bool
is_type_char c = leb b'a' c && leb c b'z'

-- [a-z0-9_-]
abbrev pub is_scope_char : ℕ → Bool
is_scope_char c = is_type_char c || (leb b'0' c && leb c b'9') || c == b'_' || c == b'-'

-- [^\n]
abbrev pub is_line_char : ℕ → Bool
is_line_char c = not (c == b'\n')

abbrev push_front : ℕ → List ℕ × List ℕ → List ℕ × List ℕ
push_front c (taken, rest) = (c ∷ taken, rest)

-- The longest prefix of characters of a class, and the rest.
abbrev pub span : (ℕ → Bool) → List ℕ → List ℕ × List ℕ
span test [] = ([], [])
span test (c ∷ text) = elim (test c) [
  | true ↦ push_front c (span test text)
  | false ↦ ([], c ∷ text)
]

-- A class with `+`: at least one character.
abbrev pub span_some : (ℕ → Bool) → List ℕ → Option (List ℕ × List ℕ)
span_some test text =
    let (taken, rest) = span test text in
    elim taken [ [] ↦ none | c ∷ more ↦ some (c ∷ more, rest) ]

-- A literal.
abbrev pub literal : List ℕ → List ℕ → Option (List ℕ)
literal [] text = some text
literal (p ∷ prefix) [] = none
literal (p ∷ prefix) (c ∷ text) = elim (p == c) [ true ↦ literal prefix text | false ↦ none ]

-- `(?:\n\n(?P<body>.+))?`
abbrev pub match_body : List ℕ → Option (List ℕ)
match_body rest = elim (literal (b'\n' ∷ b'\n' ∷ []) rest) [
  | none ↦ none
  | some [] ↦ none
  | some (c ∷ text) ↦ some (c ∷ text)
]

-- The expression from `!` on.
unfoldable pub match_rest : List ℕ → Option (List ℕ) → List ℕ → Option Commit
match_rest commit_type scope text = elim (literal (b'!' ∷ b':' ∷ b' ' ∷ []) text) [
  | none ↦ none
  | some rest ↦ elim (span_some is_line_char rest) [
    | none ↦ none
    | some (subject, tail) ↦ some (record {
      commit_type = commit_type;
      scope = scope;
      subject = subject;
      body = match_body tail;
    })
  ]
]

-- `CONVENTIONAL_RE.match`. No class contains the character that may follow it, so the expression
-- never goes back; where the group of the scope fails, what follows cannot match its "(".
unfoldable pub match_commit : List ℕ → Option Commit
unfolding match_rest
match_commit text = elim (span_some is_type_char text) [
  | none ↦ none
  | some (commit_type, rest) ↦ elim (literal (b'(' ∷ []) rest) [
    | none ↦ match_rest commit_type none rest
    | some inner ↦ elim (span_some is_scope_char inner) [
      | none ↦ none
      | some (scope, after) ↦ elim (literal (b')' ∷ []) after) [
        | none ↦ none
        | some tail ↦ match_rest commit_type (some scope) tail
      ]
    ]
  ]
]

-- The errors that the hook reports.
pub data Problem : Type 0 where
  bad_format type_not_allowed scope_not_allowed : Problem
  subject_empty subject_uppercase subject_period subject_long : Problem
  no_breaking_change : Problem

abbrev pub report : Bool → Problem → List Problem
report found problem = if found then problem ∷ [] else []

abbrev pub ends_with : ℕ → List ℕ → Bool
ends_with c [] = false
ends_with c (d ∷ []) = d == c
ends_with c (d ∷ e ∷ text) = ends_with c (e ∷ text)

-- The types and scopes that are allowed where the command line gives no others.
abbrev pub default_types : List (List ℕ)
default_types =
    codes "feat"
    ∷ codes "fix"
    ∷ codes "perf"
    ∷ codes "refactor"
    ∷ codes "test"
    ∷ codes "docs"
    ∷ codes "build"
    ∷ codes "ci"
    ∷ codes "chore"
    ∷ codes "revert"
    ∷ codes "style"
    ∷ []

abbrev pub default_scopes : List (List ℕ)
default_scopes =
    codes "orders"
    ∷ codes "inventory"
    ∷ codes "payments"
    ∷ codes "notifications"
    ∷ codes "admin"
    ∷ codes "gateway"
    ∷ codes "core"
    ∷ codes "deps"
    ∷ codes "precommit"
    ∷ codes "docker"
    ∷ codes "ci"
    ∷ codes "api"
    ∷ codes "models"
    ∷ codes "readme"
    ∷ codes "env"
    ∷ []

-- The allowed types and scopes, and the methods of `str`.
pub record Rules : Type 0 where
  pub types : List (List ℕ)
  pub scopes : List (List ℕ)
  pub is_upper : ℕ → Bool
  pub upper : List ℕ → List ℕ
  pub is_space : ℕ → Bool
  pub splitlines : List ℕ → List (List ℕ)

abbrev pub body_or_empty : Option (List ℕ) → List ℕ
body_or_empty none = []
body_or_empty (some body) = body

abbrev pub join_lines : List (List ℕ) → List ℕ
join_lines [] = []
join_lines (line ∷ []) = line
join_lines (line ∷ next ∷ rest) = line ++ b'\n' ∷ join_lines (next ∷ rest)

abbrev pub passes_unchanged : List ℕ → Bool
passes_unchanged message =
    starts_with (codes "Merge ") message
    || starts_with (codes "Revert ") message
    || starts_with (codes "fixup!") message
    || starts_with (codes "squash!") message

module _ (r : Rules) where
  -- `_check_subject`
  unfoldable pub check_subject : List ℕ → List Problem
  check_subject [] = subject_empty ∷ []
  check_subject (c ∷ text) =
      report (r.is_upper c) subject_uppercase
      ++ report (ends_with b'.' (c ∷ text)) subject_period
      ++ report (ltb 72 (length (c ∷ text))) subject_long

  abbrev pub scope_forbidden : Option (List ℕ) → Bool
  scope_forbidden none = false
  scope_forbidden (some scope) = not (member scope r.scopes)

  abbrev pub has_breaking_change : Commit → Bool
  has_breaking_change c = contains (codes "BREAKING CHANGE") (r.upper (body_or_empty c.body))

  -- The errors of a message.
  unfoldable pub problems : Option Commit → List Problem
  unfolding check_subject
  problems none = bad_format ∷ []
  problems (some c) =
      report (not (member c.commit_type r.types)) type_not_allowed
      ++ report (scope_forbidden c.scope) scope_not_allowed
      ++ check_subject c.subject
      ++ report (not (has_breaking_change c)) no_breaking_change

  abbrev pub is_comment : List ℕ → Bool
  is_comment line = starts_with (b'#' ∷ []) (strip_left r.is_space line)

  abbrev pub drop_comments : List (List ℕ) → List (List ℕ)
  drop_comments [] = []
  drop_comments (line ∷ lines) = elim (is_comment line) [
    | true ↦ drop_comments lines
    | false ↦ line ∷ drop_comments lines
  ]

  -- The message without comment lines.
  abbrev pub message_of : List ℕ → List ℕ
  message_of raw = strip r.is_space (join_lines (drop_comments (r.splitlines raw)))

  -- `main` on a message, from the test for an empty one on: the exit status.
  unfoldable pub check_message : List ℕ → ℕ
  unfolding match_commit problems
  check_message [] = 1
  check_message (c ∷ message) =
      if passes_unchanged (c ∷ message)
      then 0
      else elim (problems (match_commit (c ∷ message))) [ [] ↦ 0 | p ∷ ps ↦ 1 ]

  -- `main`, on what the file holds; `none` where it does not exist.
  unfoldable pub check_file : Option (List ℕ) → ℕ
  unfolding check_message
  check_file none = 1
  check_file (some raw) = check_message (message_of raw)
