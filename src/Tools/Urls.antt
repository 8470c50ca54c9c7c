-- ===== src/Tools/Urls.antt =====
-- .pre-commit-hooks/block-prod-urls.py: the search for hosts of production. Which code points
-- re.IGNORECASE takes for the same letter is an argument.
pub mod Gaps
use nimbus_commerce_platform.Common.{
  ℕ, Bool, true, false, ◌&&◌, ◌||◌, List, [], ◌∷◌, ◌++◌, if◌then◌else◌,
}
use nimbus_commerce_platform.Common.Text.{codes, contains}

-- A literal, and whether the pattern ends with `$`.
pub record Pattern : Type 0 where
  pub literal : List ℕ
  pub at_end : Bool

abbrev pub anywhere : List ℕ → Pattern
anywhere literal = record { literal = literal; at_end = false }

abbrev pub prod_patterns : List Pattern
prod_patterns =
    anywhere (codes "rds.amazonaws.com")
    ∷ anywhere (codes ".amazonaws.com")
    ∷ anywhere (codes ".azure.com")
    ∷ anywhere (codes ".windows.net")
    ∷ anywhere (codes "confluent.cloud")
    ∷ anywhere (codes ".googleapis.com")
    ∷ anywhere (codes "prod.")
    ∷ anywhere (codes "-prod.")
    ∷ record { literal = codes ".prod"; at_end = true }
    ∷ []

abbrev pub allowlist : List (List ℕ)
allowlist =
    codes ".env.example"
    ∷ codes ".env.test.example"
    ∷ codes ".env.docker"
    ∷ codes "tests/conftest.py"
    ∷ codes ".pre-commit-hooks/check-nimbus-env/hooks.py"
    ∷ codes ".pre-commit-hooks/block-prod-urls.py"
    ∷ codes "src/core/config.py"
    ∷ []

-- `any(part in str(path) for part in ALLOWLIST)`
abbrev pub is_allowed : List (List ℕ) → List ℕ → Bool
is_allowed [] path = false
is_allowed (part ∷ parts) path = contains part path || is_allowed parts path

-- A tracked file: its path, and its lines, none where it cannot be read.
pub record TrackedFile : Type 0 where
  pub path : List ℕ
  pub lines : List (List ℕ)

module _ (same_letter : ℕ → ℕ → Bool) where
  -- A match of the pattern at one position; a line holds no line break.
  unfoldable pub matches : Bool → List ℕ → List ℕ → Bool
  matches at_end [] [] = true
  matches at_end [] (c ∷ line) = if at_end then false else true
  matches at_end (p ∷ literal) [] = false
  matches at_end (p ∷ literal) (c ∷ line) = same_letter p c && matches at_end literal line

  -- `pattern.search(line)`
  unfoldable pub search_line : Pattern → List ℕ → Bool
  unfolding matches
  search_line pattern [] = matches pattern.at_end pattern.literal []
  search_line pattern (c ∷ line) =
      matches pattern.at_end pattern.literal (c ∷ line) || search_line pattern line

  -- Whether `_scan_file` reports a line.
  unfoldable pub is_flagged : List Pattern → List ℕ → Bool
  unfolding search_line
  is_flagged [] line = false
  is_flagged (pattern ∷ patterns) line = search_line pattern line || is_flagged patterns line

  -- `_scan_file`: the lines that it reports.
  unfoldable pub scan_file : List (List ℕ) → List (List ℕ)
  unfolding is_flagged
  scan_file [] = []
  scan_file (line ∷ lines) = elim (is_flagged prod_patterns line) [
    | true ↦ line ∷ scan_file lines
    | false ↦ scan_file lines
  ]

  -- The problems that `main` collects.
  unfoldable pub url_problems : List TrackedFile → List (List ℕ)
  unfolding scan_file
  url_problems [] = []
  url_problems (file ∷ files) = elim (is_allowed allowlist file.path) [
    | true ↦ url_problems files
    | false ↦ scan_file file.lines ++ url_problems files
  ]

  -- `main`: its exit status.
  unfoldable pub block_main : List TrackedFile → ℕ
  unfolding url_problems
  block_main files = elim (url_problems files) [ [] ↦ 0 | problem ∷ problems ↦ 1 ]
