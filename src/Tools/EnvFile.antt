-- ===== src/Tools/EnvFile.antt =====
-- The two parsers of .env files, `_parse_env_file` of .pre-commit-hooks/check-nimbus-env/hooks.py and
-- `parse_env_file` of scripts/check_env.py, and the audits of the keys of a file. Text is a list of code
-- points; the blanks that `strip` removes are an argument.
pub mod Agreement
use nimbus_commerce_platform.Common.{
  ℕ, Bool, true, false, not, ◌&&◌, ◌||◌, Option, none, some, List, [], ◌∷◌, ◌==◌, if◌then◌else◌,
}
use nimbus_commerce_platform.Common.Text.{codes, strip, strip_left, same_text}

-- `line.partition("=")` without the mark.
abbrev pub before : List ℕ → List ℕ
before [] = []
before (c ∷ line) = elim (c == b'=') [ true ↦ [] | false ↦ c ∷ before line ]

abbrev pub after : List ℕ → List ℕ
after [] = []
after (c ∷ line) = elim (c == b'=') [ true ↦ line | false ↦ after line ]

-- `"=" in line`
abbrev pub has_equals : List ℕ → Bool
has_equals [] = false
has_equals (c ∷ line) = c == b'=' || has_equals line

abbrev pub is_empty : List ℕ → Bool
is_empty [] = true
is_empty (c ∷ line) = false

-- A text that is empty or begins with "#".
abbrev pub is_skipped : List ℕ → Bool
is_skipped [] = true
is_skipped (c ∷ line) = c == b'#'

abbrev pub Env : Type 0
Env = List (List ℕ × List ℕ)

-- `parsed[key] = value` and `parsed.get(key)`
abbrev pub put : List ℕ → List ℕ → Env → Env
put key value [] = (key, value) ∷ []
put key value ((k, v) ∷ env) = elim (same_text k key) [
  | true ↦ (k, value) ∷ env
  | false ↦ (k, v) ∷ put key value env
]

abbrev pub get : List ℕ → Env → Option (List ℕ)
get key [] = none
get key ((k, v) ∷ env) = elim (same_text k key) [ true ↦ some v | false ↦ get key env ]

module _ (is_space : ℕ → Bool) where
  -- A line of `_parse_env_file`: the key and the value, if it has them.
  unfoldable pub hook_line : List ℕ → Option (List ℕ × List ℕ)
  hook_line line =
      let stripped = strip is_space line in
      if is_skipped stripped
      then none
      else (if has_equals stripped
          then some (strip is_space (before stripped), strip is_space (after stripped))
          else none)

  -- `_COMMENT_OR_BLANK.match` of a line, which has no line break in it: blanks, and after them the end or
  -- a "#".
  abbrev pub is_comment_or_blank : List ℕ → Bool
  is_comment_or_blank line = is_skipped (strip_left is_space line)

  -- A line of `parse_env_file`.
  unfoldable pub script_line : List ℕ → Option (List ℕ × List ℕ)
  script_line line =
      if is_comment_or_blank line
      then none
      else (if has_equals line
          then (let key = strip is_space (before line) in
              if is_empty key then none else some (key, strip is_space (after line)))
          else none)

  abbrev pub add_entry : Option (List ℕ × List ℕ) → Env → Env
  add_entry none env = env
  add_entry (some (key, value)) env = put key value env

  -- `_parse_env_file` on the lines of a file.
  unfoldable pub hook_lines : List (List ℕ) → Env → Env
  unfolding hook_line
  hook_lines [] env = env
  hook_lines (line ∷ lines) env = hook_lines lines (add_entry (hook_line line) env)

  -- `parse_env_file` on the lines of a file.
  unfoldable pub script_lines : List (List ℕ) → Env → Env
  unfolding script_line
  script_lines [] env = env
  script_lines (line ∷ lines) env = script_lines lines (add_entry (script_line line) env)

-- `required - parsed.keys()`
abbrev pub missing_keys : List (List ℕ) → Env → List (List ℕ)
missing_keys [] env = []
missing_keys (key ∷ keys) env = elim (get key env) [
  | none ↦ key ∷ missing_keys keys env
  | some v ↦ missing_keys keys env
]

-- The required keys of the files, the same in the two programs.
abbrev pub app_keys : List (List ℕ)
app_keys =
    codes "ENVIRONMENT"
    ∷ codes "APP_NAME"
    ∷ codes "APP_VERSION"
    ∷ codes "DATABASE_URL"
    ∷ codes "REDIS_URL"
    ∷ codes "KAFKA_BOOTSTRAP_SERVERS"
    ∷ codes "SECRET_KEY"
    ∷ []

abbrev pub test_keys : List (List ℕ)
test_keys =
    codes "ENVIRONMENT"
    ∷ codes "APP_NAME"
    ∷ codes "APP_VERSION"
    ∷ codes "TEST_DATABASE_URL"
    ∷ codes "TEST_REDIS_URL"
    ∷ codes "TEST_KAFKA_BOOTSTRAP_SERVERS"
    ∷ codes "SECRET_KEY"
    ∷ []

abbrev pub docker_keys : List (List ℕ)
docker_keys =
    codes "ENVIRONMENT"
    ∷ codes "APP_NAME"
    ∷ codes "APP_VERSION"
    ∷ codes "DATABASE_URL"
    ∷ codes "REDIS_URL"
    ∷ codes "KAFKA_BOOTSTRAP_SERVERS"
    ∷ []

abbrev pub is_app_file : List ℕ → Bool
is_app_file name = same_text name (codes ".env") || same_text name (codes ".env.example")

abbrev pub is_test_file : List ℕ → Bool
is_test_file name = same_text name (codes ".env.test") || same_text name (codes ".env.test.example")

abbrev pub is_docker_file : List ℕ → Bool
is_docker_file name = same_text name (codes ".env.docker")

abbrev pub required_keys : List ℕ → List (List ℕ)
required_keys name =
    if is_app_file name
    then app_keys
    else if is_test_file name
    then test_keys
    else if is_docker_file name
    then docker_keys
    else []

-- The audit of one file that is present in `_phase2_audit_keys`: the keys that it reports missing.
unfoldable pub hook_audit : (ℕ → Bool) → List ℕ → List (List ℕ) → List (List ℕ)
unfolding hook_lines
hook_audit is_space name lines = missing_keys (required_keys name) (hook_lines is_space lines [])

-- `guard_required_keys` of check_env.py on a file that it loaded: the keys that it reports missing.
unfoldable pub script_audit : (ℕ → Bool) → List ℕ → List (List ℕ) → List (List ℕ)
unfolding script_lines
script_audit is_space name lines =
    missing_keys (required_keys name) (script_lines is_space lines [])
