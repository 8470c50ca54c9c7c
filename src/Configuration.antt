-- ===== src/Configuration.antt =====
-- The logic of src/core/config.py: lists in environment variables, the level of the logs, and the guard
-- that keeps tests away from other systems. Text is a list of code points.
pub mod Lists
pub mod Isolation
use nimbus_commerce_platform.Common.{
  ℕ, String, Bool, true, false, not, ◌&&◌, ◌||◌, Option, none, some, List, [], ◌∷◌, map, ◌==◌,
  if◌then◌else◌,
}
use nimbus_commerce_platform.Common.Text.{
  codes, split_on, strip, strip_left, contains, same_text, member,
}
use nimbus_commerce_platform.Errors.{Result, ok, err, ◌>>◌, raise_if, value_error}

-- What `_split_csv` is given: None, a text, a list or tuple by the `str` of its items, or a value of
-- another type.
pub data Value : Type 0 where
  missing : Value
  text : List ℕ → Value
  items : List (List ℕ) → Value
  other_value : Value

-- `[item.strip() for item in parts if item.strip()]`
abbrev pub clean_items : (ℕ → Bool) → List (List ℕ) → List (List ℕ)
clean_items is_space [] = []
clean_items is_space (part ∷ parts) = elim (strip is_space part) [
  | [] ↦ clean_items is_space parts
  | c ∷ item ↦ (c ∷ item) ∷ clean_items is_space parts
]

-- `_split_csv`, given the blanks that `strip` removes; `none` where it raises a TypeError.
unfoldable pub split_csv : (ℕ → Bool) → Value → Option (List (List ℕ))
split_csv is_space missing = some []
split_csv is_space (text []) = some []
split_csv is_space (text (c ∷ t)) = some (clean_items is_space (split_on b',' (c ∷ t)))
split_csv is_space (items parts) = some (clean_items is_space parts)
split_csv is_space other_value = none

pub data Environment : Type 0 where
  development test staging production : Environment

abbrev pub is_production : Environment → Bool
is_production production = true
is_production _ = false

abbrev pub is_staging : Environment → Bool
is_staging staging = true
is_staging _ = false

abbrev pub is_test : Environment → Bool
is_test test = true
is_test _ = false

-- `use_json_logs`, by `log_json`.
unfoldable pub use_json_logs : Option Bool → Environment → Bool
use_json_logs (some log_json) environment = log_json
use_json_logs none environment = is_production environment || is_staging environment

abbrev pub log_levels : List (List ℕ)
log_levels = codes "DEBUG" ∷ codes "INFO" ∷ codes "WARNING" ∷ codes "ERROR" ∷ codes "CRITICAL" ∷ []

-- `_normalize_log_level`, given `str.upper`.
unfoldable pub normalize_log_level : (List ℕ → List ℕ) → List ℕ → Result (List ℕ)
normalize_log_level upper value =
    if member (upper value) log_levels then ok (upper value) else err value_error

-- What `urlparse` makes of a URL, as far as the guard looks at it.
pub record Url : Type 0 where
  pub hostname : Option (List ℕ)
  pub path : List ℕ

abbrev pub prod_host_substrings : List (List ℕ)
prod_host_substrings =
    codes "rds.amazonaws.com"
    ∷ codes "amazonaws.com"
    ∷ codes "azure.com"
    ∷ codes "windows.net"
    ∷ codes "confluent.cloud"
    ∷ codes "memorystore.googleapis.com"
    ∷ []

abbrev pub host_of : (List ℕ → List ℕ) → Url → List ℕ
host_of lower url = lower (elim url.hostname [ none ↦ [] | some h ↦ h ])

-- The first loop of the guard over a host.
unfoldable pub check_host : List ℕ → List (List ℕ) → Result (Unit {0})
check_host host [] = ok tt
check_host host (forbidden ∷ rest) =
    raise_if (contains forbidden host) value_error >> check_host host rest

-- `parsed.path.lstrip("/").split("?")[0]`
abbrev pub first_part : List (List ℕ) → List ℕ
first_part [] = []
first_part (part ∷ parts) = part

abbrev pub path_segment : Url → List ℕ
path_segment url = first_part (split_on b'?' (strip_left (λ c. c == b'/') url.path))

-- `… or "0"`
abbrev pub db_segment : Url → List ℕ
db_segment url = elim (path_segment url) [ [] ↦ codes "0" | c ∷ rest ↦ c ∷ rest ]

-- `assert_test_isolation`, given `str.lower` and what `urlparse` makes of the two URLs.
unfoldable pub assert_test_isolation :
    (List ℕ → List ℕ) → Environment → Url → Url → Result (Unit {0})
unfolding check_host
assert_test_isolation lower environment database redis =
    if not (is_test environment)
    then ok tt
    else check_host (host_of lower database) prod_host_substrings
      >> raise_if (not (contains (codes "test") (lower (path_segment database)))) value_error
      >> check_host (host_of lower redis) prod_host_substrings
      >> raise_if (same_text (db_segment redis) (codes "0")) value_error
