-- ===== src/Tools/Guards.antt =====
-- The guards of scripts/check_env.py on the variables of an environment. Text is a list of code points;
-- `urlparse` and the methods of `str` are arguments.
pub mod Strictness
use nimbus_commerce_platform.Common.{
  ℕ, Bool, true, false, not, ◌&&◌, ◌||◌, Option, none, some, List, [], ◌∷◌, ◌++◌, map, ◌==◌,
  if◌then◌else◌,
}
use nimbus_commerce_platform.Common.Text.{codes, contains, same_text, member}
use nimbus_commerce_platform.Configuration.{Url, host_of, path_segment, db_segment}
use nimbus_commerce_platform.Tools.EnvFile.{
  Env, get, is_empty, missing_keys, required_keys, app_keys, test_keys, docker_keys,
}

-- What `urlparse` makes of a URL.
pub record Parsed : Type 0 where
  pub scheme : List ℕ
  pub url : Url

-- `urlparse` returns `none` where it raises a ValueError.
pub record Functions : Type 0 where
  pub urlparse : List ℕ → Option Parsed
  pub lower : List ℕ → List ℕ
  pub upper : List ℕ → List ℕ

-- What a guard reports of the environment of tests.
pub data Violation : Type 0 where
  production_variable unset invalid_url production_host : Violation
  name_without_test redis_default_db wrong_scheme : Violation

abbrev pub report : Bool → Violation → List Violation
report found violation = if found then violation ∷ [] else []

-- `env_vars.get(name, default)`
abbrev pub get_or : List ℕ → List ℕ → Env → List ℕ
get_or default name env = elim (get name env) [ none ↦ default | some value ↦ value ]

abbrev pub prod_host_forbidden_substrings : List (List ℕ)
prod_host_forbidden_substrings =
    codes "rds.amazonaws.com"
    ∷ codes "amazonaws.com"
    ∷ codes "azure.com"
    ∷ codes "windows.net"
    ∷ codes "confluent.cloud"
    ∷ codes "memorystore.googleapis.com"
    ∷ codes "prod-"
    ∷ codes "-prod."
    ∷ codes ".prod."
    ∷ []

abbrev pub host_violations : List ℕ → List (List ℕ) → List Violation
host_violations host [] = []
host_violations host (forbidden ∷ rest) = elim (contains forbidden host) [
  | true ↦ production_host ∷ host_violations host rest
  | false ↦ host_violations host rest
]

-- How a guard ends: it returns, or the program exits with a status.
pub data Verdict : Type 0 where
  passes : Verdict
  exits : ℕ → Verdict

abbrev pub verdict_of : List Violation → Verdict
verdict_of [] = passes
verdict_of (v ∷ vs) = exits 2

infixl 5 ◌then_guard◌
abbrev pub ◌then_guard◌ : Verdict → Verdict → Verdict
passes then_guard v = v
(exits code) then_guard v = exits code

abbrev pub fail_if : Bool → Verdict
fail_if test = if test then exits 1 else passes

-- `guard_required_keys`, by the name of the file that was loaded.
unfoldable pub guard_required_keys : Env → Option (List ℕ) → Verdict
guard_required_keys env none = passes
guard_required_keys env (some name) = elim (missing_keys (required_keys name) env) [
  | [] ↦ passes
  | key ∷ keys ↦ exits 1
]

abbrev pub is_production_like : List ℕ → Bool
is_production_like env_name = member env_name (codes "production" ∷ codes "staging" ∷ [])

abbrev pub is_default_db : Parsed → Bool
is_default_db p = same_text (db_segment p.url) (codes "0")

module _ (f : Functions) where
  abbrev pub is_untested : Parsed → Bool
  is_untested p = not (contains (codes "test") (f.lower (path_segment p.url)))

  abbrev pub database_violations : Parsed → List Violation
  database_violations p =
      report (is_untested p) name_without_test
      ++ report
          (not (
            member (f.lower p.scheme)
              (codes "postgresql" ∷ codes "postgresql+asyncpg" ∷ codes "postgres" ∷ [])))
          wrong_scheme

  abbrev pub redis_violations : Parsed → List Violation
  redis_violations p =
      report (is_default_db p) redis_default_db
      ++ report (not (member (f.lower p.scheme) (codes "redis" ∷ codes "rediss" ∷ []))) wrong_scheme

  -- The loop over the two URLs, for one of them.
  unfoldable pub url_violations : (Parsed → List Violation) → List ℕ → List Violation
  url_violations others [] = []
  url_violations others (c ∷ url) = elim (f.urlparse (c ∷ url)) [
    | none ↦ invalid_url ∷ []
    | some p ↦ host_violations (host_of f.lower p.url) prod_host_forbidden_substrings ++ others p
  ]

  abbrev pub is_set : List ℕ → Env → Bool
  is_set name env = not (is_empty (get_or [] name env))

  -- The errors about variables that are set, or are not.
  abbrev pub variable_violations : Env → List Violation
  variable_violations env =
      report (is_set (codes "DATABASE_URL") env) production_variable
      ++ report (is_set (codes "REDIS_URL") env) production_variable
      ++ report (is_set (codes "KAFKA_BOOTSTRAP_SERVERS") env) production_variable
      ++ report (not (is_set (codes "TEST_DATABASE_URL") env)) unset
      ++ report (not (is_set (codes "TEST_REDIS_URL") env)) unset

  -- The errors that `guard_test_isolation` collects.
  unfoldable pub test_violations : Env → List Violation
  unfolding url_violations
  test_violations env =
      variable_violations env
      ++ url_violations database_violations (get_or [] (codes "TEST_DATABASE_URL") env)
      ++ url_violations redis_violations (get_or [] (codes "TEST_REDIS_URL") env)

  -- `guard_test_isolation`
  unfoldable pub guard_test_isolation : Env → List ℕ → Verdict
  unfolding test_violations
  guard_test_isolation env env_name =
      if not (same_text env_name (codes "test")) then passes else verdict_of (test_violations env)

  abbrev pub is_placeholder : List ℕ → Bool
  is_placeholder url =
      contains (codes "CHANGE_ME") url || contains (codes "change-me") (f.lower url)

  abbrev pub is_weak_secret : List ℕ → Bool
  is_weak_secret secret =
      is_empty secret
      || contains (codes "CHANGE_ME") secret
      || contains (codes "test") (f.lower secret)

  abbrev pub is_debug : Env → Bool
  is_debug env =
      member (f.lower (get_or (codes "false") (codes "DEBUG") env))
        (codes "1" ∷ codes "true" ∷ codes "yes" ∷ codes "on" ∷ [])

  -- The checks of an environment of production or staging, in their order.
  abbrev pub production_checks : Env → Verdict
  production_checks env =
      fail_if (is_debug env)
      then_guard fail_if
          (same_text (f.upper (get_or (codes "INFO") (codes "LOG_LEVEL") env)) (codes "DEBUG"))
      then_guard fail_if (is_placeholder (get_or [] (codes "DATABASE_URL") env))
      then_guard fail_if (is_placeholder (get_or [] (codes "REDIS_URL") env))
      then_guard fail_if (is_weak_secret (get_or [] (codes "SECRET_KEY") env))

  -- `guard_production_safety`
  unfoldable pub guard_production_safety : Env → List ℕ → Verdict
  guard_production_safety env env_name =
      if not (is_production_like env_name) then passes else production_checks env

  -- The guards that `main` always runs, in their order.
  unfoldable pub guards : Env → Option (List ℕ) → List ℕ → Verdict
  unfolding guard_required_keys guard_test_isolation guard_production_safety
  guards env source_file env_name =
      guard_required_keys env source_file
      then_guard guard_test_isolation env env_name
      then_guard guard_production_safety env env_name

-- The live variables that `main` falls back to: those that some file requires.
abbrev pub live_keys : Env → Env
live_keys [] = []
live_keys ((key, value) ∷ env) = elim (member key (app_keys ++ test_keys ++ docker_keys)) [
  | true ↦ (key, value) ∷ live_keys env
  | false ↦ live_keys env
]
