-- ===== src/Tools/Environment.antt =====
-- `main` of scripts/check_env.py: which environment it checks, the file or the live variables that it
-- loads, the guards, strict mode and the report. Text is a list of code points; files are given by
-- the lines that they hold.
pub mod Live
pub mod Report
use nimbus_commerce_platform.Common.{
  ℕ, Bool, true, false, not, ◌||◌, Option, none, some, List, [], ◌∷◌, ◌++◌, ◌==◌, if◌then◌else◌,
}
use nimbus_commerce_platform.Common.Text.{codes, same_text}
use nimbus_commerce_platform.Errors.{Exn, Result, ok, err, ◌>>=◌, ◌>>◌, value_error, is_exception}
use nimbus_commerce_platform.Tools.EnvFile.{Env, get, put, is_empty, script_lines}
use nimbus_commerce_platform.Tools.Guards.{
  Functions, get_or, Verdict, passes, exits, guards, live_keys,
}

-- The path of `--file`: its name, the lines of the file if it exists, and whether the path is an
-- absolute one below the root of the repository.
pub record FileArgument : Type 0 where
  pub name : List ℕ
  pub lines : Option (List (List ℕ))
  pub in_repository : Bool

pub record Arguments : Type 0 where
  pub mode : List ℕ
  pub strict : Bool
  pub file : Option FileArgument

-- What the report reads of a URL; `port` raises where the port is no number.
pub record UrlParts : Type 0 where
  pub scheme : List ℕ
  pub username : List ℕ
  pub password : List ℕ
  pub hostname : List ℕ
  pub port : Result (Option ℕ)
  pub path : List ℕ

-- What the program meets: the files at the root of the repository, the live variables, `urlparse` and
-- `str` of a number, the import of the settings and their construction from the live variables.
pub record Surroundings : Type 0 where
  pub functions : Functions
  pub is_space : ℕ → Bool
  pub files : List ℕ → Option (List (List ℕ))
  pub environ : Env
  pub urlparse : List ℕ → Result UrlParts
  pub str_int : ℕ → List ℕ
  pub imported : Result (Unit {0})
  pub settings : Env → Result (Unit {0})

-- The name of the file with the variables, if it is one, and the variables.
pub record Loaded : Type 0 where
  pub source_file : Option (List ℕ)
  pub env_vars : Env

module _ (is_space : ℕ → Bool) (files : List ℕ → Option (List (List ℕ))) where
  unfoldable pub parse_file : List ℕ → Option Loaded
  unfolding script_lines
  parse_file name = elim (files name) [
    | none ↦ none
    | some lines ↦
        some (record { source_file = some name; env_vars = script_lines is_space lines [] })
  ]

  unfoldable pub first_file : List (List ℕ) → Option Loaded
  unfolding parse_file
  first_file [] = none
  first_file (name ∷ names) = elim (parse_file name) [
    | some loaded ↦ some loaded
    | none ↦ first_file names
  ]

  -- `load_active_env`, with its fallback, which its last candidate anticipates.
  unfoldable pub load_active_env : List ℕ → Option Loaded
  unfolding first_file
  load_active_env env = elim (first_file ((codes ".env." ++ env) ∷ codes ".env" ∷ [])) [
    | some loaded ↦ some loaded
    | none ↦ parse_file (codes ".env")
  ]

-- `os.environ.setdefault`, for each variable of the file.
unfoldable pub set_defaults : Env → Env → Env
set_defaults [] live = live
set_defaults ((key, value) ∷ env) live =
    set_defaults env (elim (get key live) [ none ↦ put key value live | some _ ↦ live ])

-- A text that is empty counts as none.
abbrev pub or_else : List ℕ → List ℕ → List ℕ
or_else [] other = other
or_else (c ∷ text) other = c ∷ text

abbrev pub port_text : (ℕ → List ℕ) → Option ℕ → List ℕ
port_text str_int none = []
port_text str_int (some port) = if port == 0 then [] else b':' ∷ str_int port

module _ (x : Surroundings) where
  -- `_scrub`
  unfoldable pub scrub : List ℕ → Result (List ℕ)
  scrub [] = ok (codes "<unset>")
  scrub (c ∷ url) = x.urlparse (c ∷ url) >>= λ p.
      if not (is_empty p.username) || not (is_empty p.password)
      then (p.port >>= λ port.
          ok
            (p.scheme ++ (codes "://***@" ++ (p.hostname ++ (port_text x.str_int port ++ p.path)))))
      else ok (c ∷ url)

  -- The lines of the report that may raise.
  unfoldable pub report_urls : Env → Result (Unit {0})
  unfolding scrub
  report_urls env =
      scrub
        (or_else (get_or [] (codes "TEST_DATABASE_URL") env) (get_or [] (codes "DATABASE_URL") env))
      >>= λ _.
          scrub
            (or_else (get_or [] (codes "TEST_REDIS_URL") env) (get_or [] (codes "REDIS_URL") env))
          >>= λ _. ok tt

  -- `run_strict_mode`
  unfoldable pub run_strict_mode : Env → List ℕ → Result Verdict
  unfolding set_defaults
  run_strict_mode env_vars env_name = elim x.imported [
    | err e ↦ if is_exception e then ok (exits 1) else err e
    | ok _ ↦
        elim (x.settings (put (codes "ENVIRONMENT") env_name (set_defaults env_vars x.environ))) [
          | ok _ ↦ ok passes
          | err value_error ↦ ok (exits 1)
          | err e ↦ err e
        ]
  ]

  abbrev pub env_name_of : Arguments → List ℕ
  env_name_of args =
      if same_text args.mode (codes "auto")
      then get_or (codes "development") (codes "ENVIRONMENT") x.environ
      else args.mode

  -- The live variables, where no file was found.
  abbrev pub or_live : Option Loaded → Loaded
  or_live (some loaded) = loaded
  or_live none = record { source_file = none; env_vars = live_keys x.environ }

  -- The variables that `main` checks, or how it ends before it has any: `relative_to` raises for a path
  -- that is not below the root.
  unfoldable pub load : Arguments → Result (Option Loaded)
  unfolding load_active_env
  load args = elim args.file [
    | none ↦ ok (some (or_live (load_active_env x.is_space x.files (env_name_of args))))
    | some file ↦ elim file.lines [
      | none ↦ ok none
      | some lines ↦
          if file.in_repository
          then ok (
              some (record {
                source_file = some file.name;
                env_vars = script_lines x.is_space lines [];
              }))
          else err value_error
    ]
  ]

  -- The report, after strict mode.
  unfoldable pub report_after : Env → Verdict → Result Verdict
  report_after env (exits code) = ok (exits code)
  report_after env passes = report_urls env >>= λ _. ok passes

  -- Strict mode and the report, after the guards.
  unfoldable pub after_guards : List ℕ → Bool → Env → Verdict → Result Verdict
  unfolding report_after
  after_guards env_name strict env (exits code) = ok (exits code)
  after_guards env_name strict env passes =
      (if strict then run_strict_mode env env_name else ok passes) >>= report_after env

  -- What `main` does with the variables.
  unfoldable pub check_loaded : List ℕ → Bool → Loaded → Result Verdict
  unfolding after_guards
  check_loaded env_name strict loaded =
      after_guards env_name strict loaded.env_vars
        (guards x.functions loaded.env_vars loaded.source_file env_name)

  -- `main`
  unfoldable pub main : Arguments → Result Verdict
  unfolding load check_loaded
  main args = elim (load args) [
    | err e ↦ err e
    | ok none ↦ ok (exits 3)
    | ok (some loaded) ↦ check_loaded (env_name_of args) args.strict loaded
  ]
