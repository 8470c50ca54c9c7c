-- ===== src/Tools/Smoke.antt =====
-- scripts/smoke_app.py: which .env file it loads, and how it judges the answer of /health. Text is a list
-- of code points; paths are names below the repository.
use nimbus_commerce_platform.Common.{
  ℕ, Bool, Option, none, some, List, [], ◌∷◌, ◌++◌, ◌==◌, if◌then◌else◌,
}
use nimbus_commerce_platform.Common.Text.{codes}

-- The answer of /health, with the fields of its body that are printed.
pub record Answer : Type 0 where
  pub status_code : ℕ
  pub text : List ℕ
  pub app : List ℕ
  pub version : List ℕ
  pub environment : List ℕ

-- `os.getenv("ENVIRONMENT", "development")`
abbrev environment_or : Option (List ℕ) → List ℕ
environment_or none = codes "development"
environment_or (some environment) = environment

abbrev candidates : Option (List ℕ) → List (List ℕ)
candidates environment = (codes ".env." ++ environment_or environment) ∷ codes ".env" ∷ []

abbrev first_existing : (List ℕ → Bool) → List (List ℕ) → Option (List ℕ)
first_existing exists [] = none
first_existing exists (path ∷ paths) =
    let rest = first_existing exists paths in if exists path then some path else rest

-- `_load_dotenv`: the file that is loaded, where python-dotenv is installed.
unfoldable pub load_dotenv : Bool → (List ℕ → Bool) → Option (List ℕ) → Option (List ℕ)
load_dotenv installed exists environment =
    if installed then first_existing exists (candidates environment) else none

-- `main`: the status with which the script ends, and the lines that it prints; `decimal` is `str` of
-- a number.
unfoldable pub smoke : (ℕ → List ℕ) → Answer → ℕ × List (List ℕ)
smoke decimal a =
    if a.status_code == 200
    then (
      0,
      codes "OK: /health returned 200"
          ∷ (codes "  app         = " ++ a.app)
          ∷ (codes "  version     = " ++ a.version)
          ∷ (codes "  environment = " ++ a.environment)
          ∷ [],
    )
    else (1, (codes "FAIL: /health returned " ++ decimal a.status_code) ∷ a.text ∷ [])
