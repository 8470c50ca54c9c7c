-- ===== src/Tools/Secrets/Verdicts.antt =====
-- What .pre-commit-hooks/check-nimbus-env/hooks.py lets through.
use nimbus_commerce_platform.Common.{
  ℕ, ◌≡◌, ◌⊎◌, refl, sym, ap, ◌∙◌, Bool, true, false, ◌||◌, Option, none, some, List, [], ◌∷◌, ◌++◌,
  arith, All, Bool-cases, Option-cases, inl, inr, append-[],
}
use nimbus_commerce_platform.Common.Text.{codes, split_on}
use nimbus_commerce_platform.Tools.EnvFile.{hook_audit}
use nimbus_commerce_platform.Tools.Secrets.{
  starts_with_any, search_lines, search_text, is_populated, is_credentials_at, is_aws_key_at,
  private_keys, secret_placeholders, database_placeholders, redis_placeholders, FileState, holds,
  Problem, block_populated, env_files, report_missing, audit_file, audit_files, exit_status,
  hook_main,
}
use nimbus_commerce_platform.Tools.Secrets.Placeholders.{IsPlaceheld, search_lines-IsPlaceheld}

or_false : (a b : Bool) → a || b ≡ false → (a ≡ false) × (b ≡ false)
or_false true b h = absurd (ground arith)
or_false false b h = (refl, h)

-- Every line that gives a value to one of the five variables gives it one that begins with a
-- placeholder.
pub record IsClean (text : List ℕ) : Type 0 where
  pub secret : All (IsPlaceheld (codes "SECRET_KEY=") secret_placeholders) (split_on b'\n' text)
  pub database :
      All
        (IsPlaceheld (codes "DATABASE_URL=postgresql+asyncpg://") database_placeholders)
        (split_on b'\n' text)
  pub test_database :
      All
        (IsPlaceheld (codes "TEST_DATABASE_URL=postgresql+asyncpg://") database_placeholders)
        (split_on b'\n' text)
  pub redis :
      All (IsPlaceheld (codes "REDIS_URL=redis://") redis_placeholders) (split_on b'\n' text)
  pub test_redis :
      All (IsPlaceheld (codes "TEST_REDIS_URL=redis://") redis_placeholders) (split_on b'\n' text)

is_populated-IsClean : (text : List ℕ) → is_populated text ≡ false → IsClean text
unfolding is_populated
is_populated-IsClean text h =
    let (h1, _) = or_false _ (search_text (starts_with_any private_keys) text) h in
    let (h2, _) = or_false _ (search_text is_aws_key_at text) h1 in
    let (h3, _) = or_false _ (search_text is_credentials_at text) h2 in
    let (h4, test_redis) =
      or_false _ (search_lines (codes "TEST_REDIS_URL=redis://") redis_placeholders true text) h3 in
    let (h5, redis) =
      or_false _ (search_lines (codes "REDIS_URL=redis://") redis_placeholders true text) h4 in
    let (h6, test_database) =
      or_false _
        (search_lines (codes "TEST_DATABASE_URL=postgresql+asyncpg://") database_placeholders true
          text)
        h5 in
    let (secret, database) =
      or_false (search_lines (codes "SECRET_KEY=") secret_placeholders true text) _ h6 in
    record {
      secret =
          search_lines-IsPlaceheld (codes "SECRET_KEY=") secret_placeholders refl refl refl text
            secret;
      database =
          search_lines-IsPlaceheld (codes "DATABASE_URL=postgresql+asyncpg://")
            database_placeholders refl refl refl text database;
      test_database =
          search_lines-IsPlaceheld (codes "TEST_DATABASE_URL=postgresql+asyncpg://")
            database_placeholders refl refl refl text test_database;
      redis =
          search_lines-IsPlaceheld (codes "REDIS_URL=redis://") redis_placeholders refl refl refl
            text redis;
      test_redis =
          search_lines-IsPlaceheld (codes "TEST_REDIS_URL=redis://") redis_placeholders refl refl
            refl text test_redis;
    }

block_populated-[] :
    (name text : List ℕ) → block_populated name (holds text) ≡ [] → is_populated text ≡ false
unfolding block_populated
block_populated-[] name text h = elim (Bool-cases (is_populated text)) [
  | inl found ↦ absurd (ground arith)
  | inr clean ↦ clean
]

exit_status-zero : (problems : List Problem) → exit_status problems ≡ 0 → problems ≡ []
exit_status-zero [] h = refl
exit_status-zero (problem ∷ problems) h = absurd (ground arith)

report_missing-[] :
    (name : List ℕ) (keys : List (List ℕ)) → report_missing name keys ≡ [] → keys ≡ []
report_missing-[] name [] h = refl
report_missing-[] name (key ∷ keys) h = absurd (ground arith)

joined-[] :
    (m n : Option (List Problem))
    → elim m [
      | none ↦ none
      | some problems ↦ elim n [ none ↦ none | some others ↦ some (problems ++ others) ]
    ]
      ≡ some []
    → (m ≡ some []) × (n ≡ some [])
joined-[] none n h = absurd (ground arith)
joined-[] (some problems) none h = absurd (ground arith)
joined-[] (some problems) (some others) h =
    let (p, o) = append-[] problems others (ground arith) in (ap some p, ap some o)

module _ (is_space : ℕ → Bool) (splitlines : List ℕ → List (List ℕ))
    (files : List ℕ → FileState) where
  audit_file-[] :
      (name text : List ℕ)
      → audit_file is_space splitlines files name (holds text) ≡ some []
      → hook_audit is_space name (splitlines text) ≡ []
  unfolding audit_file
  audit_file-[] name text h =
      report_missing-[] name (hook_audit is_space name (splitlines text)) (ground arith)

  audit_files-[] :
      (names : List (List ℕ))
      → audit_files is_space splitlines files names ≡ some []
      → All (λ name. audit_file is_space splitlines files name (files name) ≡ some []) names
  unfolding audit_files
  audit_files-[] [] h = tt
  audit_files-[] (name ∷ names) h =
      let (first, others) =
        joined-[] (audit_file is_space splitlines files name (files name))
          (audit_files is_space splitlines files names) h in
      (first, audit_files-[] names others)

  hook_main-zero :
      hook_main is_space splitlines files ≡ some 0
      → (block_populated (codes ".env") (files (codes ".env")) ≡ [])
        × (block_populated (codes ".env.test") (files (codes ".env.test")) ≡ [])
        × (audit_files is_space splitlines files env_files ≡ some [])
  unfolding hook_main
  hook_main-zero h = elim (Option-cases (audit_files is_space splitlines files env_files)) [
    | inl none_read ↦ absurd (ground arith)
    | inr (missing, audited) ↦
        let first = block_populated (codes ".env") (files (codes ".env")) in
        let second = block_populated (codes ".env.test") (files (codes ".env.test")) in
        let (p, rest) = append-[] first (second ++ missing) (exit_status-zero _ (ground arith)) in
        let (q, m) = append-[] second missing rest in (p, q, audited ∙ ap some m)
  ]

  accepted_file :
      (name text : List ℕ)
      → files name ≡ holds text
      → block_populated name (files name) ≡ []
      → audit_file is_space splitlines files name (files name) ≡ some []
      → IsClean text × (hook_audit is_space name (splitlines text) ≡ [])
  accepted_file name text here clean complete = (
    is_populated-IsClean text
        (block_populated-[] name text (sym (ap (block_populated name) here) ∙ clean)),
    audit_file-[] name text (sym (ap (audit_file is_space splitlines files name) here) ∙ complete),
  )

  -- Where the hook exits with 0, each of the files .env and .env.test that is there and can be read
  -- is clean, that is, each of its lines that begins with SECRET_KEY= or with the assignment of one of
  -- the four URLs, their schemes included, goes on with a placeholder; and it lacks none of the keys
  -- that are required of it.
  pub hook_main_accepts :
      (name text : List ℕ)
      → (name ≡ codes ".env") ⊎ (name ≡ codes ".env.test")
      → files name ≡ holds text
      → hook_main is_space splitlines files ≡ some 0
      → IsClean text × (hook_audit is_space name (splitlines text) ≡ [])
  hook_main_accepts name text which here passed =
      let (env, env_test, audited) = hook_main-zero passed in
      let (a, (b, _)) = audit_files-[] env_files audited in
      elim which [
        | inl e ↦ accepted_file name text here (rw e env) (rw e a)
        | inr e ↦ accepted_file name text here (rw e env_test) (rw e b)
      ]
