-- ===== src/Tools/Environment/Report.antt =====
-- What an environment that scripts/check_env.py accepts has come through, and what its report shows.
use nimbus_commerce_platform.Common.{
  ℕ, ◌≡◌, refl, sym, ◌∙◌, Bool, true, false, ◌||◌, not, Option, none, some, List, [], ◌∷◌, arith,
  inl, inr,
}
use nimbus_commerce_platform.Common.Text.{codes}
use nimbus_commerce_platform.Errors.{Result, ok, err, Result-cases, value_error, is_ok}
use nimbus_commerce_platform.Configuration.{test, assert_test_isolation}
use nimbus_commerce_platform.Tools.EnvFile.{Env, is_empty}
use nimbus_commerce_platform.Tools.Guards.{
  Parsed, Verdict, passes, exits, guards, guard_test_isolation, get_or, guard_required_keys,
  guard_production_safety, ◌then_guard◌,
}
use nimbus_commerce_platform.Tools.Guards.Strictness.{
  guard_test_isolation_strict, then_guard-passes,
}
use nimbus_commerce_platform.Tools.Environment.{
  FileArgument, Arguments, UrlParts, Surroundings, Loaded, scrub, env_name_of, load, after_guards,
  check_loaded, main,
}

module _ (x : Surroundings) where
  after_guards-passes :
      (name : List ℕ) (strict : Bool) (env : Env) (verdict : Verdict)
      → after_guards x name strict env verdict ≡ ok passes
      → verdict ≡ passes
  unfolding after_guards
  after_guards-passes name strict env passes h = refl
  after_guards-passes name strict env (exits code) h = absurd (ground arith)

  check_loaded-passes :
      (name : List ℕ) (strict : Bool) (loaded : Loaded)
      → check_loaded x name strict loaded ≡ ok passes
      → guards x.functions loaded.env_vars loaded.source_file name ≡ passes
  unfolding check_loaded
  check_loaded-passes name strict loaded h = after_guards-passes name strict loaded.env_vars _ h

  -- How a run goes on from what `load` came to.
  abbrev go_on : List ℕ → Bool → Result (Option Loaded) → Result Verdict
  go_on name strict (err e) = err e
  go_on name strict (ok none) = ok (exits 3)
  go_on name strict (ok (some loaded)) = check_loaded x name strict loaded

  go_on-passes :
      (name : List ℕ) (strict : Bool) (m : Result (Option Loaded))
      → go_on name strict m ≡ ok passes
      → (loaded : Loaded) × (m ≡ ok (some loaded)) × (check_loaded x name strict loaded ≡ ok passes)
  go_on-passes name strict (err e) h = absurd (ground arith)
  go_on-passes name strict (ok none) h = absurd (ground arith)
  go_on-passes name strict (ok (some loaded)) h = (loaded, refl, h)

  main-go_on :
      (args : Arguments) → main x args ≡ go_on (env_name_of x args) args.strict (load x args)
  unfolding main
  main-go_on args = elim (Result-cases (load x args)) [
    | inr (e, h) ↦ rw (main, h) refl
    | inl (some loaded, h) ↦ rw (main, h) refl
    | inl (none, h) ↦ rw (main, h) refl
  ]

  guards-test :
      (env : Env) (source_file : Option (List ℕ)) (name : List ℕ)
      → guards x.functions env source_file name ≡ passes
      → guard_test_isolation x.functions env name ≡ passes
  unfolding guards
  guards-test env source_file name h =
      let (others, production) =
        then_guard-passes
          (guard_required_keys env source_file then_guard guard_test_isolation x.functions env name)
          (guard_production_safety x.functions env name) h in
      (then_guard-passes (guard_required_keys env source_file)
        (guard_test_isolation x.functions env name) others).1

  -- A run of scripts/check_env.py for the environment of tests that passes, in strict mode or not and
  -- from whatever file: the two URLs of the variables that it loaded parse, and the guard of
  -- the settings accepts them.
  pub main_accepts_test :
      (args : Arguments)
      → env_name_of x args ≡ codes "test"
      → main x args ≡ ok passes
      → (loaded : Loaded) × (d : Parsed) × (r : Parsed) × (load x args ≡ ok (some loaded))
        × (x.functions.urlparse (get_or [] (codes "TEST_DATABASE_URL") loaded.env_vars) ≡ some d)
        × (x.functions.urlparse (get_or [] (codes "TEST_REDIS_URL") loaded.env_vars) ≡ some r)
        × (is_ok (assert_test_isolation x.functions.lower test d.url r.url) ≡ true)
  main_accepts_test args name h =
      let (loaded, here, checked) =
        go_on-passes (env_name_of x args) args.strict (load x args) (sym (main-go_on args) ∙ h) in
      let guarded = check_loaded-passes (env_name_of x args) args.strict loaded checked in
      let tested = guards-test loaded.env_vars loaded.source_file (env_name_of x args) guarded in
      let (d, r, qd, qr, accepted) =
        guard_test_isolation_strict x.functions loaded.env_vars (rw (← name) tested) in
      (loaded, d, r, here, qd, qr, accepted)

  -- The report shows the same of two URLs that differ in the user and the password only, where
  -- each has one of them.
  pub scrub_hides :
      (c e : ℕ) (url other : List ℕ) (p : UrlParts) (username password : List ℕ)
      → x.urlparse (c ∷ url) ≡ ok p
      → x.urlparse (e ∷ other) ≡ ok (record p { username = username; password = password })
      → not (is_empty p.username) || not (is_empty p.password) ≡ true
      → not (is_empty username) || not (is_empty password) ≡ true
      → scrub x (c ∷ url) ≡ scrub x (e ∷ other)
  unfolding scrub
  scrub_hides c e url other p username password h h' n n' = rw (scrub, h, h', n, n') refl

  -- A file that is there, but whose path is not an absolute one below the repository, ends the run
  -- with a ValueError, before any guard, whatever is in it.
  pub main_elsewhere :
      (args : Arguments) (file : FileArgument) (lines : List (List ℕ))
      → args.file ≡ some file
      → file.lines ≡ some lines
      → file.in_repository ≡ false
      → main x args ≡ err value_error
  unfolding main load
  main_elsewhere args file lines f l outside = ground arith
