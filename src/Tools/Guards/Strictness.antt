-- ===== src/Tools/Guards/Strictness.antt =====
-- The guards of scripts/check_env.py beside the one of src/core/config.py.
use nimbus_commerce_platform.Common.{
  ℕ, append-[], ◌≡◌, refl, ◌∙◌, if◌then◌else◌, Bool, true, false, not, Option, some, List, [], ◌∷◌,
  ◌++◌, arith, Option-cases, inl, inr,
}
use nimbus_commerce_platform.Common.Text.{codes, all, contains}
use nimbus_commerce_platform.Errors.{is_ok}
use nimbus_commerce_platform.Configuration.{
  test, prod_host_substrings, host_of, assert_test_isolation,
}
use nimbus_commerce_platform.Configuration.Isolation.{is_safe_host, assert_test_isolation_iff}
use nimbus_commerce_platform.Tools.EnvFile.{Env, is_empty}
use nimbus_commerce_platform.Tools.Guards.{
  Parsed, Functions, Violation, report, get_or, prod_host_forbidden_substrings, host_violations,
  Verdict, passes, exits, database_violations, redis_violations, url_violations, is_set,
  test_violations, guard_test_isolation, guard_production_safety, is_debug, is_weak_secret,
  is_placeholder, guards, production_checks, is_production_like, guard_required_keys, is_untested,
  is_default_db, name_without_test, redis_default_db, ◌then_guard◌, fail_if, verdict_of,
  variable_violations, unset, production_variable,
}

host_violations-[] :
    (host : List ℕ)
    → host_violations host prod_host_forbidden_substrings ≡ []
    → all (λ s. not (contains s host)) prod_host_substrings ≡ true
host_violations-[] host h = ground arith

verdict_of-passes : (vs : List Violation) → verdict_of vs ≡ passes → vs ≡ []
verdict_of-passes [] h = refl
verdict_of-passes (v ∷ vs) h = absurd (ground arith)

pub then_guard-passes : (v w : Verdict) → v then_guard w ≡ passes → (v ≡ passes) × (w ≡ passes)
then_guard-passes passes w h = (refl, h)
then_guard-passes (exits code) w h = absurd (ground arith)

fail_if-passes : (b : Bool) → fail_if b ≡ passes → b ≡ false
fail_if-passes true h = absurd (ground arith)
fail_if-passes false h = refl

if_not-passes :
    (b : Bool) (w : Verdict) → b ≡ true → (if not b then passes else w) ≡ passes → w ≡ passes
if_not-passes true w e h = h
if_not-passes false w e h = absurd (ground arith)

report-[] : (b : Bool) (v : Violation) → report b v ≡ [] → b ≡ false
report-[] true v h = absurd (ground arith)
report-[] false v h = refl

negate_twice : (b : Bool) → not (not b) ≡ false → b ≡ false
negate_twice true h = h
negate_twice false h = refl

module _ (f : Functions) where
  variable_violations-[] :
      (env : Env)
      → variable_violations f env ≡ []
      → (is_empty (get_or [] (codes "TEST_DATABASE_URL") env) ≡ false)
        × (is_empty (get_or [] (codes "TEST_REDIS_URL") env) ≡ false)
  variable_violations-[] env h =
      let no_redis = report (not (is_set f (codes "TEST_REDIS_URL") env)) unset in
      let no_database = report (not (is_set f (codes "TEST_DATABASE_URL") env)) unset in
      let production =
        report (is_set f (codes "DATABASE_URL") env) production_variable
        ++ report (is_set f (codes "REDIS_URL") env) production_variable
        ++ report (is_set f (codes "KAFKA_BOOTSTRAP_SERVERS") env) production_variable in
      let (h1, redis) = append-[] (production ++ no_database) no_redis h in
      let (h2, database) = append-[] production no_database h1 in
      (negate_twice _ (report-[] _ unset database), negate_twice _ (report-[] _ unset redis))

  url_violations-[] :
      (others : Parsed → List Violation) (url : List ℕ)
      → is_empty url ≡ false
      → url_violations f others url ≡ []
      → (p : Parsed) × (f.urlparse url ≡ some p)
        × (is_safe_host f.lower p.url ≡ true)
        × (others p ≡ [])
  unfolding url_violations
  url_violations-[] others [] n h = absurd (ground arith)
  url_violations-[] others (c ∷ url) n h = elim (Option-cases (f.urlparse (c ∷ url))) [
    | inl q ↦ absurd (ground arith)
    | inr (p, q) ↦
        let (safe, rest) =
          append-[] (host_violations (host_of f.lower p.url) prod_host_forbidden_substrings)
            (others p) (ground arith) in
        (p, q, host_violations-[] (host_of f.lower p.url) safe, rest)
  ]

  settings_accept :
      (d r : Parsed)
      → is_safe_host f.lower d.url ≡ true
      → is_safe_host f.lower r.url ≡ true
      → database_violations f d ≡ []
      → redis_violations f r ≡ []
      → is_ok (assert_test_isolation f.lower test d.url r.url) ≡ true
  settings_accept d r sd sr vd vr =
      let (name, scheme) = append-[] (report (is_untested f d) name_without_test) _ vd in
      let (db, scheme') = append-[] (report (is_default_db r) redis_default_db) _ vr in
      let untested = report-[] (is_untested f d) name_without_test name in
      let default = report-[] (is_default_db r) redis_default_db db in
      assert_test_isolation_iff f.lower test d.url r.url ∙ ground (arith, sd, sr, untested, default)

  -- The parts of what `guard_test_isolation` collects.
  abbrev database_part : Env → List Violation
  database_part env =
      url_violations f (database_violations f) (get_or [] (codes "TEST_DATABASE_URL") env)

  abbrev redis_part : Env → List Violation
  redis_part env = url_violations f (redis_violations f) (get_or [] (codes "TEST_REDIS_URL") env)

  guard_test_isolation-passes :
      (env : Env) → guard_test_isolation f env (codes "test") ≡ passes → test_violations f env ≡ []
  unfolding guard_test_isolation
  guard_test_isolation-passes env h = verdict_of-passes (test_violations f env) h

  test_violations-[] :
      (env : Env)
      → test_violations f env ≡ []
      → (is_empty (get_or [] (codes "TEST_DATABASE_URL") env) ≡ false)
        × (is_empty (get_or [] (codes "TEST_REDIS_URL") env) ≡ false)
        × (database_part env ≡ [])
        × (redis_part env ≡ [])
  unfolding test_violations
  test_violations-[] env h =
      let (h1, redis) =
        append-[] (variable_violations f env ++ database_part env) (redis_part env) h in
      let (h2, database) = append-[] (variable_violations f env) (database_part env) h1 in
      let (d, r) = variable_violations-[] env h2 in (d, r, database, redis)

  -- An environment of tests that the guard of the script lets through is let through by the guard
  -- of the settings too: its two URLs parse, and the settings made of them are accepted.
  pub guard_test_isolation_strict :
      (env : Env)
      → guard_test_isolation f env (codes "test") ≡ passes
      → (d r : Parsed) × (f.urlparse (get_or [] (codes "TEST_DATABASE_URL") env) ≡ some d)
        × (f.urlparse (get_or [] (codes "TEST_REDIS_URL") env) ≡ some r)
        × (is_ok (assert_test_isolation f.lower test d.url r.url) ≡ true)
  guard_test_isolation_strict env h =
      let (nd, nr, hd, hr) = test_violations-[] env (guard_test_isolation-passes env h) in
      let (d, qd, safe_d, vd) =
        url_violations-[] (database_violations f) (get_or [] (codes "TEST_DATABASE_URL") env) nd
          hd in
      let (r, qr, safe_r, vr) =
        url_violations-[] (redis_violations f) (get_or [] (codes "TEST_REDIS_URL") env) nr hr in
      (d, r, qd, qr, settings_accept d r safe_d safe_r vd vr)

  -- An environment of production or staging that the guards let through has a real secret, no debug
  -- mode, and no placeholder in the URLs of the database and of Redis.
  pub guards_production :
      (env : Env) (source_file : Option (List ℕ)) (env_name : List ℕ)
      → is_production_like env_name ≡ true
      → guards f env source_file env_name ≡ passes
      → (is_weak_secret f (get_or [] (codes "SECRET_KEY") env) ≡ false)
        × (is_debug f env ≡ false)
        × (is_placeholder f (get_or [] (codes "DATABASE_URL") env) ≡ false)
        × (is_placeholder f (get_or [] (codes "REDIS_URL") env) ≡ false)
  unfolding guards
  guards_production env source_file env_name n h =
      let (others, v) =
        then_guard-passes
          (guard_required_keys env source_file then_guard guard_test_isolation f env env_name)
          (guard_production_safety f env env_name) h in
      let checked = if_not-passes (is_production_like env_name) (production_checks f env) n v in
      let (h1, secret) =
        then_guard-passes _ (fail_if (is_weak_secret f (get_or [] (codes "SECRET_KEY") env)))
          checked in
      let (h2, redis) =
        then_guard-passes _ (fail_if (is_placeholder f (get_or [] (codes "REDIS_URL") env))) h1 in
      let (h3, database) =
        then_guard-passes _ (fail_if (is_placeholder f (get_or [] (codes "DATABASE_URL") env)))
          h2 in
      let (debug, level) = then_guard-passes (fail_if (is_debug f env)) _ h3 in
      (
        fail_if-passes _ secret,
        fail_if-passes _ debug,
        fail_if-passes _ database,
        fail_if-passes _ redis,
      )
