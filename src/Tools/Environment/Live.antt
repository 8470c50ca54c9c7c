-- ===== src/Tools/Environment/Live.antt =====
-- What scripts/check_env.py sees of the live variables where it finds no file.
use nimbus_commerce_platform.Common.{
  ℕ, ◌≡◌, refl, sym, ap, ◌∙◌, Bool, true, false, none, some, List, [], ◌∷◌, ◌++◌, arith, Bool-cases,
  inl, inr,
}
use nimbus_commerce_platform.Common.Text.{codes, member, same_text, same_text_sound}
use nimbus_commerce_platform.Errors.{ok}
use nimbus_commerce_platform.Tools.EnvFile.{Env, put, app_keys, test_keys, docker_keys}
use nimbus_commerce_platform.Tools.EnvFile.Agreement.{get-put}
use nimbus_commerce_platform.Tools.Guards.{live_keys, guards, Verdict, passes, exits}
use nimbus_commerce_platform.Tools.Environment.{
  Arguments, Surroundings, Loaded, parse_file, first_file, load_active_env, env_name_of, load,
  check_loaded, main, after_guards, report_urls, scrub,
}

abbrev pub required : List (List ℕ)
required = app_keys ++ test_keys ++ docker_keys

-- The filter by a test of the keys drops a variable that fails it.
abbrev filter_keys : (List ℕ → Bool) → Env → Env
filter_keys test [] = []
filter_keys test ((key, value) ∷ env) = elim (test key) [
  | true ↦ (key, value) ∷ filter_keys test env
  | false ↦ filter_keys test env
]

filter_keys-put :
    (test : List ℕ → Bool) (key value : List ℕ) (env : Env)
    → test key ≡ false
    → filter_keys test (put key value env) ≡ filter_keys test env
filter_keys-put test key value [] h = ground arith
filter_keys-put test key value ((k, v) ∷ env) h = elim (Bool-cases (same_text k key)) [
  | inl same ↦ ground (arith, ap test (same_text_sound k key same))
  | inr other ↦ ground (arith, filter_keys-put test key value env)
]

live_keys-filter_keys : (env : Env) → live_keys env ≡ filter_keys (λ key. member key required) env
live_keys-filter_keys [] = refl
live_keys-filter_keys ((key, value) ∷ env) =
    ap (λ rest. elim (member key required) [ true ↦ (key, value) ∷ rest | false ↦ rest ])
      (live_keys-filter_keys env)

live_keys-put :
    (key value : List ℕ) (env : Env)
    → member key required ≡ false
    → live_keys (put key value env) ≡ live_keys env
live_keys-put key value env h =
    live_keys-filter_keys (put key value env)
    ∙ filter_keys-put (λ key. member key required) key value env h
    ∙ sym (live_keys-filter_keys env)

true_ne_false : ◌≡◌ {A = Bool} true false → ⊥
true_ne_false h = cc

not_environment :
    (key : List ℕ) → member key required ≡ false → same_text key (codes "ENVIRONMENT") ≡ false
not_environment key h = elim (Bool-cases (same_text key (codes "ENVIRONMENT"))) [
  | inr other ↦ other
  | inl same ↦
      let e = ap (λ k. member k required) (same_text_sound key (codes "ENVIRONMENT") same) in
      absurd (true_ne_false (sym e ∙ h))
]

module _ (x : Surroundings) (args : Arguments) where
  -- The variables that are checked where there is no file.
  abbrev live : Loaded
  live = record { source_file = none; env_vars = live_keys x.environ }

  load-none :
      args.file ≡ none
      → x.files (codes ".env." ++ env_name_of x args) ≡ none
      → x.files (codes ".env") ≡ none
      → load x args ≡ ok (some live)
  unfolding load load_active_env first_file parse_file
  load-none no_file no_candidate no_env = ground arith

  main-live :
      args.file ≡ none
      → x.files (codes ".env." ++ env_name_of x args) ≡ none
      → x.files (codes ".env") ≡ none
      → main x args ≡ check_loaded x (env_name_of x args) args.strict live
  unfolding main
  main-live no_file no_candidate no_env = rw (main, load-none no_file no_candidate no_env) refl

module _ (x : Surroundings) (args : Arguments) (key value : List ℕ) where
  -- The same surroundings with one live variable more, or with another value of it.
  abbrev pub with_live : Surroundings
  with_live = record x { environ = put key value x.environ }

  env_name_of-with_live :
      member key required ≡ false → env_name_of with_live args ≡ env_name_of x args
  env_name_of-with_live h =
      ground (arith, get-put key value (codes "ENVIRONMENT") x.environ, not_environment key h)

  after_guards-with_live :
      (env_name : List ℕ) (env : Env) (verdict : Verdict)
      → after_guards with_live env_name false env verdict
        ≡ after_guards x env_name false env verdict
  unfolding after_guards report_urls scrub
  after_guards-with_live env_name env passes = refl
  after_guards-with_live env_name env (exits code) = refl

  check_loaded-with_live :
      (env_name : List ℕ) (loaded : Loaded)
      → check_loaded with_live env_name false loaded ≡ check_loaded x env_name false loaded
  unfolding check_loaded
  check_loaded-with_live env_name loaded =
      after_guards-with_live env_name loaded.env_vars
        (guards x.functions loaded.env_vars loaded.source_file env_name)

  -- Where scripts/check_env.py is given no file and finds none, and strict mode is off, a live
  -- variable that no file requires makes no difference to how it ends, whatever its value: DEBUG and
  -- LOG_LEVEL are such variables, also in production.
  pub main-with_live :
      args.file ≡ none
      → args.strict ≡ false
      → x.files (codes ".env." ++ env_name_of x args) ≡ none
      → x.files (codes ".env") ≡ none
      → member key required ≡ false
      → main with_live args ≡ main x args
  unfolding main
  main-with_live no_file fast no_candidate no_env h =
      let name = env_name_of-with_live h in
      main-live with_live args no_file (rw name no_candidate) no_env
      ∙ (λ i.
          check_loaded with_live (name i) (fast i)
            (record { source_file = none; env_vars = live_keys-put key value x.environ h i }))
      ∙ check_loaded-with_live (env_name_of x args) (live x args)
      ∙ (λ i. check_loaded x (env_name_of x args) (sym fast i) (live x args))
      ∙ sym (main-live x args no_file no_candidate no_env)
