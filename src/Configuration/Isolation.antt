-- ===== src/Configuration/Isolation.antt =====
-- What the guard `assert_test_isolation` of src/core/config.py keeps out.
use nimbus_commerce_platform.Common.{ℕ, ◌≡◌, refl, Bool, not, ◌&&◌, ◌||◌, List, [], ◌∷◌, arith}
use nimbus_commerce_platform.Common.Text.{codes, all, contains, same_text}
use nimbus_commerce_platform.Errors.{is_ok}
use nimbus_commerce_platform.Configuration.{
  Environment, is_test, Url, prod_host_substrings, host_of, path_segment, db_segment, check_host,
  assert_test_isolation,
}

check_host-is_ok :
    (host : List ℕ) (forbidden : List (List ℕ))
    → is_ok (check_host host forbidden) ≡ all (λ f. not (contains f host)) forbidden
unfolding check_host
check_host-is_ok host [] = refl
check_host-is_ok host (f ∷ rest) = ground (arith, check_host-is_ok host rest)

module _ (lower : List ℕ → List ℕ) where
  -- Whether the name of a host has none of the substrings of production hosts in it.
  abbrev pub is_safe_host : Url → Bool
  is_safe_host url = all (λ f. not (contains f (host_of lower url))) prod_host_substrings

  -- What the guard lets through: any other environment, and in a test environment exactly the URLs
  -- whose hosts have no production substring, with "test" in the name of the database and a Redis
  -- database that is not written "0".
  pub assert_test_isolation_iff :
      (environment : Environment) (database redis : Url)
      → is_ok (assert_test_isolation lower environment database redis) ≡ (
          not (is_test environment)
          || (is_safe_host database
              && is_safe_host redis
              && contains (codes "test") (lower (path_segment database))
              && not (same_text (db_segment redis) (codes "0"))))
  unfolding assert_test_isolation
  assert_test_isolation_iff environment database redis =
      let d = check_host-is_ok (host_of lower database) prod_host_substrings in
      let r = check_host-is_ok (host_of lower redis) prod_host_substrings in ground arith
