-- ===== src/Examples/Guards.antt =====
-- Runs of the circuit breaker.
use nimbus_commerce_platform.Common.{ℕ, ◌+◌, ◌≡◌, refl, ◌↔◌, none, [], ◌∷◌}
use nimbus_commerce_platform.Common.Int.{pos, ◌≤ℤ◌}
use nimbus_commerce_platform.Errors.{Result, err, runtime_error}
use nimbus_commerce_platform.Breaker.{Breaker, closed, open_, new}
use nimbus_commerce_platform.Breaker.Invariant.{
  IsValid, admits, fails, succeeds, run, run-new-IsValid,
}
use nimbus_commerce_platform.Breaker.Calls.{calls, new-calls_open}

abbrev fresh_breaker : Breaker
fresh_breaker = record {
  fail_max = 2;
  reset_timeout = 30;
  state = closed;
  failure_count = 0;
  opened_at = none;
}

-- A function that counts its runs and raises.
abbrev breaks : ℕ → Result ℕ × ℕ
breaks n = (err runtime_error, n + 1)

run-new-IsValid_example :
    IsValid (run (fails 1 ∷ fails 2 ∷ admits 40 ∷ succeeds ∷ []) fresh_breaker)
unfolding new
run-new-IsValid_example =
    run-new-IsValid (pos 2) (pos 30) fresh_breaker (fails 1 ∷ fails 2 ∷ admits 40 ∷ succeeds ∷ [])
      refl

new-calls_open_example :
    ((calls ((1, 2) ∷ (3, 4) ∷ []) breaks fresh_breaker 0).0.state ≡ open_) ↔ (pos 2 ≤ℤ pos 2)
unfolding new
new-calls_open_example =
    new-calls_open breaks (λ _. runtime_error) (λ _. refl) (λ _. refl) (pos 2) (pos 30)
      fresh_breaker 0 ((1, 2) ∷ (3, 4) ∷ []) refl
