-- ===== src/Breaker/Invariant.antt =====
-- What holds of a breaker between any two steps of any number of concurrent calls.
use nimbus_commerce_platform.Common.{ℕ, ◌≤◌, ◌<◌, ◌≡◌, ◌≢◌, List, [], ◌∷◌, none, arith}
use nimbus_commerce_platform.Common.Int.{ℤ}
use nimbus_commerce_platform.Errors.{ok}
use nimbus_commerce_platform.Breaker.{
  Breaker, closed, new, maybe_transition_to_half_open, record_failure, record_success, reset,
}

-- A closed breaker has seen fewer failures in a row than it takes to open it; one that is not
-- closed has seen at least as many, and knows when it was opened.
pub record IsValid (b : Breaker) : Type 0 where
  pub positive : 0 < b.fail_max
  pub below : b.state ≡ closed → b.failure_count < b.fail_max
  pub reached : b.state ≢ closed → b.fail_max ≤ b.failure_count
  pub opened : b.state ≢ closed → b.opened_at ≢ none
  pub never_opened : b.state ≡ closed → b.opened_at ≡ none

-- The atomic steps of the breaker's methods; `admits` is the first half of `call`.
pub data Step : Type 0 where
  admits fails : ℕ → Step
  succeeds resets : Step

abbrev pub step : Step → Breaker → Breaker
step (admits now) b = maybe_transition_to_half_open now b
step (fails now) b = record_failure now b
step succeeds b = record_success b
step resets b = reset b

abbrev pub run : List Step → Breaker → Breaker
run [] b = b
run (e ∷ es) b = run es (step e b)

pub step-IsValid : (e : Step) (b : Breaker) → IsValid b → IsValid (step e b)
unfolding maybe_transition_to_half_open record_failure record_success reset
step-IsValid (admits now) b v = ground arith
step-IsValid (fails now) b v = ground arith
step-IsValid succeeds b v = ground arith
step-IsValid resets b v = ground arith

run-IsValid : (es : List Step) (b : Breaker) → IsValid b → IsValid (run es b)
run-IsValid [] b v = v
run-IsValid (e ∷ es) b v = run-IsValid es (step e b) (step-IsValid e b v)

pub new-IsValid :
    (fail_max reset_timeout : ℤ) (b : Breaker) → new fail_max reset_timeout ≡ ok b → IsValid b
unfolding new
new-IsValid fail_max reset_timeout b h = ground arith

-- Every breaker that the constructor returns satisfies the invariant after any interleaving of the
-- steps of any calls.
pub run-new-IsValid :
    (fail_max reset_timeout : ℤ) (b : Breaker) (es : List Step)
    → new fail_max reset_timeout ≡ ok b
    → IsValid (run es b)
run-new-IsValid fail_max reset_timeout b es h =
    run-IsValid es b (new-IsValid fail_max reset_timeout b h)
