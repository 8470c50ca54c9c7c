-- ===== src/Breaker.antt =====
-- `AsyncCircuitBreaker` of src/core/cache.py. Times are readings of the monotonic clock, as natural
-- numbers of some small unit. A call is an admission, the wrapped function and a report of how it
-- ended; the asyncio lock makes each of `admit`, `record_failure` and `record_success` atomic.
pub mod Invariant
pub mod Calls
pub mod Clients
use nimbus_commerce_platform.Common.{
  ℕ, ◌+◌, ◌-◌, Bool, true, false, ◌&&◌, ◌||◌, Option, none, some, leb, if◌then◌else◌,
}
use nimbus_commerce_platform.Common.Int.{ℤ, pos, pos_part, leb_ℤ}
use nimbus_commerce_platform.Errors.{
  Exn, Result, ok, err, value_error, cache_unavailable, is_exception,
}

pub data BreakerState : Type 0 where
  closed open_ half_open : BreakerState

pub record Breaker : Type 0 where
  pub fail_max : ℕ
  pub reset_timeout : ℕ
  pub state : BreakerState
  pub failure_count : ℕ
  pub opened_at : Option ℕ

abbrev pub is_open : BreakerState → Bool
is_open open_ = true
is_open _ = false

abbrev pub is_half_open : BreakerState → Bool
is_half_open half_open = true
is_half_open _ = false

-- `__init__`
unfoldable pub new : ℤ → ℤ → Result Breaker
new fail_max reset_timeout =
    if leb_ℤ fail_max (pos 0)
    then err value_error
    else (if leb_ℤ reset_timeout (pos 0)
        then err value_error
        else ok (record {
          fail_max = pos_part fail_max;
          reset_timeout = pos_part reset_timeout;
          state = closed;
          failure_count = 0;
          opened_at = none;
        }))

-- `time.monotonic() - self._opened_at >= self._reset_timeout`, where the breaker has been opened.
abbrev pub has_rested : ℕ → Breaker → Bool
has_rested now b = elim b.opened_at [ none ↦ false | some at ↦ leb b.reset_timeout (now - at) ]

unfoldable pub maybe_transition_to_half_open : ℕ → Breaker → Breaker
maybe_transition_to_half_open now b =
    if is_open b.state && has_rested now b then record b { state = half_open } else b

unfoldable pub record_failure : ℕ → Breaker → Breaker
record_failure now b =
    let failed = record b { failure_count = b.failure_count + 1 } in
    if is_half_open b.state || leb b.fail_max (b.failure_count + 1)
    then record failed { state = open_; opened_at = some now }
    else failed

unfoldable pub record_success : Breaker → Breaker
record_success b = record b { state = closed; failure_count = 0; opened_at = none }

-- `reset` does to the breaker what a success does.
unfoldable pub reset : Breaker → Breaker
reset b = record b { state = closed; failure_count = 0; opened_at = none }

-- How the wrapped function ended, as `call` reports it: a cancellation is not reported.
unfoldable pub report : {A : Type 0} → ℕ → Result A → Breaker → Breaker
unfolding record_failure record_success
report now (ok _) b = record_success b
report now (err e) b = if is_exception e then record_failure now b else b

-- `call`, begun at `now`, of a function that works on a state and has ended at `done`, with no other
-- call in between.
unfoldable pub call :
    {S A : Type 0} → ℕ → ℕ → (S → Result A × S) → Breaker → S → Result A × Breaker × S
unfolding maybe_transition_to_half_open report
call now done func b s =
    let b' = maybe_transition_to_half_open now b in
    if is_open b'.state
    then (err cache_unavailable, b', s)
    else (let (r, s') = func s in (r, report done r b', s'))
