-- ===== src/Breaker/Calls.antt =====
-- Sequences of calls through the breaker of src/core/cache.py: when it opens, what it lets through
-- while it is open, and how it closes again.
use nimbus_commerce_platform.Common.{
  ℕ, ◌+◌, ◌≤◌, ◌<◌, ◌≡◌, refl, ◌⊎◌, inl, inr, ◌↔◌, true, List, [], ◌∷◌, some, arith, length, All,
}
use nimbus_commerce_platform.Common.Int.{ℤ, pos, ◌≤ℤ◌}
use nimbus_commerce_platform.Errors.{Exn, Result, ok, err, cache_unavailable, is_exception}
use nimbus_commerce_platform.Breaker.{Breaker, closed, open_, new, call}

-- One call after another, each with its own times, of the same function.
abbrev pub calls : {S A : Type 0} → List (ℕ × ℕ) → (S → Result A × S) → Breaker → S → Breaker × S
calls [] func b s = (b, s)
calls ((now, done) ∷ ts) func b s = let (_, b', s') = call now done func b s in calls ts func b' s'

module _ {S A : Type 0} (func : S → Result A × S) where
  -- A call on an open breaker that has rested is a trial: the function runs and the caller gets its
  -- result; a success closes the breaker with no failure counted, and an exception other than a
  -- cancellation opens it again from `done` on.
  pub call_trial :
      (now done at : ℕ) (b : Breaker) (s : S)
      → b.state ≡ open_
      → b.opened_at ≡ some at
      → at + b.reset_timeout ≤ now
      → let (r, b', s') = call now done func b s in
        (r ≡ (func s).0)
        × (s' ≡ (func s).1)
        × ((a : A) → r ≡ ok a → (b'.state ≡ closed) × (b'.failure_count ≡ 0))
        × ((e : Exn)
            → r ≡ err e
            → is_exception e ≡ true
            → (b'.state ≡ open_) × (b'.opened_at ≡ some done))
  unfolding call
  call_trial now done at b s o a rest =
      (ground arith, ground arith, λ a. ground arith, λ e. ground arith)

  call_resting :
      (now done at : ℕ) (b : Breaker) (s : S)
      → b.state ≡ open_
      → b.opened_at ≡ some at
      → now < at + b.reset_timeout
      → 0 < b.reset_timeout
      → call now done func b s ≡ (err cache_unavailable, b, s)
  unfolding call
  call_resting now done at b s o a early p = ground arith

  -- While an open breaker with a positive timeout rests no call reaches the function: the state it
  -- works on and the breaker are as they were, whatever the number of calls.
  calls_resting :
      (ts : List (ℕ × ℕ)) (at : ℕ) (b : Breaker) (s : S)
      → b.state ≡ open_
      → b.opened_at ≡ some at
      → All (λ (t : ℕ × ℕ). t.0 < at + b.reset_timeout) ts
      → 0 < b.reset_timeout
      → calls ts func b s ≡ (b, s)
  calls_resting [] at b s o a rest p = refl
  calls_resting ((now, done) ∷ ts) at b s o a rest p =
      ground
        (arith, call_resting now done at b s o a rest.0 p, calls_resting ts at b s o a rest.1 p)

-- A function that always raises.
module _ {S A : Type 0} (func : S → Result A × S) (fault : S → Exn)
    (fails : (u : S) → (func u).0 ≡ err (fault u))
    (raised : (u : S) → is_exception (fault u) ≡ true) where
  call_open :
      (now done : ℕ) (b : Breaker) (s : S)
      → b.state ≡ open_
      → (call now done func b s).1.state ≡ open_
  unfolding call
  call_open now done b s o = ground (arith, fails s, raised s)

  calls_open :
      (ts : List (ℕ × ℕ)) (b : Breaker) (s : S)
      → b.state ≡ open_
      → (calls ts func b s).0.state ≡ open_
  calls_open [] b s o = o
  calls_open ((now, done) ∷ ts) b s o =
      let (_, b', s') = call now done func b s in calls_open ts b' s' (call_open now done b s o)

  call_closed :
      (now done : ℕ) (b : Breaker) (s : S)
      → b.state ≡ closed
      → let b' = (call now done func b s).1 in
        (b'.fail_max ≡ b.fail_max)
        × (b'.failure_count ≡ b.failure_count + 1)
        × ((b.fail_max ≤ b.failure_count + 1) × (b'.state ≡ open_)
            ⊎ (b.failure_count + 1 < b.fail_max) × (b'.state ≡ closed))
  unfolding call
  call_closed now done b s c = ground (arith, fails s, raised s)

  calls_closed :
      (ts : List (ℕ × ℕ)) (b : Breaker) (s : S)
      → b.failure_count < b.fail_max
      → b.state ≡ closed
      → ((calls ts func b s).0.state ≡ open_) ↔ (b.fail_max ≤ b.failure_count + length ts)
  calls_closed [] b s v c = (λ o. cc, λ h. absurd (omega arith))
  calls_closed ((now, done) ∷ ts) b s v c =
      let (_, b', s') = call now done func b s in
      let (same, more, next) = call_closed now done b s c in
      elim next [
        | inl (full, o) ↦ (λ _. omega arith, λ _. calls_open ts b' s' o)
        | inr (room, c') ↦
            let ih = calls_closed ts b' s' (omega arith) c' in
            (λ o. omega (arith, ih.0 o), λ h. ih.1 (omega arith))
      ]

  -- A new breaker before a function that always raises an exception other than a cancellation is
  -- open after a sequence of calls exactly when the sequence is at least as long as `fail_max`,
  -- whenever the calls are made.
  pub new-calls_open :
      (fail_max reset_timeout : ℤ) (b : Breaker) (s : S) (ts : List (ℕ × ℕ))
      → new fail_max reset_timeout ≡ ok b
      → ((calls ts func b s).0.state ≡ open_) ↔ (fail_max ≤ℤ pos (length ts))
  unfolding new
  new-calls_open fail_max reset_timeout b s ts h =
      let ih = calls_closed ts b s (ground arith) (ground arith) in
      (λ o. ground (arith, ih.0 o), λ e. ih.1 (ground arith))
