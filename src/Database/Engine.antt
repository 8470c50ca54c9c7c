-- ===== src/Database/Engine.antt =====
-- The engine, the session factory and the breaker that src/core/database.py keeps for the process.
use nimbus_commerce_platform.Common.{
  ℕ, ◌+◌, ◌≡◌, ◌≢◌, refl, Option, none, some, List, [], ◌∷◌, arith,
}
use nimbus_commerce_platform.Errors.{Result, ok, err}

-- The three globals, with a number for each object that was made; the factory is known by the engine
-- that it is bound to. `made` counts the engines and breakers so far.
pub record Process : Type 0 where
  pub engine : Option ℕ
  pub session_factory : Option ℕ
  pub breaker : Option ℕ
  pub made : ℕ

abbrev pub new_process : Process
new_process = record { engine = none; session_factory = none; breaker = none; made = 0 }

-- How the settings are read and the breaker is made, and how the engine is built.
pub record Build : Type 0 where
  pub breaker : Result (Unit {0})
  pub engine : Result (Unit {0})

unfoldable pub get_engine : Build → Process → Result ℕ × Process
get_engine b p = elim p.engine [
  | some e ↦ (ok e, p)
  | none ↦ elim b.breaker [
    | err x ↦ (err x, p)
    | ok _ ↦ elim b.engine [
      | err x ↦ (err x, record p { breaker = some p.made; made = p.made + 1 })
      | ok _ ↦ (
        ok p.made,
        record {
          engine = some p.made;
          session_factory = some p.made;
          breaker = some p.made;
          made = p.made + 1;
        },
      )
    ]
  ]
]

-- What an accessor returns: the global that it asserts to be set, `none` where the assertion fails.
abbrev after_engine : Result ℕ × Process → (Process → Option ℕ) → Result (Option ℕ) × Process
after_engine (ok e, p) global = (ok (global p), p)
after_engine (err x, p) global = (err x, p)

unfoldable pub get_session_factory : Build → Process → Result (Option ℕ) × Process
unfolding get_engine
get_session_factory b p = elim p.session_factory [
  | some f ↦ (ok (some f), p)
  | none ↦ after_engine (get_engine b p) (λ q. q.session_factory)
]

unfoldable pub get_breaker : Build → Process → Result (Option ℕ) × Process
unfolding get_engine
get_breaker b p = elim p.breaker [
  | some k ↦ (ok (some k), p)
  | none ↦ after_engine (get_engine b p) (λ q. q.breaker)
]

-- `dispose_engine`, by how `dispose` of the engine ends.
unfoldable pub dispose_engine : Result (Unit {0}) → Process → Result (Unit {0}) × Process
dispose_engine disposed p = elim p.engine [
  | none ↦ (ok tt, record p { session_factory = none; breaker = none })
  | some e ↦ elim disposed [
    | err x ↦ (err x, p)
    | ok _ ↦ (ok tt, record p { engine = none; session_factory = none; breaker = none })
  ]
]

pub data Call : Type 0 where
  engine factory breaker : Build → Call
  dispose : Result (Unit {0}) → Call

abbrev pub step : Call → Process → Process
step (engine b) p = (get_engine b p).1
step (factory b) p = (get_session_factory b p).1
step (breaker b) p = (get_breaker b p).1
step (dispose r) p = (dispose_engine r p).1

abbrev pub run : List Call → Process → Process
run [] p = p
run (c ∷ cs) p = run cs (step c p)

-- The factory is bound to the engine that is there, and an engine comes with a breaker.
record IsBound (p : Process) : Type 0 where
  bound : p.session_factory ≡ p.engine
  guarded : p.breaker ≡ none → p.engine ≡ none

step-IsBound : (c : Call) (p : Process) → IsBound p → IsBound (step c p)
unfolding get_engine get_session_factory get_breaker dispose_engine
step-IsBound (engine b) p h = record {
  bound = ground (arith, h.bound);
  guarded = λ q. ground (arith, h.guarded);
}
step-IsBound (factory b) p h = record {
  bound = ground (arith, h.bound);
  guarded = λ q. ground (arith, h.guarded);
}
step-IsBound (breaker b) p h = record {
  bound = ground (arith, h.bound);
  guarded = λ q. ground (arith, h.guarded);
}
step-IsBound (dispose r) p h = record {
  bound = ground (arith, h.bound);
  guarded = λ q. ground (arith, h.guarded);
}

run-IsBound : (cs : List Call) (p : Process) → IsBound p → IsBound (run cs p)
run-IsBound [] p h = h
run-IsBound (c ∷ cs) p h = run-IsBound cs (step c p) (step-IsBound c p h)

new_process-IsBound : IsBound new_process
new_process-IsBound = record { bound = refl; guarded = λ q. refl }

-- After any calls on a new process, whatever failed in them, the assertions of the two accessors
-- hold: neither returns without an object. A factory that is returned is bound to the engine that
-- `get_engine` then returns.
pub run-accessors :
    (cs : List Call) (b b' : Build)
    → ((get_session_factory b (run cs new_process)).0 ≢ ok none)
      × ((get_breaker b (run cs new_process)).0 ≢ ok none)
      × ((f : ℕ)
          → (get_session_factory b (run cs new_process)).0 ≡ ok (some f)
          → (get_engine b' (get_session_factory b (run cs new_process)).1).0 ≡ ok f)
unfolding get_engine get_session_factory get_breaker
run-accessors cs b b' =
    let h = run-IsBound cs new_process new_process-IsBound in
    (
      λ q. ground (arith, h.bound, h.guarded),
      λ q. ground (arith, h.bound, h.guarded),
      λ f q. ground (arith, h.bound, h.guarded),
    )
