-- ===== src/Breaker/Clients.antt =====
-- The pool, the client and the breaker that src/core/cache.py keeps for the process.
use nimbus_commerce_platform.Common.{
  ◌≡◌, ◌≢◌, refl, if◌then◌else◌, Bool, true, false, Option, none, some, List, [], ◌∷◌, arith,
}
use nimbus_commerce_platform.Common.Int.{ℤ}
use nimbus_commerce_platform.Errors.{Exn, Result, ok, err, ◌>>◌, is_ok, false_on_exception}
use nimbus_commerce_platform.Breaker.{Breaker, new}

-- Whether `_pool` and `_redis` are set, and `_breaker`.
pub record Clients : Type 0 where
  pub has_pool : Bool
  pub has_redis : Bool
  pub breaker : Option Breaker

abbrev pub no_clients : Clients
no_clients = record { has_pool = false; has_redis = false; breaker = none }

-- `redis_circuit_breaker_fail_max` and `redis_circuit_breaker_reset_timeout_seconds`
pub record Limits : Type 0 where
  pub fail_max : ℤ
  pub reset_timeout : ℤ

module _ (limits : Limits) where
  -- `get_redis`, by how the settings are read and the pool is built: whether it returns.
  unfoldable pub get_redis : Result (Unit {0}) → Clients → Result (Unit {0}) × Clients
  unfolding new
  get_redis built c = elim c.has_redis [
    | true ↦ (ok tt, c)
    | false ↦ elim built [
      | err e ↦ (err e, c)
      | ok _ ↦ elim (new limits.fail_max limits.reset_timeout) [
        | err e ↦ (err e, record c { has_pool = true; has_redis = true })
        | ok b ↦ (ok tt, record { has_pool = true; has_redis = true; breaker = some b })
      ]
    ]
  ]

  -- `get_breaker`: `none` where its assertion fails.
  unfoldable pub get_breaker : Result (Unit {0}) → Clients → Result (Option Breaker) × Clients
  unfolding get_redis
  get_breaker built c = elim c.breaker [
    | some b ↦ (ok (some b), c)
    | none ↦
        let (r, c') = get_redis built c in (elim r [ err e ↦ err e | ok _ ↦ ok c'.breaker ], c')
  ]

  -- `health_check`, by what PING comes to.
  unfoldable pub health_check : Result (Unit {0}) → Result Bool → Clients → Result Bool × Clients
  unfolding get_redis
  health_check built ping c =
      let (r, c') = get_redis built c in (false_on_exception (r >> ping), c')

-- `dispose_redis`, by how the client and the pool close.
unfoldable pub dispose_redis :
    Result (Unit {0}) → Result (Unit {0}) → Clients → Result (Unit {0}) × Clients
dispose_redis client pool c = elim (if c.has_redis then client else ok tt) [
  | err e ↦ (err e, c)
  | ok _ ↦ elim (if c.has_pool then pool else ok tt) [
    | err e ↦ (err e, c)
    | ok _ ↦ (ok tt, no_clients)
  ]
]

pub data Call : Type 0 where
  redis breaker : Result (Unit {0}) → Call
  health : Result (Unit {0}) → Result Bool → Call
  dispose : Result (Unit {0}) → Result (Unit {0}) → Call

module _ (limits : Limits) where
  abbrev pub step : Call → Clients → Clients
  step (redis built) c = (get_redis limits built c).1
  step (breaker built) c = (get_breaker limits built c).1
  step (health built ping) c = (health_check limits built ping c).1
  step (dispose client pool) c = (dispose_redis client pool c).1

  abbrev pub run : List Call → Clients → Clients
  run [] c = c
  run (x ∷ xs) c = run xs (step x c)

  abbrev has_breaker : Clients → Bool
  has_breaker c = elim c.breaker [ none ↦ false | some _ ↦ true ]

  step-has_breaker :
      (x : Call) (c : Clients)
      → is_ok (new limits.fail_max limits.reset_timeout) ≡ true
      → has_breaker c ≡ c.has_redis
      → has_breaker (step x c) ≡ (step x c).has_redis
  unfolding get_redis get_breaker health_check dispose_redis
  step-has_breaker (redis built) c v h = ground arith
  step-has_breaker (breaker built) c v h = ground arith
  step-has_breaker (health built ping) c v h = ground arith
  step-has_breaker (dispose client pool) c v h = ground arith

  run-has_breaker :
      (xs : List Call) (c : Clients)
      → is_ok (new limits.fail_max limits.reset_timeout) ≡ true
      → has_breaker c ≡ c.has_redis
      → has_breaker (run xs c) ≡ (run xs c).has_redis
  run-has_breaker [] c v h = h
  run-has_breaker (x ∷ xs) c v h = run-has_breaker xs (step x c) v (step-has_breaker x c v h)

  -- Where the settings make a breaker: after any calls on a new process, whatever failed in them, the
  -- assertion of `get_breaker` holds.
  pub run-get_breaker :
      (xs : List Call) (built : Result (Unit {0}))
      → is_ok (new limits.fail_max limits.reset_timeout) ≡ true
      → (get_breaker limits built (run xs no_clients)).0 ≢ ok none
  unfolding get_breaker
  run-get_breaker xs built v = let h = run-has_breaker xs no_clients v refl in λ q. ground arith

  -- Where the settings make no breaker: the first `get_redis` raises, and yet the next one returns a
  -- client, without a breaker, so that the assertion of `get_breaker` fails.
  pub get_redis_twice :
      (e : Exn) (built : Result (Unit {0}))
      → new limits.fail_max limits.reset_timeout ≡ err e
      → ((get_redis limits (ok tt) no_clients).0 ≡ err e)
        × ((get_redis limits built (get_redis limits (ok tt) no_clients).1).0 ≡ ok tt)
        × ((get_breaker limits built (get_redis limits (ok tt) no_clients).1).0 ≡ ok none)
  unfolding get_breaker
  get_redis_twice e built q = (ground arith, ground arith, ground arith)
