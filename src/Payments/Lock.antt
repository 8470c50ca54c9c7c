-- ===== src/Payments/Lock.antt =====
-- The idempotency lock of src/modules/payments/services.py: a Redis key that holds a token, set with
-- NX and deleted by a script that compares the token. Every command goes through the breaker.
pub mod Ownership
use nimbus_commerce_platform.Common.{
  ℕ, concat, List, [], String, Bool, true, false, Option, none, some, str_eq, ltb, if◌then◌else◌,
}
use nimbus_commerce_platform.Common.Int.{ℤ, pos, pos_part, leb_ℤ}
use nimbus_commerce_platform.Errors.{
  Exn, Result, ok, err, ◌>>◌, value_error, idempotency_conflict, cache_unavailable,
}
use nimbus_commerce_platform.Storage.{Keys, Link, ask}
use nimbus_commerce_platform.Breaker.{Breaker, call}

pub record IdempotencyLock : Type 0 where
  pub key : String
  pub token : String

-- One command through the breaker: when it begins and ends, and how it fares.
pub record Io : Type 0 where
  pub now : ℕ
  pub done : ℕ
  pub link : Link

-- `raise ValueError` unless the ttl is positive; 30 seconds where none is given.
abbrev pub ttl_or_default : Option ℤ → ℤ
ttl_or_default none = pos 30
ttl_or_default (some ttl) = ttl

-- What `acquire_idempotency_lock` makes of the answer to SET.
abbrev pub granted : IdempotencyLock → Result Bool → Result IdempotencyLock
granted lock (ok true) = ok lock
granted lock (ok false) = err idempotency_conflict
granted lock (err e) = err e

-- What `release_idempotency_lock` makes of the answer of the script.
abbrev pub released : Result ℕ → Result Bool
released (ok n) = ok (ltb 0 n)
released (err cache_unavailable) = ok false
released (err e) = err e

-- `_redis_key`
abbrev pub redis_key : String → String
redis_key idempotency_key = concat "idemp:" idempotency_key

module _ (k : Keys) where
  unfoldable pub acquire_idempotency_lock :
      String
      → Option ℤ
      → String
      → Io
      → Breaker
      → k.Store
      → Result IdempotencyLock × Breaker × k.Store
  acquire_idempotency_lock idempotency_key ttl_seconds token io b s =
      let key = redis_key idempotency_key in
      let ttl = ttl_or_default ttl_seconds in
      if str_eq idempotency_key ""
      then (err value_error, b, s)
      else (if leb_ℤ ttl (pos 0)
          then (err value_error, b, s)
          else (let (r, b', s') =
                call io.now io.done (ask io.link (λ u. k.set_nx u key token (pos_part ttl))) b s in
              (granted (record { key = key; token = token }) r, b', s')))

  -- `_LOCK_RELEASE_LUA`
  unfoldable pub lock_release_lua : String → String → k.Store → ℕ × k.Store
  lock_release_lua key token s = elim (k.get s key) [
    | none ↦ (0, s)
    | some v ↦ if str_eq v token then k.del s key else (0, s)
  ]

  unfoldable pub release_idempotency_lock :
      IdempotencyLock → Io → Breaker → k.Store → Result Bool × Breaker × k.Store
  release_idempotency_lock lock io b s =
      let (r, b', s') =
        call io.now io.done (ask io.link (lock_release_lua lock.key lock.token)) b s in
      (released r, b', s')

  -- `idempotency_lock` around a body that touches neither Redis nor the breaker and leaves writes for
  -- the session. What other requests do to Redis while the body runs is `others`. The lock is released
  -- on every way out of the body, and an exception of the release replaces what the body returned.
  unfoldable pub idempotency_lock :
      {A W : Type 0}
      → String
      → Option ℤ
      → String
      → Io
      → Io
      → (k.Store → k.Store)
      → (Result A × List W)
      → Breaker
      → k.Store
      → Result A × List W × Breaker × k.Store
  idempotency_lock ik ttl token before after others body b s =
      let (granted_or_raised, b', s') = acquire_idempotency_lock ik ttl token before b s in
      elim granted_or_raised [
        | err e ↦ (err e, [], b', s')
        | ok lock ↦
            let (freed, b'', s'') = release_idempotency_lock lock after b' (others s') in
            (freed >> body.0, body.1, b'', s'')
      ]
