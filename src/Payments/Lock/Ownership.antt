-- ===== src/Payments/Lock/Ownership.antt =====
-- Who holds an idempotency lock of src/modules/payments/services.py, under any interleaving of the
-- calls of other requests.
use nimbus_commerce_platform.Common.{
  ◌≡◌, ◌≢◌, inl, inr, String, true, Option, none, some, List, [], ◌∷◌, arith, str_eq, str_eq_iff,
  if◌then◌else◌, Option-cases, All,
}
use nimbus_commerce_platform.Common.Int.{ℤ, pos_part}
use nimbus_commerce_platform.Errors.{ok}
use nimbus_commerce_platform.Storage.{Keys}
use nimbus_commerce_platform.Breaker.{Breaker, call}
use nimbus_commerce_platform.Payments.Lock.{
  IdempotencyLock, Io, ttl_or_default, redis_key, acquire_idempotency_lock, lock_release_lua,
  release_idempotency_lock,
}

-- What the requests of a system do to the locks: each call with the breaker that it meets.
pub data Op : Type 0 where
  acquires : String → Option ℤ → String → Io → Breaker → Op
  releases : IdempotencyLock → Io → Breaker → Op

-- The call is no release with this token.
abbrev pub IsOther : String → Op → Type 0
IsOther token (acquires ik ttl t io b) = Unit
IsOther token (releases lock io b) = lock.token ≢ token

module _ (k : Keys) where
  -- A lock that was granted was free, now holds the caller's token, and no other key was written.
  pub acquire_granted :
      (ik : String) (ttl : Option ℤ) (token : String) (io : Io) (b b' : Breaker) (s s' : k.Store)
      (lock : IdempotencyLock)
      → acquire_idempotency_lock k ik ttl token io b s ≡ (ok lock, b', s')
      → (lock.key ≡ redis_key ik)
        × (lock.token ≡ token)
        × (k.get s lock.key ≡ none)
        × (k.get s' lock.key ≡ some token)
        × ((j : String) → j ≢ lock.key → k.get s' j ≡ k.get s j)
  unfolding acquire_idempotency_lock call
  acquire_granted ik ttl token io b b' s s' lock h =
      let key = redis_key ik in
      let life = pos_part (ttl_or_default ttl) in
      let done = k.set_nx_done s key token life in
      let after = k.get-set_nx s key token life in
      (
        ground arith,
        ground arith,
        ground (arith, done),
        ground (arith, done, after key, str_eq_iff key key),
        λ j ne. ground (arith, done, after j, str_eq_iff key j),
      )

  -- The script, seen key by key: it removes the lock if the lock holds the caller's token, and
  -- changes nothing else.
  pub get-lock_release_lua :
      (key token : String) (s : k.Store) (j : String)
      → k.get (lock_release_lua k key token s).1 j ≡ elim (k.get s key) [
        | none ↦ k.get s j
        | some v ↦ if str_eq v token then (if str_eq key j then none else k.get s j) else k.get s j
      ]
  unfolding lock_release_lua
  get-lock_release_lua key token s j = ground (arith, k.get-del s key j)

  -- A release that reports true found the caller's token in the lock and has freed it.
  pub release_freed :
      (lock : IdempotencyLock) (io : Io) (b b' : Breaker) (s s' : k.Store)
      → release_idempotency_lock k lock io b s ≡ (ok true, b', s')
      → (k.get s lock.key ≡ some lock.token) × (k.get s' lock.key ≡ none)
  unfolding release_idempotency_lock call lock_release_lua
  release_freed lock io b b' s s' h =
      let count = k.del_count s lock.key in
      let freed = k.get-del s lock.key lock.key in
      elim (Option-cases (k.get s lock.key)) [
        | inl gone ↦ (absurd (ground arith), absurd (ground arith))
        | inr (v, e) ↦ (
          ground (arith, str_eq_iff v lock.token),
          ground (arith, count, freed, str_eq_iff lock.key lock.key),
        )
      ]

  abbrev pub perform : Op → k.Store → k.Store
  perform (acquires ik ttl token io b) s = (acquire_idempotency_lock k ik ttl token io b s).2
  perform (releases lock io b) s = (release_idempotency_lock k lock io b s).2

  abbrev pub perform_all : List Op → k.Store → k.Store
  perform_all [] s = s
  perform_all (o ∷ os) s = perform_all os (perform o s)

  perform_held :
      (o : Op) (key token : String) (s : k.Store)
      → k.get s key ≡ some token
      → IsOther token o
      → k.get (perform o s) key ≡ some token
  unfolding acquire_idempotency_lock release_idempotency_lock call
  perform_held (acquires ik ttl t io b) key token s h i = ground (
    arith,
    k.get-set_nx s (redis_key ik) t (pos_part (ttl_or_default ttl)) key,
    str_eq_iff (redis_key ik) key,
  )
  perform_held (releases lock io b) key token s h i = ground (
    arith,
    get-lock_release_lua lock.key lock.token s key,
    str_eq_iff lock.key key,
    str_eq_iff token lock.token,
  )

  taken_refused :
      (ik : String) (ttl : Option ℤ) (t token : String) (io : Io) (b : Breaker) (s : k.Store)
      (lock : IdempotencyLock)
      → k.get s (redis_key ik) ≡ some token
      → (acquire_idempotency_lock k ik ttl t io b s).0 ≢ ok lock
  unfolding acquire_idempotency_lock call
  taken_refused ik ttl t token io b s lock h =
      ground (arith, k.set_nx_done s (redis_key ik) t (pos_part (ttl_or_default ttl)))

  -- While a lock holds a token, no calls of requests with other tokens, in any number and order, take
  -- the lock away, and none of them is granted it.
  pub held_exclusive :
      (os : List Op) (ik : String) (token : String) (s : k.Store)
      → k.get s (redis_key ik) ≡ some token
      → All (IsOther token) os
      → (k.get (perform_all os s) (redis_key ik) ≡ some token)
        × ((ttl : Option ℤ) (t : String) (io : Io) (b : Breaker) (lock : IdempotencyLock)
            → (acquire_idempotency_lock k ik ttl t io b (perform_all os s)).0 ≢ ok lock)
  held_exclusive [] ik token s h i =
      (h, λ ttl t io b lock g. taken_refused ik ttl t token io b s lock h g)
  held_exclusive (o ∷ os) ik token s h i =
      held_exclusive os ik token (perform o s) (perform_held o (redis_key ik) token s h i.0) i.1
