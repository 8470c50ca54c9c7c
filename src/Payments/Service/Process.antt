-- ===== src/Payments/Service/Process.antt =====
-- What `process_payment` of src/modules/payments/services.py does on every way through it.
use nimbus_commerce_platform.Common.{
  ◌≡◌, refl, ◌≢◌, String, false, Option, none, some, List, [], ◌∷◌, arith, str_eq_iff,
}
use nimbus_commerce_platform.Errors.{ok, err, idempotency_conflict}
use nimbus_commerce_platform.Storage.{Keys, Table, answers}
use nimbus_commerce_platform.Breaker.{Breaker, closed, call}
use nimbus_commerce_platform.Messaging.Envelope.{content_hash}
use nimbus_commerce_platform.Payments.Models.{Payment}
use nimbus_commerce_platform.Payments.Models.Transitions.{◌⟶◌, validate_transition_iff}
use nimbus_commerce_platform.Payments.Lock.{
  Io, redis_key, acquire_idempotency_lock, release_idempotency_lock, idempotency_lock,
}
use nimbus_commerce_platform.Payments.Lock.Ownership.{get-lock_release_lua}
use nimbus_commerce_platform.Payments.Service.{
  ProcessPaymentRequest, ProcessPaymentResult, Write, write_payment, write_outbox, Fresh, Text,
  build_payment_event, payment_event_type, process_found, process_payment,
}

-- What the body adds to the session when it succeeds.
process_found_ok :
    (x : Text) (fresh : Fresh) (request : ProcessPaymentRequest) (row : Option Payment)
    (r : ProcessPaymentResult) (writes : List Write)
    → process_found x fresh request row ≡ (ok r, writes)
    → (old : Payment) × (row ≡ some old)
      × (old.status ⟶ request.new_status)
      × (r.payment ≡ record old { status = request.new_status })
      × (writes ≡ write_payment r.payment ∷ write_outbox r.outbox_event ∷ [])
      × (r.outbox_event.event_type ≡ payment_event_type request.new_status)
      × (r.outbox_event.aggregate_id ≡ x.str_uuid old.id)
      × (r.outbox_event.payload ≡ x.model_dump r.envelope)
      × (r.outbox_event.dedupe_id ≡ content_hash x.digest r.envelope)
      × (r.outbox_event.processed ≡ false)
      × (r.envelope
          ≡ build_payment_event x fresh
              (record old { status = request.new_status })
              (payment_event_type request.new_status)
              request.extra_payload)
unfolding process_found
process_found_ok x fresh request none r writes h = absurd (ground arith)
process_found_ok x fresh request (some old) r writes h =
    let edge = (validate_transition_iff old.status request.new_status).0 in
    (
      old,
      refl,
      edge (ground arith),
      ground arith,
      ground arith,
      ground arith,
      ground arith,
      ground arith,
      ground arith,
      ground arith,
      ground arith,
    )

module _ (k : Keys) (t : Table Payment) (x : Text) (fresh : Fresh) (request : ProcessPaymentRequest)
    (before after : Io) (others : k.Store → k.Store) (payments : t.Store) where
  -- A payment that is processed existed and had a status with an edge to the new one; the session
  -- gets exactly two rows, the payment with the new status and the event about it, which carries the
  -- envelope, its hash and the type named after the status; the envelope is built from the payment
  -- with the new status.
  pub process_payment_ok :
      (b b' : Breaker) (s s' : k.Store) (r : ProcessPaymentResult) (writes : List Write)
      → process_payment k t x fresh request before after others payments b s
        ≡ (ok r, writes, b', s')
      → (old : Payment) × (t.find payments request.payment_id ≡ some old)
        × (old.status ⟶ request.new_status)
        × (r.payment ≡ record old { status = request.new_status })
        × (writes ≡ write_payment r.payment ∷ write_outbox r.outbox_event ∷ [])
        × (r.outbox_event.event_type ≡ payment_event_type request.new_status)
        × (r.outbox_event.aggregate_id ≡ x.str_uuid old.id)
        × (r.outbox_event.payload ≡ x.model_dump r.envelope)
        × (r.outbox_event.dedupe_id ≡ content_hash x.digest r.envelope)
        × (r.outbox_event.processed ≡ false)
        × (r.envelope
            ≡ build_payment_event x fresh
                (record old { status = request.new_status })
                (payment_event_type request.new_status)
                request.extra_payload)
  unfolding process_payment idempotency_lock
  process_payment_ok b b' s s' r writes h =
      process_found_ok x fresh request (t.find payments request.payment_id) r writes (ground arith)

  -- With the breaker closed and Redis answering, a request whose key is not empty and is locked
  -- raises IdempotencyConflictError: nothing is added to the session and no key of Redis changes.
  process_payment_busy :
      (b : Breaker) (s : k.Store) (token : String) (j : String)
      → request.idempotency_key ≢ ""
      → k.get s (redis_key request.idempotency_key) ≡ some token
      → b.state ≡ closed
      → before.link ≡ answers
      → let (r, writes, b', s') =
          process_payment k t x fresh request before after others payments b s in
        (r ≡ err idempotency_conflict) × (writes ≡ []) × (k.get s' j ≡ k.get s j)
  unfolding process_payment idempotency_lock acquire_idempotency_lock call
  process_payment_busy b s token j named held shut up =
      let done = k.set_nx_done s (redis_key request.idempotency_key) fresh.token 30 in
      let get = k.get-set_nx s (redis_key request.idempotency_key) fresh.token 30 j in
      ground (arith, str_eq_iff request.idempotency_key "", done, get)

  -- With a key that is not empty, the breaker closed, Redis answering, the lock free and no other
  -- request at Redis meanwhile, the outcome is the body's alone, and the lock is free again at the
  -- end, whether the body returned or raised.
  pub process_payment_free :
      (b : Breaker) (s : k.Store)
      → request.idempotency_key ≢ ""
      → k.get s (redis_key request.idempotency_key) ≡ none
      → b.state ≡ closed
      → before.link ≡ answers
      → after.link ≡ answers
      → ((u : k.Store) → others u ≡ u)
      → let (r, writes, b', s') =
          process_payment k t x fresh request before after others payments b s in
        let body = process_found x fresh request (t.find payments request.payment_id) in
        (r ≡ body.0) × (writes ≡ body.1) × (k.get s' (redis_key request.idempotency_key) ≡ none)
  unfolding process_payment idempotency_lock acquire_idempotency_lock release_idempotency_lock call
  process_payment_free b s named free shut up up' alone =
      let key = redis_key request.idempotency_key in
      let s1 = (k.set_nx s key fresh.token 30).1 in
      let done = k.set_nx_done s (redis_key request.idempotency_key) fresh.token 30 in
      let get = k.get-set_nx s (redis_key request.idempotency_key) fresh.token 30 key in
      let gone = get-lock_release_lua k key fresh.token s1 key in
      ground (
        arith,
        str_eq_iff request.idempotency_key "",
        str_eq_iff fresh.token fresh.token,
        str_eq_iff key key,
        done,
        get,
        alone s1,
        gone,
      )
