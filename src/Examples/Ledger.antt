-- ===== src/Examples/Ledger.antt =====
-- Runs of the payments: the idempotency lock and `process_payment`.
use nimbus_commerce_platform.Common.{
  ◌≡◌, refl, ◌≢◌, String, false, Option, none, some, List, [], ◌∷◌, arith, str_eq_iff,
}
use nimbus_commerce_platform.Common.Int.{ℤ, pos}
use nimbus_commerce_platform.Errors.{Result, ok}
use nimbus_commerce_platform.Storage.{Table, answers}
use nimbus_commerce_platform.Breaker.{Breaker, closed, call}
use nimbus_commerce_platform.Messaging.Envelope.{EventEnvelope, null, content_hash}
use nimbus_commerce_platform.Payments.Models.{Payment, authorized, captured, validate_transition}
use nimbus_commerce_platform.Payments.Models.Transitions.{◌⟶◌}
use nimbus_commerce_platform.Payments.Lock.{
  IdempotencyLock, Io, redis_key, acquire_idempotency_lock, release_idempotency_lock,
  idempotency_lock, lock_release_lua,
}
use nimbus_commerce_platform.Payments.Lock.Ownership.{
  Op, acquires, releases, perform_all, release_freed, held_exclusive,
}
use nimbus_commerce_platform.Payments.Service.{
  ProcessPaymentRequest, ProcessPaymentResult, Write, write_payment, write_outbox,
  payment_event_type, process_found, process_payment, build_payment_event, build_outbox_event,
}
use nimbus_commerce_platform.Payments.Service.Process.{process_payment_ok, process_payment_free}
use nimbus_commerce_platform.Examples.{keys, no_keys, table, one_row, text, fresh}

abbrev breaker : Breaker
breaker = record {
  fail_max = 5;
  reset_timeout = 30;
  state = closed;
  failure_count = 0;
  opened_at = none;
}

abbrev up : Io
up = record { now = 10; done = 11; link = answers }

abbrev lock : IdempotencyLock
lock = record { key = redis_key "k"; token = "token" }

abbrev held : String → Option String
held = (acquire_idempotency_lock keys "k" none "token" up breaker no_keys).2

release_freed_example :
    (held (redis_key "k") ≡ some "token")
    × ((release_idempotency_lock keys lock up breaker held).2 (redis_key "k") ≡ none)
unfolding release_idempotency_lock acquire_idempotency_lock call lock_release_lua
release_freed_example =
    release_freed keys lock up breaker breaker held
      (release_idempotency_lock keys lock up breaker held).2 refl

-- A retry of the same request, and the release of another one's lock.
abbrev strangers : List Op
strangers =
    acquires "k" none "another" up breaker
    ∷ releases (record { key = redis_key "k"; token = "another" }) up breaker
    ∷ []

held_exclusive_example :
    (perform_all keys strangers held (redis_key "k") ≡ some "token")
    × ((ttl : Option ℤ) (t : String) (io : Io) (b : Breaker) (l : IdempotencyLock)
        → (acquire_idempotency_lock keys "k" ttl t io b (perform_all keys strangers held)).0 ≢ ok l)
unfolding acquire_idempotency_lock call
held_exclusive_example =
    held_exclusive keys strangers "k" "token" held refl
      (tt, (ground (arith, str_eq_iff "another" "token"), tt))

abbrev payments : Table Payment
payments = table Payment

abbrev payment : Payment
payment = record { id = 1; status = authorized; amount_minor_units = pos 3998; currency = "EUR" }

abbrev capture_it : ProcessPaymentRequest
capture_it = record {
  payment_id = 1;
  idempotency_key = "k";
  new_status = captured;
  extra_payload = none;
}

abbrev nobody : (String → Option String) → String → Option String
nobody s = s

abbrev processed : Result ProcessPaymentResult × List Write × Breaker × (String → Option String)
processed =
    process_payment keys payments text fresh capture_it up up nobody (one_row payment) breaker
      no_keys

abbrev envelope : EventEnvelope
envelope =
    build_payment_event text fresh (record payment { status = captured })
      (payment_event_type captured) none

abbrev result : ProcessPaymentResult
result = record {
  payment = record payment { status = captured };
  outbox_event = build_outbox_event text fresh envelope "payments.events";
  envelope = envelope;
}

process_payment_ok_example :
    (old : Payment) × (one_row payment 1 ≡ some old)
    × (old.status ⟶ captured)
    × (result.payment ≡ record old { status = captured })
    × ((write_payment result.payment ∷ write_outbox result.outbox_event ∷ [])
        ≡ write_payment result.payment ∷ write_outbox result.outbox_event ∷ [])
    × (result.outbox_event.event_type ≡ payment_event_type captured)
    × (result.outbox_event.aggregate_id ≡ "uuid")
    × (result.outbox_event.payload ≡ null)
    × (result.outbox_event.dedupe_id ≡ content_hash text.digest result.envelope)
    × (result.outbox_event.processed ≡ false)
    × (envelope
        ≡ build_payment_event text fresh
            (record old { status = captured })
            (payment_event_type captured)
            none)
unfolding process_payment idempotency_lock acquire_idempotency_lock release_idempotency_lock
    process_found call validate_transition
process_payment_ok_example =
    process_payment_ok keys payments text fresh capture_it up up nobody (one_row payment) breaker
      breaker no_keys processed.3 result
      (write_payment result.payment ∷ write_outbox result.outbox_event ∷ []) refl

process_payment_free_example :
    (processed.0 ≡ (process_found text fresh capture_it (some payment)).0)
    × (processed.1 ≡ (process_found text fresh capture_it (some payment)).1)
    × (processed.3 (redis_key "k") ≡ none)
process_payment_free_example =
    process_payment_free keys payments text fresh capture_it up up nobody (one_row payment) breaker
      no_keys (ground (arith, str_eq_iff "k" "")) refl refl refl refl (λ u. refl)
