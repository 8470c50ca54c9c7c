-- ===== src/Examples/Journey.antt =====
-- Payments whose events go through the outbox, the relay and Kafka to the consumer of the orders.
use nimbus_commerce_platform.Common.{
  ℕ, ◌≡◌, refl, inr, true, ◌&&◌, String, Option, some, List, [], ◌∷◌, arith, str_eq, if◌then◌else◌,
  ◌==◌,
}
use nimbus_commerce_platform.Common.Int.{pos, ◌+ℤ◌, ◌-ℤ◌}
use nimbus_commerce_platform.Storage.{Table}
use nimbus_commerce_platform.Breaker.{call}
use nimbus_commerce_platform.Messaging.Envelope.{
  Json, Fields, str, end, field, get, EventEnvelope, content_hash,
}
use nimbus_commerce_platform.Messaging.Producer.{
  Kafka, done, timeout_error, Message, RecordMetadata, Wire, KafkaProducer, publish,
}
use nimbus_commerce_platform.Payments.Models.{
  Payment, PaymentStatus, pending, authorized, captured, declined, validate_transition,
}
use nimbus_commerce_platform.Payments.Models as Payments
use nimbus_commerce_platform.Payments.Lock.{
  acquire_idempotency_lock, release_idempotency_lock, idempotency_lock, lock_release_lua,
}
use nimbus_commerce_platform.Payments.Service.{
  ProcessPaymentRequest, ProcessPaymentResult, Write, write_payment, write_outbox,
  payment_event_type, process_found, process_payment, build_payment_event, build_outbox_event,
}
use nimbus_commerce_platform.Inventory.{reserve}
use nimbus_commerce_platform.Relay.{classify, publish_one}
use nimbus_commerce_platform.Consumer.{World}
use nimbus_commerce_platform.Orders.Services.{paid, failed}
use nimbus_commerce_platform.Orders.Handlers.{Tables}
use nimbus_commerce_platform.Saga.{Stores, relay_message}
use nimbus_commerce_platform.Saga.Arrival.{Arrives, db_after}
use nimbus_commerce_platform.Saga.Outcomes.{other_status_ignored, captured_pays, failed_compensates}
use nimbus_commerce_platform.Examples.{keys, no_keys, table, one_row, text, fresh}
use nimbus_commerce_platform.Examples.Sales.{orders, stocks, one_is_1, before, order, lamp}
use nimbus_commerce_platform.Examples.Traffic.{delivery, breaker, differ, up}

abbrev payments : Table Payment
payments = table Payment

abbrev payment : PaymentStatus → Payment
payment status = record { id = 1; status = status; amount_minor_units = pos 3998; currency = "EUR" }

abbrev extra : Fields
extra = field "order_id" (str "1") end

abbrev request : PaymentStatus → ProcessPaymentRequest
request status = record {
  payment_id = 1;
  idempotency_key = "k";
  new_status = status;
  extra_payload = some extra;
}

abbrev envelope : PaymentStatus → EventEnvelope
envelope status =
    build_payment_event text fresh (payment status) (payment_event_type status) (some extra)

abbrev result : PaymentStatus → ProcessPaymentResult
result status = record {
  payment = payment status;
  outbox_event = build_outbox_event text fresh (envelope status) "payments.events";
  envelope = envelope status;
}

abbrev writes : PaymentStatus → List Write
writes status = write_payment (payment status) ∷ write_outbox (result status).outbox_event ∷ []

abbrev nobody : (String → Option String) → String → Option String
nobody s = s

abbrev wire : Wire
wire = record { to_bytes = λ _. "bytes"; str_uuid = λ _. "uuid"; str_int = λ _. "1" }

-- A broker that takes the one message.
abbrev send : Message → Kafka RecordMetadata
send m =
    if str_eq m.topic "payments.events" && str_eq m.value "bytes"
    then done (record { topic = "payments.events"; partition = 0; offset = 7 })
    else timeout_error

abbrev producer : KafkaProducer
producer = record { started = true; has_producer = true }

abbrev world : World keys (Tables orders stocks)
world = record { breaker = breaker; keys = no_keys; db = before }

abbrev read_as : PaymentStatus → Json → Option EventEnvelope
read_as status json = some (envelope status)

abbrev parse_as : PaymentStatus → String → Option EventEnvelope
parse_as status bytes = some (envelope status)

stores :
    (status : PaymentStatus) (n : ℕ)
    → Stores send (relay_message wire (envelope status) (result status).outbox_event) (delivery n)
unfolding relay_message build_outbox_event
stores status n meta h = (refl, refl)

arrives :
    (status : PaymentStatus)
    → Arrives orders stocks one_is_1 text wire
        (read_as status)
        (parse_as status)
        send
        producer
        keys
        (envelope status)
        (result status).outbox_event
        (delivery 7)
        (delivery 7 ∷ delivery 8 ∷ [])
        world
unfolding content_hash classify publish_one publish build_outbox_event
arrives status = record {
  relays = record { loads = refl; decodes = refl; taken = refl };
  named = differ "digest" "" refl;
  first = (stores status 7, refl);
  again = ((stores status 7, refl), ((stores status 8, refl), tt));
  shut = refl;
  free = refl;
}

-- The tables after three deliveries of the event of a status.
abbrev tables_of : PaymentStatus → Tables orders stocks
tables_of status =
    db_after orders stocks one_is_1 text wire (read_as status) (parse_as status) send producer keys
      (envelope status) (delivery 7 ∷ delivery 7 ∷ delivery 8 ∷ []) world

-- Redis after a payment has gone from one status to the other.
abbrev redis_after : PaymentStatus → PaymentStatus → String → Option String
redis_after old new =
    (process_payment keys payments text fresh (request new) up up nobody (one_row (payment old))
      breaker no_keys).3

other_status_ignored_example : tables_of declined ≡ before
unfolding process_payment idempotency_lock acquire_idempotency_lock release_idempotency_lock
    lock_release_lua process_found call validate_transition get
other_status_ignored_example =
    other_status_ignored keys payments orders stocks one_is_1 text wire (read_as declined)
      (parse_as declined) send producer fresh (request declined) up up nobody
      (one_row (payment pending)) breaker breaker no_keys (redis_after pending declined)
      (result declined) (writes declined) (delivery 7) (delivery 7 ∷ delivery 8 ∷ []) world refl
      (arrives declined) (λ h. absurd (cc h)) (λ h. absurd (cc h))

captured_pays_example :
    ((tables_of captured).stocks ≡ before.stocks)
    × ((j : ℕ)
        → (tables_of captured).orders j
          ≡ (if j == 1 then some (record order { status = paid }) else before.orders j))
unfolding process_payment idempotency_lock acquire_idempotency_lock release_idempotency_lock
    lock_release_lua process_found call validate_transition get
captured_pays_example =
    captured_pays keys payments orders stocks one_is_1 text wire (read_as captured)
      (parse_as captured) send producer fresh (request captured) up up nobody
      (one_row (payment authorized)) breaker breaker no_keys (redis_after authorized captured)
      (result captured) (writes captured) (delivery 7) (delivery 7 ∷ delivery 8 ∷ []) world refl
      (arrives captured) extra "1" 1 order refl (refl, tt) refl refl refl refl refl refl refl

failed_compensates_example :
    ((tables_of Payments.failed).orders 1 ≡ some (record order { status = failed }))
    × ((tables_of Payments.failed).stocks 1 ≡ some (record lamp { available = pos 5; version = 8 }))
unfolding process_payment idempotency_lock acquire_idempotency_lock release_idempotency_lock
    lock_release_lua process_found call validate_transition get reserve ◌-ℤ◌ ◌+ℤ◌
failed_compensates_example =
    failed_compensates keys payments orders stocks one_is_1 text wire (read_as Payments.failed)
      (parse_as Payments.failed) send producer fresh (request Payments.failed) up up nobody
      (one_row (payment pending)) breaker breaker no_keys (redis_after pending Payments.failed)
      (result Payments.failed) (writes Payments.failed) (delivery 7) (delivery 7 ∷ delivery 8 ∷ [])
      world refl (arrives Payments.failed) extra "1" 1 order refl (refl, tt) refl refl refl refl
      refl (record lamp { available = pos 3; version = 8 }) refl refl (inr refl) (omega arith)
