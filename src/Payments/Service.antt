-- ===== src/Payments/Service.antt =====
-- The events and `process_payment` of src/modules/payments/services.py. The function adds its two
-- rows to the session and does not commit: what it adds is a list of writes.
pub mod Events
pub mod Process
use nimbus_commerce_platform.Common.{ℕ, concat, String, Option, none, some, List, [], ◌∷◌, false}
use nimbus_commerce_platform.Common.Int.{ℤ}
use nimbus_commerce_platform.Errors.{Exn, Result, ok, err, ◌>>◌, payment_not_found}
use nimbus_commerce_platform.Storage.{Keys, Table}
use nimbus_commerce_platform.Messaging.Envelope.{
  Json, Fields, num, str, obj, end, field, update, EventEnvelope, content_hash, make_dedupe_id,
}
use nimbus_commerce_platform.Payments.Models.{
  PaymentStatus, Payment, OutboxEvent, value, validate_transition,
}
use nimbus_commerce_platform.Payments.Lock.{Io, idempotency_lock}
use nimbus_commerce_platform.Breaker.{Breaker}

pub record ProcessPaymentRequest : Type 0 where
  pub payment_id : ℕ
  pub idempotency_key : String
  pub new_status : PaymentStatus
  pub extra_payload : Option Fields

pub record ProcessPaymentResult : Type 0 where
  pub payment : Payment
  pub outbox_event : OutboxEvent
  pub envelope : EventEnvelope

-- What `session.add` leaves for the next flush.
pub data Write : Type 0 where
  write_payment : Payment → Write
  write_outbox : OutboxEvent → Write

-- What the call takes from the clock and from the random generator: the id of the event, the two
-- readings of the time in it, and the time of the row.
pub record Fresh : Type 0 where
  pub event_id : ℕ
  pub payload_time : String
  pub envelope_time : String
  pub row_time : ℕ
  pub token : String

-- `str` of a UUID, `json.dumps` with `uuid.uuid5`, and `model_dump` of an envelope.
pub record Text : Type 0 where
  pub str_uuid : ℕ → String
  pub digest : Json → String
  pub model_dump : EventEnvelope → Json

-- `base_payload`, before the extra fields.
abbrev pub base_payload : Text → Fresh → Payment → Fields
base_payload x fresh payment = field "payment_id" (str (x.str_uuid payment.id)) (
    field "status" (str (value payment.status)) (
      field "amount_minor_units" (num payment.amount_minor_units) (
        field "currency" (str payment.currency)
          (field "occurred_at" (str fresh.payload_time) end))))

abbrev pub with_extra : Option Fields → Fields → Fields
with_extra none d = d
with_extra (some extra) d = update d extra

unfoldable pub build_payment_event : Text → Fresh → Payment → String → Option Fields → EventEnvelope
build_payment_event x fresh payment event_type extra_payload = record {
  event_id = fresh.event_id;
  event_type = event_type;
  schema_version = 1;
  aggregate_type = "Payment";
  aggregate_id = x.str_uuid payment.id;
  correlation_id = none;
  causation_id = none;
  occurred_at = fresh.envelope_time;
  payload = obj (with_extra extra_payload (base_payload x fresh payment));
}

-- The columns that the constructor is not given take their defaults.
unfoldable pub build_outbox_event : Text → Fresh → EventEnvelope → String → OutboxEvent
build_outbox_event x fresh envelope topic = record {
  id = envelope.event_id;
  aggregate_type = envelope.aggregate_type;
  aggregate_id = envelope.aggregate_id;
  event_type = envelope.event_type;
  topic = topic;
  payload = x.model_dump envelope;
  dedupe_id = content_hash x.digest envelope;
  processed = false;
  created_at = fresh.row_time;
  processed_at = none;
  attempt_count = 0;
  failed = false;
  last_error = none;
}

unfoldable pub dedupe_event : Text → Json → String
dedupe_event x payload = make_dedupe_id x.digest payload

-- The event type of a change to a status.
abbrev pub payment_event_type : PaymentStatus → String
payment_event_type s = concat "payments.payment_" (value s)

-- The result for a payment whose transition has been validated, and the rows added to the session.
unfoldable pub apply_status :
    Text → Fresh → ProcessPaymentRequest → Payment → Result ProcessPaymentResult × List Write
unfolding build_payment_event build_outbox_event
apply_status x fresh request found =
    let payment = record found { status = request.new_status } in
    let envelope =
      build_payment_event x fresh payment (payment_event_type request.new_status)
        request.extra_payload in
    let outbox = build_outbox_event x fresh envelope "payments.events" in
    (
      ok (record { payment = payment; outbox_event = outbox; envelope = envelope }),
      write_payment payment ∷ write_outbox outbox ∷ [],
    )

-- The body of `process_payment` under the lock, on what SELECT … FOR UPDATE returned.
unfoldable pub process_found :
    Text → Fresh → ProcessPaymentRequest → Option Payment → Result ProcessPaymentResult × List Write
unfolding apply_status
process_found x fresh request none = (err payment_not_found, [])
process_found x fresh request (some payment) =
    elim (validate_transition payment.status request.new_status) [
      | err e ↦ (err e, [])
      | ok _ ↦ apply_status x fresh request payment
    ]

module _ (k : Keys) (t : Table Payment) where
  unfoldable pub process_payment :
      Text
      → Fresh
      → ProcessPaymentRequest
      → Io
      → Io
      → (k.Store → k.Store)
      → t.Store
      → Breaker
      → k.Store
      → Result ProcessPaymentResult × List Write × Breaker × k.Store
  process_payment x fresh request before after others payments b s =
      idempotency_lock k request.idempotency_key none fresh.token before after others
        (process_found x fresh request (t.find payments request.payment_id)) b s
