-- ===== src/Saga/Journey.antt =====
-- From `process_payment` to the record that the consumer of the orders is given.
use nimbus_commerce_platform.Common.{ℕ, ◌≡◌, refl, ◌≢◌, String, Option, none, some, List, arith}
use nimbus_commerce_platform.Errors.{Exn, ok, err, ◌>>=◌, broker_unavailable, infrastructure}
use nimbus_commerce_platform.Storage.{Keys, Table}
use nimbus_commerce_platform.Breaker.{Breaker}
use nimbus_commerce_platform.Messaging.Envelope.{Json, Fields, str, get, EventEnvelope}
use nimbus_commerce_platform.Messaging.Dict.{Distinct, get-update}
use nimbus_commerce_platform.Messaging.Producer.{
  Kafka, done, timeout_error, connection_error, kafka_error, raised, Message, RecordMetadata, Wire,
  KafkaProducer, publish, publish_outcome,
}
use nimbus_commerce_platform.Payments.Models.{Payment, OutboxEvent}
use nimbus_commerce_platform.Payments.Lock.{Io, idempotency_lock}
use nimbus_commerce_platform.Payments.Service.{
  Fresh, Text, ProcessPaymentRequest, ProcessPaymentResult, Write, base_payload,
  build_payment_event, build_outbox_event, payment_event_type, process_found, process_payment,
}
use nimbus_commerce_platform.Consumer.{Delivery}
use nimbus_commerce_platform.Relay.{classify, publish_one, sent}
use nimbus_commerce_platform.Orders.Handlers.{order_id_of}
use nimbus_commerce_platform.Saga.{relay_message, Stores, Relays}

module _ (x : Text) (fresh : Fresh) (request : ProcessPaymentRequest) where
  -- The row and the envelope of a payment that was processed.
  process_found_event :
      (row : Option Payment) (r : ProcessPaymentResult) (writes : List Write)
      → process_found x fresh request row ≡ (ok r, writes)
      → (r.envelope
          ≡ build_payment_event x fresh r.payment
              (payment_event_type request.new_status)
              request.extra_payload)
        × (r.outbox_event ≡ build_outbox_event x fresh r.envelope "payments.events")
  unfolding process_found
  process_found_event none r writes h = absurd (ground arith)
  process_found_event (some old) r writes h = (ground arith, ground arith)

  pub process_payment_event :
      (k : Keys) (t : Table Payment) (before after : Io) (others : k.Store → k.Store)
      (payments : t.Store) (b b' : Breaker) (s s' : k.Store) (r : ProcessPaymentResult)
      (writes : List Write)
      → process_payment k t x fresh request before after others payments b s
        ≡ (ok r, writes, b', s')
      → (r.envelope
          ≡ build_payment_event x fresh r.payment
              (payment_event_type request.new_status)
              request.extra_payload)
        × (r.outbox_event ≡ build_outbox_event x fresh r.envelope "payments.events")
  unfolding process_payment idempotency_lock
  process_payment_event k t before after others payments b b' s s' r writes h =
      process_found_event (t.find payments request.payment_id) r writes (ground arith)

module _ (x : Text) (fresh : Fresh) where
  -- The parts of an event and of its row that the relay and the consumer read.
  pub build_payment_event_type :
      (payment : Payment) (event_type : String) (extra : Option Fields)
      → (build_payment_event x fresh payment event_type extra).event_type ≡ event_type
  unfolding build_payment_event
  build_payment_event_type payment event_type extra = refl

  pub build_outbox_event_row :
      (envelope : EventEnvelope) (topic : String)
      → let row = build_outbox_event x fresh envelope topic in
        (row.topic ≡ topic) × (row.payload ≡ x.model_dump envelope)
  unfolding build_outbox_event
  build_outbox_event_row envelope topic = (refl, refl)

  -- The order that the extra fields name is the one that the consumer reads.
  pub build_payment_event_order :
      (parse : String → Option ℕ) (payment : Payment) (event_type : String) (extra : Fields)
      (name : String)
      → Distinct extra
      → get "order_id" extra ≡ some (str name)
      → order_id_of parse (build_payment_event x fresh payment event_type (some extra))
        ≡ ok (parse name)
  unfolding order_id_of build_payment_event
  build_payment_event_order parse payment event_type extra name distinct named =
      ground (arith, get-update "order_id" (base_payload x fresh payment) extra distinct)

classify-err : (e : Exn) → classify (err e) ≢ sent
unfolding classify
classify-err e h = ground arith

-- A publish that the relay counts as sent was one that the broker took.
publish_outcome-sent :
    (envelope : EventEnvelope) (r : Kafka RecordMetadata)
    → classify (publish_outcome envelope r >>= λ _. ok tt) ≡ sent
    → (meta : RecordMetadata) × (r ≡ done meta)
unfolding publish_outcome
publish_outcome-sent envelope (done meta) h = (meta, refl)
publish_outcome-sent envelope timeout_error h = absurd (classify-err broker_unavailable h)
publish_outcome-sent envelope connection_error h = absurd (classify-err broker_unavailable h)
publish_outcome-sent envelope kafka_error h = absurd (classify-err infrastructure h)
publish_outcome-sent envelope (raised e) h = absurd (classify-err e h)

module _ (x : Text) (wire : Wire) (model_validate : Json → Option EventEnvelope)
    (from_bytes : String → Option EventEnvelope) (send : Message → Kafka RecordMetadata)
    (producer : KafkaProducer) (envelope : EventEnvelope) where
  -- A row that the relay counts as sent is one whose message the broker acknowledged.
  sent_message :
      (row : OutboxEvent)
      → row.payload ≡ x.model_dump envelope
      → Relays x wire model_validate from_bytes send producer row envelope
      → (meta : RecordMetadata) × (send (relay_message wire envelope row) ≡ done meta)
  unfolding publish_one publish relay_message
  sent_message row dumped relays =
      let loaded : model_validate row.payload ≡ some envelope = rw dumped relays.loads in
      let down = classify-err broker_unavailable in
      publish_outcome-sent envelope (send (relay_message wire envelope row))
        (ground (arith, relays.taken, down))

  -- A row that was sent reaches the consumer as its topic and the bytes of its envelope.
  pub relayed :
      (row : OutboxEvent) (d : Delivery)
      → row.payload ≡ x.model_dump envelope
      → Relays x wire model_validate from_bytes send producer row envelope
      → Stores send (relay_message wire envelope row) d
      → (d.message.topic ≡ row.topic) × (d.message.value ≡ some (wire.to_bytes envelope))
  unfolding relay_message
  relayed row d dumped relays stores =
      let (meta, here) = sent_message row dumped relays in stores meta here
