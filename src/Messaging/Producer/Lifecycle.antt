-- ===== src/Messaging/Producer/Lifecycle.antt =====
-- The producer of src/core/messaging.py over its life, and what its publishes tell the caller.
use nimbus_commerce_platform.Common.{
  ℕ, ◌≡◌, refl, true, false, String, Option, none, some, List, [], ◌∷◌, map, arith, Bool-cases, inl,
  inr,
}
use nimbus_commerce_platform.Errors.{Result-cases, Result, ok, err, broker_unavailable}
use nimbus_commerce_platform.Messaging.Envelope.{EventEnvelope}
use nimbus_commerce_platform.Messaging.Producer.{
  Kafka, done, Message, RecordMetadata, PublishResult, Wire, KafkaProducer, new_producer,
  wire_message, publish_outcome, publish, publish_many, start, stop, health_check,
}

-- A call that changes the producer, with what the client comes to in it.
pub data Call : Type 0 where
  starting : Kafka (Unit {0}) → Call
  stopping : Result (Unit {0}) → Result (Unit {0}) → Call

abbrev step : Call → KafkaProducer → KafkaProducer
step (starting client) p = (start client p).1
step (stopping flushed stopped) p = (stop flushed stopped p).1

abbrev pub run : List Call → KafkaProducer → KafkaProducer
run [] p = p
run (c ∷ rest) p = run rest (step c p)

step-has_producer :
    (c : Call) (p : KafkaProducer)
    → p.started ≡ p.has_producer
    → (step c p).started ≡ (step c p).has_producer
unfolding start stop
step-has_producer (starting client) p h = ground arith
step-has_producer (stopping flushed stopped) p h = ground arith

run-has_producer :
    (cs : List Call) (p : KafkaProducer)
    → p.started ≡ p.has_producer
    → (run cs p).started ≡ (run cs p).has_producer
run-has_producer [] p h = h
run-has_producer (c ∷ rest) p h = run-has_producer rest (step c p) (step-has_producer c p h)

-- After any starts and stops, failed ones included, a new producer is marked as started exactly when
-- it holds a client.
pub run-new_has_producer :
    (cs : List Call) → (run cs new_producer).started ≡ (run cs new_producer).has_producer
run-new_has_producer cs = run-has_producer cs new_producer refl

module _ (w : Wire) (send : Message → Kafka RecordMetadata) where
  -- What a publish that returns stands on: a started producer, and an acknowledgement of the message
  -- that the envelope, the topic, the key and the headers make.
  pub record Acknowledged (p : KafkaProducer) (envelope : EventEnvelope) (topic : String)
      (key : Option String) (headers : Option (List (String × String))) (r : PublishResult)
      : Type 0 where
    pub started : p.started ≡ true
    pub at : RecordMetadata
    pub acknowledged : send (wire_message w envelope topic key headers) ≡ done at
    pub event_id : r.event_id ≡ envelope.event_id
    pub offset : r.offset ≡ at.offset

  publish_outcome-done :
      (envelope : EventEnvelope) (k : Kafka RecordMetadata) (r : PublishResult)
      → publish_outcome envelope k ≡ ok r
      → (m : RecordMetadata) × (k ≡ done m)
        × (r.event_id ≡ envelope.event_id)
        × (r.offset ≡ m.offset)
  unfolding publish_outcome
  publish_outcome-done envelope (done m) r h = (m, refl, ground arith, ground arith)
  publish_outcome-done envelope _ r h = absurd (ground arith)

  -- A publish returns only from a started producer and only after the broker has acknowledged the
  -- message; its result carries the id of the envelope and the offset that the broker gave.
  pub publish-Acknowledged :
      (p : KafkaProducer) (envelope : EventEnvelope) (topic : String) (key : Option String)
      (headers : Option (List (String × String))) (r : PublishResult)
      → publish w send p envelope topic key headers ≡ ok r
      → Acknowledged p envelope topic key headers r
  unfolding publish
  publish-Acknowledged p envelope topic key headers r h = elim (Bool-cases p.started) [
    | inr f ↦ absurd (ground arith)
    | inl s ↦ elim (Bool-cases p.has_producer) [
      | inr f ↦ absurd (ground arith)
      | inl c ↦
          let (m, sent, id, offset) =
            publish_outcome-done envelope (send (wire_message w envelope topic key headers)) r
              (ground arith) in
          record { started = s; at = m; acknowledged = sent; event_id = id; offset = offset }
    ]
  ]

  -- `publish_many` that returns has one result for each pair, in their order.
  pub publish_many-event_ids :
      (p : KafkaProducer) (xs : List (EventEnvelope × String)) (rs : List PublishResult)
      → publish_many w send p xs ≡ ok rs
      → map (λ r. r.event_id) rs ≡ map (λ x. (x.0).event_id) xs
  unfolding publish_many
  publish_many-event_ids p [] rs h = ground arith
  publish_many-event_ids p ((envelope, topic) ∷ rest) rs h =
      elim (Result-cases (publish w send p envelope topic none none)) [
        | inr (e, q) ↦ absurd (ground arith)
        | inl (r, q) ↦ elim (Result-cases (publish_many w send p rest)) [
          | inr (e, q') ↦ absurd (ground arith)
          | inl (results, q') ↦ ground (
            arith,
            publish_many-event_ids p rest results q',
            (publish-Acknowledged p envelope topic none none r q).event_id,
          )
        ]
      ]

-- After a stop whose client stops, whatever its flush came to, a publish is refused before the
-- client is reached and the health check says no; a start that goes through makes it healthy again.
pub stop-start :
    (w : Wire) (send : Message → Kafka RecordMetadata) (p : KafkaProducer)
    (flushed : Result (Unit {0})) (envelope : EventEnvelope) (topic : String) (n : ℕ)
    → ((publish w send (stop flushed (ok tt) p).1 envelope topic none none ≡ err broker_unavailable)
        × (health_check (ok (some n)) (stop flushed (ok tt) p).1 ≡ false))
      × (health_check (ok (some n)) (start (done tt) (stop flushed (ok tt) p).1).1 ≡ true)
unfolding stop start publish health_check
stop-start w send p flushed envelope topic n = ((ground arith, ground arith), ground arith)
