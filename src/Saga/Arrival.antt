-- ===== src/Saga/Arrival.antt =====
-- What the consumer of the orders makes of an event that the relay has sent, in any number of deliveries.
use nimbus_commerce_platform.Common.{
  ℕ, ◌≡◌, ◌≢◌, refl, ◌∙◌, String, Option, none, List, [], ◌∷◌, All, arith, str_eq, str_eq_iff,
  false,
}
use nimbus_commerce_platform.Storage.{Keys, Table, answers}
use nimbus_commerce_platform.Breaker.{closed}
use nimbus_commerce_platform.Messaging.Envelope.{Json, EventEnvelope, content_hash}
use nimbus_commerce_platform.Messaging.Producer.{
  Kafka, Message, RecordMetadata, Wire, KafkaProducer,
}
use nimbus_commerce_platform.Payments.Models.{Payment, OutboxEvent, PaymentStatus, captured}
use nimbus_commerce_platform.Payments.Models as Payments
use nimbus_commerce_platform.Payments.Service.{Text, payment_event_type}
use nimbus_commerce_platform.Inventory.{Stock}
use nimbus_commerce_platform.Consumer.{Delivery, World, KafkaConsumer, run_handler}
use nimbus_commerce_platform.Consumer.Worker.{start}
use nimbus_commerce_platform.Consumer.Redelivery.{Delivers, handle_all, key_of, handle_all_once}
use nimbus_commerce_platform.Orders.Services.{Order}
use nimbus_commerce_platform.Orders.Handlers.{Tables}
use nimbus_commerce_platform.Orders.Handlers.Redelivered.{order_consumer}
use nimbus_commerce_platform.Saga.{relay_message, Stores, Relays}
use nimbus_commerce_platform.Saga.Journey.{relayed}

differ : (a b : String) → str_eq a b ≡ false → a ≢ b
differ a b h = ground (arith, str_eq_iff a b)

-- The type of the event tells the statuses apart that the consumer knows.
pub event_type_other :
    (s : PaymentStatus)
    → s ≢ captured
    → s ≢ Payments.failed
    → (payment_event_type s ≢ "payments.payment_captured")
      × (payment_event_type s ≢ "payments.payment_failed")
event_type_other Payments.pending a b = (differ _ _ refl, differ _ _ refl)
event_type_other Payments.authorized a b = (differ _ _ refl, differ _ _ refl)
event_type_other captured a b = absurd (a refl)
event_type_other Payments.settled a b = (differ _ _ refl, differ _ _ refl)
event_type_other Payments.refunded a b = (differ _ _ refl, differ _ _ refl)
event_type_other Payments.declined a b = (differ _ _ refl, differ _ _ refl)
event_type_other Payments.failed a b = absurd (b refl)

module _ (t : Table Order) (u : Table Stock) (parse : String → Option ℕ) (x : Text) (wire : Wire)
    (model_validate : Json → Option EventEnvelope) (from_bytes : String → Option EventEnvelope)
    (send : Message → Kafka RecordMetadata) (producer : KafkaProducer) (k : Keys) where
  -- A delivery of the message of a row, to the consumer of the orders, with Redis answering.
  abbrev pub Received : EventEnvelope → OutboxEvent → Delivery → Type 0
  Received envelope row d = Stores send (relay_message wire envelope row) d × (d.io.link ≡ answers)

  abbrev pub consumer : KafkaConsumer (Tables t u)
  consumer = order_consumer t u parse from_bytes x.digest

  module _ (envelope : EventEnvelope) where
    -- The tables of the orders and of the stock after the deliveries of the envelope.
    abbrev pub db_after : List Delivery → World k (Tables t u) → Tables t u
    db_after ds w = (handle_all k consumer envelope ds w).db

    -- The relay has sent the row of the envelope, which has an id; all deliveries are received, the
    -- breaker is closed, and the event is new to the consumer.
    pub record Arrives (row : OutboxEvent) (d : Delivery) (ds : List Delivery)
        (w : World k (Tables t u)) : Type 0 where
      pub relays : Relays x wire model_validate from_bytes send producer row envelope
      pub named : content_hash x.digest envelope ≢ ""
      pub first : Received envelope row d
      pub again : All (Received envelope row) ds
      pub shut : w.breaker.state ≡ closed
      pub free : k.get w.keys (key_of k consumer envelope) ≡ none

    module _ (row : OutboxEvent) (payload : row.payload ≡ x.model_dump envelope)
        (relays : Relays x wire model_validate from_bytes send producer row envelope)
        (named : content_hash x.digest envelope ≢ "") where
      Received-Delivers :
          (d : Delivery)
          → Received envelope row d
          → Delivers k consumer envelope d (wire.to_bytes envelope)
      unfolding start
      Received-Delivers d (stored, up) = record {
        ready = refl;
        value =
            (relayed x wire model_validate from_bytes send producer envelope row d payload relays
              stored).1;
        parsed = relays.decodes;
        named = named;
        up = up;
      }

      Received-All :
          (ds : List Delivery)
          → All (Received envelope row) ds
          → All (λ d. (bytes : String) × Delivers k consumer envelope d bytes) ds
      Received-All [] h = tt
      Received-All (d ∷ ds) (h, hs) =
          ((wire.to_bytes envelope, Received-Delivers d h), Received-All ds hs)

    -- Only the first delivery reaches the tables, on the topic of the payments.
    pub first_delivery_counts :
        (row : OutboxEvent) (d : Delivery) (ds : List Delivery) (w : World k (Tables t u))
        → row.topic ≡ "payments.events"
        → row.payload ≡ x.model_dump envelope
        → Arrives row d ds w
        → (d.message.topic ≡ "payments.events")
          × (db_after (d ∷ ds) w ≡ (run_handler k consumer d envelope w).1.db)
    first_delivery_counts row d ds w topic payload a = (
      (relayed x wire model_validate from_bytes send producer envelope row d payload a.relays
            a.first.0).0
          ∙ topic,
      handle_all_once k consumer envelope d ds (wire.to_bytes envelope) w
          (Received-Delivers row payload a.relays a.named d a.first)
          (Received-All row payload a.relays a.named ds a.again) a.shut a.free,
    )
