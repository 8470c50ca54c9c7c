-- ===== src/Saga.antt =====
-- The saga across the modules: an event of src/modules/payments/services.py from the outbox, through the
-- relay of src/workers/outbox_relay.py and Kafka, to the consumer of src/modules/orders/consumer.py.
pub mod Journey
pub mod Arrival
pub mod Outcomes
use nimbus_commerce_platform.Common.{String, ◌≡◌, Option, some, [], ◌∷◌}
use nimbus_commerce_platform.Messaging.Envelope.{Json, EventEnvelope}
use nimbus_commerce_platform.Messaging.Producer.{
  Kafka, done, Message, RecordMetadata, Wire, KafkaProducer, wire_message,
}
use nimbus_commerce_platform.Payments.Models.{OutboxEvent}
use nimbus_commerce_platform.Payments.Service.{Text}
use nimbus_commerce_platform.Consumer.{Delivery}
use nimbus_commerce_platform.Relay.{classify, publish_one, sent}

-- The message that the relay hands to the broker for a row of the outbox.
unfoldable pub relay_message : Wire → EventEnvelope → OutboxEvent → Message
unfolding wire_message
relay_message wire envelope row =
    wire_message wire envelope row.topic (some envelope.aggregate_id)
      (some (("outbox_id", wire.str_uuid row.id) ∷ ("aggregate_type", row.aggregate_type) ∷ []))

-- The record that is delivered is the one that the broker stored when it acknowledged this message.
-- Nothing is said of the other messages that it acknowledges.
abbrev pub Stores : (Message → Kafka RecordMetadata) → Message → Delivery → Type 0
Stores send m d =
    (meta : RecordMetadata)
    → send m ≡ done meta
    → (d.message.topic ≡ m.topic) × (d.message.value ≡ some m.value)

-- The envelope survives its two codings, as a JSON column and as bytes, and the relay sends the row.
pub record Relays (x : Text) (wire : Wire) (model_validate : Json → Option EventEnvelope)
    (from_bytes : String → Option EventEnvelope) (send : Message → Kafka RecordMetadata)
    (producer : KafkaProducer) (row : OutboxEvent) (envelope : EventEnvelope) : Type 0 where
  pub loads : model_validate (x.model_dump envelope) ≡ some envelope
  pub decodes : from_bytes (wire.to_bytes envelope) ≡ some envelope
  pub taken : classify (publish_one model_validate wire send producer row) ≡ sent
