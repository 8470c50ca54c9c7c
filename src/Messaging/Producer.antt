-- ===== src/Messaging/Producer.antt =====
-- `KafkaProducer` of src/core/messaging.py. The aiokafka client is a parameter: what `send` and the
-- future it returns come to, and how its `start`, `flush` and `stop` end.
pub mod Lifecycle
use nimbus_commerce_platform.Common.{
  ℕ, String, Bool, true, false, Option, none, some, List, [], ◌∷◌, ◌++◌, str_eq, if◌then◌else◌,
}
use nimbus_commerce_platform.Errors.{
  Exn, Result, ok, err, ◌>>=◌, broker_unavailable, infrastructure,
}
use nimbus_commerce_platform.Messaging.Envelope.{EventEnvelope}

-- How a call of aiokafka ends: with a value, with one of the three classes of aiokafka that the code
-- tells apart, or with an exception that is no KafkaError.
pub data Kafka (A : Type 0) : Type 0 where
  done : A → Kafka A
  timeout_error connection_error kafka_error : Kafka A
  raised : Exn → Kafka A

-- What `send` is given.
pub record Message : Type 0 where
  pub topic : String
  pub value : String
  pub key : String
  pub headers : List (String × String)

pub record RecordMetadata : Type 0 where
  pub topic : String
  pub partition : ℕ
  pub offset : ℕ

pub record PublishResult : Type 0 where
  pub topic : String
  pub partition : ℕ
  pub offset : ℕ
  pub event_id : ℕ

-- `to_bytes` of an envelope, and `str` of its id and of its version; texts stand for their bytes.
pub record Wire : Type 0 where
  pub to_bytes : EventEnvelope → String
  pub str_uuid : ℕ → String
  pub str_int : ℕ → String

-- `self._started` and whether `self._producer` is set.
pub record KafkaProducer : Type 0 where
  pub started : Bool
  pub has_producer : Bool

abbrev pub new_producer : KafkaProducer
new_producer = record { started = false; has_producer = false }

-- `key or envelope.aggregate_id`: an empty key counts as none.
abbrev pub effective_key : Option String → EventEnvelope → String
effective_key none envelope = envelope.aggregate_id
effective_key (some key) envelope = if str_eq key "" then envelope.aggregate_id else key

abbrev pub headers_or_empty : Option (List (String × String)) → List (String × String)
headers_or_empty none = []
headers_or_empty (some headers) = headers

-- The message that `publish` hands to aiokafka.
unfoldable pub wire_message :
    Wire → EventEnvelope → String → Option String → Option (List (String × String)) → Message
wire_message w envelope topic key headers = record {
  topic = topic;
  value = w.to_bytes envelope;
  key = effective_key key envelope;
  headers =
      headers_or_empty headers
      ++ (("event_id", w.str_uuid envelope.event_id)
          ∷ ("event_type", envelope.event_type)
          ∷ ("schema_version", w.str_int envelope.schema_version)
          ∷ []);
}

-- The `except` clauses of `publish`.
unfoldable pub publish_outcome : EventEnvelope → Kafka RecordMetadata → Result PublishResult
publish_outcome envelope (done m) = ok (record {
  topic = m.topic;
  partition = m.partition;
  offset = m.offset;
  event_id = envelope.event_id;
})
publish_outcome envelope timeout_error = err broker_unavailable
publish_outcome envelope connection_error = err broker_unavailable
publish_outcome envelope kafka_error = err infrastructure
publish_outcome envelope (raised e) = err e

module _ (w : Wire) (send : Message → Kafka RecordMetadata) (p : KafkaProducer) where
  unfoldable pub publish :
      EventEnvelope
      → String
      → Option String
      → Option (List (String × String))
      → Result PublishResult
  unfolding wire_message publish_outcome
  publish envelope topic key headers =
      if p.started
      then (if p.has_producer
          then publish_outcome envelope (send (wire_message w envelope topic key headers))
          else err broker_unavailable)
      else err broker_unavailable

  -- Stops at the first publish that raises.
  unfoldable pub publish_many : List (EventEnvelope × String) → Result (List PublishResult)
  publish_many [] = ok []
  publish_many ((envelope, topic) ∷ rest) = do
    result ← publish envelope topic none none
    results ← publish_many rest
    ok (result ∷ results)

-- `start`, where `client` is how the start of a new aiokafka producer ends.
unfoldable pub start : Kafka (Unit {0}) → KafkaProducer → Result (Unit {0}) × KafkaProducer
start client p = if p.started then (ok tt, p) else elim client [
  | done _ ↦ (ok tt, record { started = true; has_producer = true })
  | raised e ↦ (err e, p)
  | _ ↦ (err broker_unavailable, p)
]

-- `stop`: the client is stopped and dropped also when its flush raises; an exception of the client's own `stop`
-- leaves the fields as they were.
unfoldable pub stop :
    Result (Unit {0}) → Result (Unit {0}) → KafkaProducer → Result (Unit {0}) × KafkaProducer
stop flushed stopped p =
    if p.started
    then elim stopped [ ok _ ↦ (flushed, new_producer) | err e ↦ (err e, p) ]
    else (ok tt, p)

-- `health_check`; `partitions` is what `partitions_for` comes to.
unfoldable pub health_check : Result (Option ℕ) → KafkaProducer → Bool
health_check partitions p =
    if p.started
    then (if p.has_producer
        then elim partitions [ ok (some _) ↦ true | ok none ↦ false | err _ ↦ false ]
        else false)
    else false

-- `get_producer`, by how the construction ends, on the producer of the process.
unfoldable pub get_producer :
    Result (Unit {0}) → Option KafkaProducer → Result KafkaProducer × Option KafkaProducer
get_producer built (some p) = (ok p, some p)
get_producer built none = elim built [
  | ok _ ↦ (ok new_producer, some new_producer)
  | err e ↦ (err e, none)
]

-- `dispose_producer`: a `stop` that raises leaves the producer of the process in place.
unfoldable pub dispose_producer :
    Result (Unit {0})
    → Result (Unit {0})
    → Option KafkaProducer
    → Result (Unit {0}) × Option KafkaProducer
unfolding stop
dispose_producer flushed stopped none = (ok tt, none)
dispose_producer flushed stopped (some p) =
    let (r, p') = stop flushed stopped p in
    elim r [ ok _ ↦ (ok tt, none) | err e ↦ (err e, some p') ]
