-- ===== src/Application.antt =====
-- The lifespan of the application in src/main.py: how the relay, the producer and the consumer of the
-- orders are started and stopped.
pub mod Lifespan
pub mod Probes
use nimbus_commerce_platform.Common.{String, Bool, true, false, Option, none, some, if◌then◌else◌}
use nimbus_commerce_platform.Errors.{Exn, Result, ok, err, ◌>>=◌, is_exception}
use nimbus_commerce_platform.Messaging.Producer.{Kafka, KafkaProducer}
use nimbus_commerce_platform.Messaging.Producer as Producer
use nimbus_commerce_platform.Relay.Worker as Relay
use nimbus_commerce_platform.Consumer.{Handler}
use nimbus_commerce_platform.Consumer.Worker.{Worker}
use nimbus_commerce_platform.Consumer.Worker as Consumer
use nimbus_commerce_platform.Tasks.{Life, new_life, Waited, suppress}

-- The relay and the consumer that the lifespan holds, and the producer of the process.
pub record App (Db : Type 0) : Type 0 where
  pub relay : Option Life
  pub producer : KafkaProducer
  pub order_consumer : Option (Worker Db)

-- What the start meets: the clients of Redis, the producer's construction and its client, the
-- engine, and the construction of the consumer, with the two settings.
pub record Startup (Db : Type 0) : Type 0 where
  pub outbox_relay_enabled : Bool
  pub kafka_consumer_enabled : Bool
  pub abuse : Result (Unit {0})
  pub get_producer : Result (Unit {0})
  pub client : Kafka (Unit {0})
  pub get_engine : Result (Unit {0})
  pub build_consumer : Result (Worker Db)
  pub register_handlers :
      (String → String → Option (Handler Db)) → String → String → Option (Handler Db)

-- `except Exception`: the exception is logged and there is no worker.
abbrev pub degrade : {A : Type 0} → Result A → Result (Option A)
degrade (ok a) = ok (some a)
degrade (err e) = if is_exception e then ok none else err e

-- The start of the relay: the producer is started first, and stays so when a later step fails.
unfoldable pub start_relay :
    {Db : Type 0} → Startup Db → KafkaProducer → Result (Option Life) × KafkaProducer
unfolding Producer.start Relay.start
start_relay s p = elim s.outbox_relay_enabled [
  | false ↦ (ok none, p)
  | true ↦ elim s.get_producer [
    | err e ↦ (degrade (err e), p)
    | ok _ ↦
        let (started, p') = Producer.start s.client p in
        (degrade (started >>= λ _. s.get_engine >>= λ _. ok (Relay.start true new_life)), p')
  ]
]

unfoldable pub start_consumer : {Db : Type 0} → Startup Db → Result (Option (Worker Db))
unfolding Consumer.start
start_consumer s = elim s.kafka_consumer_enabled [
  | false ↦ ok none
  | true ↦ degrade (s.build_consumer >>= λ w. ok (Consumer.start true s.register_handlers w))
]

-- The part of `lifespan` before its `yield`.
unfoldable pub startup : {Db : Type 0} → Startup Db → KafkaProducer → Result (App Db)
unfolding start_relay start_consumer
startup s p = s.abuse >>= λ _.
    let (relay, p') = start_relay s p in
    relay >>= λ r.
    start_consumer s >>= λ c. ok (record { relay = r; producer = p'; order_consumer = c })

-- What the shutdown meets: how the waits for the two tasks, the flush and the stop of the producer's
-- client and the stop of the consumer's client end.
pub record Shutdown : Type 0 where
  pub relay_waited : Waited
  pub relay_ending : Result (Unit {0})
  pub get_producer : Result (Unit {0})
  pub flushed : Result (Unit {0})
  pub stopped : Result (Unit {0})
  pub consumer_waited : Waited
  pub consumer_ending : Result (Unit {0})
  pub consumer_stopped : Result (Unit {0})

unfoldable pub stop_consumer : {Db : Type 0} → Shutdown → App Db → Result (Unit {0}) × App Db
unfolding Consumer.stop
stop_consumer x a = elim a.order_consumer [
  | none ↦ (ok tt, a)
  | some w ↦
      let (r, w') = Consumer.stop x.consumer_waited x.consumer_ending x.consumer_stopped w in
      (r, record a { order_consumer = some w' })
]

unfoldable pub stop_relay : {Db : Type 0} → Shutdown → App Db → Result (Unit {0}) × App Db
unfolding Relay.stop
stop_relay x a = elim a.relay [
  | none ↦ (ok tt, a)
  | some l ↦
      let (r, l') = Relay.stop x.relay_waited x.relay_ending l in (r, record a { relay = some l' })
]

-- The body of the `try` of the shutdown: the producer, and after it the consumer.
unfoldable pub stop_clients : {Db : Type 0} → Shutdown → App Db → Result (Unit {0}) × App Db
unfolding Producer.stop stop_consumer
stop_clients x a = elim x.get_producer [
  | err e ↦ (err e, a)
  | ok _ ↦
      let (r, p') = Producer.stop x.flushed x.stopped a.producer in
      elim r [
        | err e ↦ (err e, record a { producer = p' })
        | ok _ ↦ stop_consumer x (record a { producer = p' })
      ]
]

-- The part of `lifespan` after its `yield`.
unfoldable pub shutdown : {Db : Type 0} → Shutdown → App Db → Result (Unit {0}) × App Db
unfolding stop_relay stop_clients
shutdown x a =
    let (r, a') = stop_relay x a in
    elim r [ err e ↦ (err e, a') | ok _ ↦ let (c, a'') = stop_clients x a' in (suppress c, a'') ]
