-- ===== src/Application/Lifespan.antt =====
-- What the start and the shutdown of src/main.py come to.
use nimbus_commerce_platform.Common.{
  ◌≡◌, Bool, true, false, ◌&&◌, ◌||◌, Option, none, some, arith, inl, inr,
}
use nimbus_commerce_platform.Errors.{Result-cases, Exn, ok, err, is_exception, is_ok, is_survived}
use nimbus_commerce_platform.Messaging.Producer.{Kafka, done, raised, KafkaProducer, new_producer}
use nimbus_commerce_platform.Messaging.Producer as Producer
use nimbus_commerce_platform.Consumer.Worker.{Worker}
use nimbus_commerce_platform.Application.{
  App, Startup, startup, start_relay, start_consumer, Shutdown, shutdown, stop_relay,
}
use nimbus_commerce_platform.Tasks.{Life, Task, is_running, in_time, late}

-- Where the relay and the consumer have tasks, the relay's ends without an exception in time, and
-- stopping the producer raises an `Exception`: the shutdown returns as if all were well, and the
-- consumer is as it was, its task and its client still held.
shutdown_leaves_consumer :
    {Db : Type 0} (x : Shutdown) (a : App Db) (l : Life) (w : Worker Db) (e : Exn)
    → a.relay ≡ some l
    → a.order_consumer ≡ some w
    → x.relay_waited ≡ in_time (ok tt)
    → x.get_producer ≡ ok tt
    → (Producer.stop x.flushed x.stopped a.producer).0 ≡ err e
    → is_exception e ≡ true
    → ((shutdown x a).0 ≡ ok tt) × ((shutdown x a).1.order_consumer ≡ some w)
unfolding shutdown
shutdown_leaves_consumer x a l w e r c t g s q = (ground arith, ground arith)

abbrev has_task : Option Life → Bool
has_task none = false
has_task (some l) = elim l.task [ none ↦ false | some _ ↦ true ]

abbrev pub life_of : {Db : Type 0} → Option (Worker Db) → Option Life
life_of none = none
life_of (some w) = some w.life

-- What is left behind: a task of the relay, a started producer or a task of the consumer.
abbrev pub leaves : {Db : Type 0} → App Db → Bool
leaves a = has_task a.relay || a.producer.started || has_task (life_of a.order_consumer)

-- Where stopping the relay and stopping the producer return, and the stop of the consumer's client
-- raises nothing but an `Exception`, nothing is left behind, however the consumer's task ends.
shutdown_clean :
    {Db : Type 0} (x : Shutdown) (a : App Db)
    → is_ok (stop_relay x a).0 ≡ true
    → x.get_producer ≡ ok tt
    → is_ok (Producer.stop x.flushed x.stopped a.producer).0 ≡ true
    → is_survived x.consumer_stopped ≡ true
    → leaves (shutdown x a).1 ≡ false
unfolding shutdown
shutdown_clean x a r g p c = ground arith

abbrev pub runs : Option Life → Bool
runs none = false
runs (some l) = is_running l

start_relay-runs :
    {Db : Type 0} (s : Startup Db) (p : KafkaProducer)
    → is_survived s.get_producer ≡ true
    → is_survived (Producer.start s.client p).0 ≡ true
    → is_survived s.get_engine ≡ true
    → (r : Option Life) × ((start_relay s p).0 ≡ ok r)
      × (runs r ≡ (
          s.outbox_relay_enabled
          && is_ok s.get_producer
          && is_ok (Producer.start s.client p).0
          && is_ok s.get_engine))
unfolding start_relay
start_relay-runs s p g c e = elim (Result-cases (start_relay s p).0) [
  | inl (r, q) ↦ (r, q, ground arith)
  | inr (x, q) ↦ absurd (ground arith)
]

start_consumer-runs :
    {Db : Type 0} (s : Startup Db)
    → is_survived s.build_consumer ≡ true
    → (c : Option (Worker Db)) × (start_consumer s ≡ ok c)
      × (runs (life_of c) ≡ (s.kafka_consumer_enabled && is_ok s.build_consumer))
unfolding start_consumer
start_consumer-runs s b = elim (Result-cases (start_consumer s)) [
  | inl (c, q) ↦ (c, q, ground arith)
  | inr (x, q) ↦ absurd (ground arith)
]

-- Where the clients of Redis are there and every step that fails raises an `Exception`, the start
-- goes through. It leaves a running relay exactly where the settings enable it and the producer, its
-- client and the engine are there, and a running consumer exactly where the settings enable it and it
-- was built.
startup_degrades :
    {Db : Type 0} (s : Startup Db) (p : KafkaProducer)
    → s.abuse ≡ ok tt
    → is_survived s.get_producer ≡ true
    → is_survived (Producer.start s.client p).0 ≡ true
    → is_survived s.get_engine ≡ true
    → is_survived s.build_consumer ≡ true
    → (a : App Db) × (startup s p ≡ ok a)
      × (runs a.relay ≡ (
          s.outbox_relay_enabled
          && is_ok s.get_producer
          && is_ok (Producer.start s.client p).0
          && is_ok s.get_engine))
      × (runs (life_of a.order_consumer) ≡ (s.kafka_consumer_enabled && is_ok s.build_consumer))
unfolding startup
startup_degrades s p u g c e b =
    let (r, relay, r_runs) = start_relay-runs s p g c e in
    let (w, consumer, w_runs) = start_consumer-runs s b in
    (
      record { relay = r; producer = (start_relay s p).1; order_consumer = w },
      ground arith,
      r_runs,
      w_runs,
    )

-- Where the relay's task does not end in time and its cancellation goes through as a cancellation, the
-- shutdown raises the cancellation, and neither the producer nor the consumer is touched.
pub shutdown_late_relay :
    {Db : Type 0} (x : Shutdown) (a : App Db) (l : Life) (task : Task) (e : Exn)
    → a.relay ≡ some l
    → l.task ≡ some task
    → x.relay_waited ≡ late
    → x.relay_ending ≡ err e
    → is_exception e ≡ false
    → ((shutdown x a).0 ≡ err e)
      × ((shutdown x a).1.producer ≡ a.producer)
      × ((shutdown x a).1.order_consumer ≡ a.order_consumer)
unfolding shutdown
shutdown_late_relay x a l task e r t w n q = (ground arith, ground arith, ground arith)
