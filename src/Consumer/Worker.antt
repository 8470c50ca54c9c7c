-- ===== src/Consumer/Worker.antt =====
-- The background task of `KafkaConsumer` of src/core/consumer.py: `start`, `stop`, the connection and
-- the loop around the polls.
pub mod Loop
use nimbus_commerce_platform.Common.{
  ℕ, String, Bool, true, false, Option, none, some, List, [], ◌∷◌, if◌then◌else◌,
}
use nimbus_commerce_platform.Errors.{Exn, Result, ok, err, ◌>>=◌, broker_unavailable, is_exception}
use nimbus_commerce_platform.Storage.{Keys}
use nimbus_commerce_platform.Messaging.Producer.{
  Kafka, done, timeout_error, connection_error, kafka_error, raised,
}
use nimbus_commerce_platform.Consumer.{KafkaConsumer, Delivery, World, Handler, poll_and_dispatch}
use nimbus_commerce_platform.Tasks.{
  Life, Task, running, is_running, Waited, await_end, suppress, Wake, sleep,
}

-- What the background task adds to the consumer: its life, and whether `self._consumer` is set.
pub record Worker (Db : Type 0) : Type 0 where
  pub life : Life
  pub has_client : Bool
  pub consumer : KafkaConsumer Db

-- `start`: `_register_handlers` of the subclass is an argument, on the handlers so far.
unfoldable pub start :
    {Db : Type 0}
    → Bool
    → ((String → String → Option (Handler Db)) → String → String → Option (Handler Db))
    → Worker Db
    → Worker Db
start enabled register_handlers w =
    if is_running w.life
    then w
    else (if enabled
        then record w {
          life = record { task = some running; stop_event = false };
          consumer = record (w.consumer) {
            has_dedupe = true;
            handlers = register_handlers w.consumer.handlers;
          };
        }
        else w)

-- `_close_consumer`, by how the `stop` of the client ends.
unfoldable pub close_consumer :
    {Db : Type 0} → Result (Unit {0}) → Worker Db → Result (Unit {0}) × Worker Db
close_consumer stopped w = elim w.has_client [
  | false ↦ (ok tt, w)
  | true ↦ elim (suppress stopped) [
    | ok _ ↦ (ok tt, record w { has_client = false })
    | err e ↦ (err e, w)
  ]
]

-- The `finally` of `stop`: an exception that closing the client raises takes the place of the one
-- that is under way, and then the task is not forgotten.
unfoldable pub stop :
    {Db : Type 0}
    → Waited
    → Result (Unit {0})
    → Result (Unit {0})
    → Worker Db
    → Result (Unit {0}) × Worker Db
unfolding close_consumer
stop waited ending stopped w = elim w.life.task [
  | none ↦ (ok tt, w)
  | some task ↦
      let w' = record w { life = record (w.life) { stop_event = true } } in
      let (closed, w'') = close_consumer stopped w' in
      elim closed [
        | err e ↦ (err e, w'')
        | ok _ ↦ (
          await_end waited ending,
          record w'' { life = record { task = none; stop_event = true } },
        )
      ]
]

-- The `start` of the client: every class of a KafkaError becomes a BrokerUnavailableError.
abbrev pub connected : Kafka (Unit {0}) → Result (Unit {0})
connected (done _) = ok tt
connected timeout_error = err broker_unavailable
connected connection_error = err broker_unavailable
connected kafka_error = err broker_unavailable
connected (raised e) = err e

-- `_connect`, with how `subscribe` ends; the client is set before it is started.
unfoldable pub connect :
    {Db : Type 0} → Kafka (Unit {0}) → Result (Unit {0}) → Worker Db → Result (Unit {0}) × Worker Db
connect started subscribed w =
    (connected started >>= λ _. subscribed, record w { has_client = true })

-- What one round of the loop meets: what `getmany` and the commit come to, whether `stop` is called
-- in it, and what ends the sleep if there is one.
pub record Round : Type 0 where
  pub polled : Result (List (ℕ × List Delivery))
  pub committed : Result (Unit {0})
  pub stop_called : Bool
  pub wake : Wake

-- The loop so far: how it ended, if it did, the world, and the polls in their order, each with the
-- offsets that it asked Kafka to commit.
pub record Run (k : Keys) (Db : Type 0) : Type 0 where
  pub end_of : Option (Result (Unit {0}))
  pub world : World k Db
  pub polls : List (Result (List (ℕ × ℕ)))

module _ (k : Keys) {Db : Type 0} (c : KafkaConsumer Db) where
  unfoldable pub poll : Round → World k Db → Result (List (ℕ × ℕ)) × World k Db
  unfolding poll_and_dispatch
  poll r w = elim r.polled [
    | err e ↦ (err e, w)
    | ok records ↦ poll_and_dispatch k c records r.committed w
  ]

  abbrev pub after_poll : Result (List (ℕ × ℕ)) → Run k Db → Run k Db
  after_poll p run = record run { polls = p ∷ run.polls }

  -- Whether the loop sleeps after a poll: a poll that failed is followed by a second of sleep.
  abbrev pub rest_after : Result (List (ℕ × ℕ)) → Round → Result Bool
  rest_after (ok _) r = ok r.stop_called
  rest_after (err e) r = if is_exception e then sleep r.stop_called r.wake else err e

  -- The loop of `_run_forever`, on a client that is connected.
  unfoldable pub poll_forever : List Round → Bool → World k Db → Run k Db
  unfolding poll
  poll_forever [] asked w = record {
    end_of = if asked then some (ok tt) else none;
    world = w;
    polls = [];
  }
  poll_forever (r ∷ rounds) asked w = elim asked [
    | true ↦ record { end_of = some (ok tt); world = w; polls = [] }
    | false ↦
        let (p, w') = poll r w in
        elim (rest_after p r) [
          | err e ↦ record { end_of = some (err e); world = w'; polls = p ∷ [] }
          | ok asked' ↦ after_poll p (poll_forever rounds asked' w')
        ]
  ]

  -- `_run_forever` after what `_connect` came to, with the stop event as it is then.
  unfoldable pub run_forever : Result (Unit {0}) → Bool → List Round → World k Db → Run k Db
  unfolding poll_forever
  run_forever (err e) asked rounds w = record { end_of = some (err e); world = w; polls = [] }
  run_forever (ok _) asked rounds w = poll_forever rounds asked w
