-- ===== src/Orders/Handlers/Redelivered.antt =====
-- `OrderConsumer` of src/modules/orders/consumer.py as it runs in the loop of src/core/consumer.py.
use nimbus_commerce_platform.Common.{
  ℕ, ◌≡◌, ◌≢◌, refl, ap, ◌∙◌, ◌⊎◌, str_eq_iff, true, false, String, Option, none, some, List, ◌∷◌,
  arith, All,
}
use nimbus_commerce_platform.Common.Int.{pos, ◌+ℤ◌, ◌≤ℤ◌}
use nimbus_commerce_platform.Errors.{ok}
use nimbus_commerce_platform.Storage.{Table, Keys}
use nimbus_commerce_platform.Breaker.{closed}
use nimbus_commerce_platform.Messaging.Envelope.{Json, EventEnvelope}
use nimbus_commerce_platform.Inventory.{Stock}
use nimbus_commerce_platform.Consumer.{
  Delivery, World, KafkaConsumer, Handler, run_handler, in_session,
}
use nimbus_commerce_platform.Consumer.Worker.{Worker, start}
use nimbus_commerce_platform.Consumer.Redelivery.{Delivers, handle_all, key_of, handle_all_once}
use nimbus_commerce_platform.Orders.Services.{Order, pending, reserved, failed}
use nimbus_commerce_platform.Orders.Handlers.{
  Tables, order_id_of, on_payment_captured, on_payment_failed, handlers,
}
use nimbus_commerce_platform.Orders.Handlers.Compensation.{on_payment_failed_compensates}
use nimbus_commerce_platform.Tasks.{new_life}

module _ (k : Keys) {Db : Type 0} (c : KafkaConsumer Db) (d : Delivery) (envelope : EventEnvelope)
    (handler : Handler Db) (w : World k Db) where
  -- A session that is opened and committed around a handler that returns.
  in_session_done :
      d.opened ≡ ok tt
      → d.commit ≡ ok tt
      → (handler envelope w.db).0 ≡ ok tt
      → (in_session k c d envelope handler w).1.db ≡ (handler envelope w.db).1
  unfolding in_session
  in_session_done opened commit done = ground arith

  run_handler_found :
      c.handlers d.message.topic envelope.event_type ≡ some handler
      → c.has_session_factory ≡ true
      → run_handler k c d envelope w ≡ in_session k c d envelope handler w
  unfolding run_handler
  run_handler_found found factory = rw (run_handler, found, factory) refl

run_handler_missing :
    (k : Keys) {Db : Type 0} (c : KafkaConsumer Db) (d : Delivery) (envelope : EventEnvelope)
    (w : World k Db)
    → c.handlers d.message.topic envelope.event_type ≡ none
    → run_handler k c d envelope w ≡ (ok tt, w)
unfolding run_handler
run_handler_missing k c d envelope w found = rw (run_handler, found) refl

module _ (t : Table Order) (u : Table Stock) (parse : String → Option ℕ)
    (from_bytes : String → Option EventEnvelope) (digest : Json → String) where
  -- `OrderConsumer.__init__`
  abbrev pub order_worker : Worker (Tables t u)
  order_worker = record {
    life = new_life;
    has_client = false;
    consumer = record {
      has_dedupe = false;
      has_session_factory = true;
      handlers = λ topic event_type. none;
      from_bytes = from_bytes;
      digest = digest;
    };
  }

  -- `_register_handlers`, on the handlers so far.
  abbrev pub register_handlers :
      (String → String → Option (Handler (Tables t u)))
      → String
      → String
      → Option (Handler (Tables t u))
  register_handlers before topic event_type = elim (handlers t u parse topic event_type) [
    | some handler ↦ some handler
    | none ↦ before topic event_type
  ]

  -- The consumer as `start` leaves it.
  abbrev pub order_consumer : KafkaConsumer (Tables t u)
  order_consumer = (start true register_handlers order_worker).consumer

  module _ (k : Keys) (envelope : EventEnvelope) where
    -- The handler that a failed payment finds.
    pub failed_handler :
        (topic event_type : String)
        → topic ≡ "payments.events"
        → event_type ≡ "payments.payment_failed"
        → order_consumer.handlers topic event_type ≡ some (on_payment_failed t u parse)
    unfolding start handlers
    failed_handler topic event_type a b = rw (a, b) refl

    kept_factory : order_consumer.has_session_factory ≡ true
    unfolding start
    kept_factory = refl

    -- The handler that a captured payment finds.
    pub captured_handler :
        (topic event_type : String)
        → topic ≡ "payments.events"
        → event_type ≡ "payments.payment_captured"
        → order_consumer.handlers topic event_type ≡ some (on_payment_captured t u parse)
    unfolding start handlers
    captured_handler topic event_type a b = rw (a, b) refl

    -- Every other type of event finds none.
    pub other_handler :
        (topic event_type : String)
        → event_type ≢ "payments.payment_captured"
        → event_type ≢ "payments.payment_failed"
        → order_consumer.handlers topic event_type ≡ none
    unfolding start handlers
    other_handler topic event_type a b = ground (
      arith,
      str_eq_iff event_type "payments.payment_captured",
      str_eq_iff event_type "payments.payment_failed",
    )

    -- A handler that returns, in a transaction that is opened and that commits.
    pub run_handler_ends :
        (handler : Handler (Tables t u)) (d : Delivery) (w : World k (Tables t u))
        → order_consumer.handlers d.message.topic envelope.event_type ≡ some handler
        → d.opened ≡ ok tt
        → d.commit ≡ ok tt
        → (handler envelope w.db).0 ≡ ok tt
        → (run_handler k order_consumer d envelope w).1.db ≡ (handler envelope w.db).1
    run_handler_ends handler d w found opened commit done =
        let factory : order_consumer.has_session_factory ≡ true = kept_factory in
        ap (λ r. r.1.db) (run_handler_found k order_consumer d envelope handler w found factory)
        ∙ in_session_done k order_consumer d envelope handler w opened commit done

    -- An event that finds no handler.
    pub run_handler-none :
        (d : Delivery) (w : World k (Tables t u))
        → order_consumer.handlers d.message.topic envelope.event_type ≡ none
        → (run_handler k order_consumer d envelope w).1.db ≡ w.db
    run_handler-none d w found =
        ap (λ r. r.1.db) (run_handler_missing k order_consumer d envelope w found)

  -- The consumer of the orders, as `start` leaves it, takes a failed payment any number of times, with
  -- Redis answering, the breaker closed and the event not recorded before, the first time in a
  -- transaction that is opened and that commits. The order that it names, until then PENDING or RESERVED
  -- and for a positive quantity of a stock that is there, is FAILED in the end, and the stock has got
  -- its quantity back once.
  payment_failed_once :
      (k : Keys) (envelope : EventEnvelope) (d : Delivery) (ds : List Delivery) (bytes : String)
      (w : World k (Tables t u)) (id : ℕ) (order : Order) (row : Stock)
      → Delivers k order_consumer envelope d bytes
      → All (λ d'. (bytes' : String) × Delivers k order_consumer envelope d' bytes') ds
      → w.breaker.state ≡ closed
      → k.get w.keys (key_of k order_consumer envelope) ≡ none
      → d.message.topic ≡ "payments.events"
      → envelope.event_type ≡ "payments.payment_failed"
      → d.opened ≡ ok tt
      → d.commit ≡ ok tt
      → order_id_of parse envelope ≡ ok (some id)
      → t.find w.db.orders id ≡ some order
      → u.find w.db.stocks order.stock_id ≡ some row
      → (order.status ≡ pending) ⊎ (order.status ≡ reserved)
      → pos 1 ≤ℤ order.quantity
      → let db = (handle_all k order_consumer envelope (d ∷ ds) w).db in
        (t.find db.orders id ≡ some (record order { status = failed }))
        × (u.find db.stocks order.stock_id
            ≡ some (record row { available = row.available +ℤ order.quantity }))
  payment_failed_once k envelope d ds bytes w id order row dl dls shut free topic type opened commit
        named there stocked early positive =
      let (done, failed_now, restored) =
        on_payment_failed_compensates t u parse envelope w.db id order row named there stocked early
          positive in
      let found = failed_handler k envelope d.message.topic envelope.event_type topic type in
      let once =
        handle_all_once k order_consumer envelope d ds bytes w dl dls shut free
        ∙ run_handler_ends k envelope (on_payment_failed t u parse) d w found opened commit done in
      (
        ap (λ db. t.find db.orders id) once ∙ failed_now,
        ap (λ db. u.find db.stocks order.stock_id) once ∙ restored,
      )
