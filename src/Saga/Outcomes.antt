-- ===== src/Saga/Outcomes.antt =====
-- What a change of a payment's status comes to at the orders, over the outbox, the relay and Kafka.
use nimbus_commerce_platform.Common.{
  ℕ, ◌≡◌, ◌≢◌, ◌⊎◌, ap, ◌∙◌, sym, String, Option, some, List, ◌∷◌, arith, if◌then◌else◌, ◌==◌,
}
use nimbus_commerce_platform.Common.Int.{pos, ◌≤ℤ◌, ◌+ℤ◌}
use nimbus_commerce_platform.Errors.{ok}
use nimbus_commerce_platform.Storage.{Keys, Table}
use nimbus_commerce_platform.Breaker.{Breaker}
use nimbus_commerce_platform.Messaging.Envelope.{Json, Fields, str, get, EventEnvelope}
use nimbus_commerce_platform.Messaging.Dict.{Distinct}
use nimbus_commerce_platform.Messaging.Producer.{
  Kafka, Message, RecordMetadata, Wire, KafkaProducer,
}
use nimbus_commerce_platform.Payments.Models.{Payment, PaymentStatus, captured}
use nimbus_commerce_platform.Payments.Models as Payments
use nimbus_commerce_platform.Payments.Lock.{Io}
use nimbus_commerce_platform.Payments.Service.{
  Fresh, Text, ProcessPaymentRequest, ProcessPaymentResult, Write, payment_event_type,
  process_payment, build_payment_event,
}
use nimbus_commerce_platform.Inventory.{Stock}
use nimbus_commerce_platform.Consumer.{Delivery, World, KafkaConsumer, run_handler}
use nimbus_commerce_platform.Orders.Services.{Order, pending, reserved, paid, failed}
use nimbus_commerce_platform.Orders.Handlers.{
  Tables, order_id_of, on_payment_captured, on_payment_failed,
}
use nimbus_commerce_platform.Orders.Handlers.Compensation.{
  on_payment_captured_pays, on_payment_failed_compensates,
}
use nimbus_commerce_platform.Orders.Handlers.Redelivered.{
  captured_handler, failed_handler, other_handler, run_handler_ends, run_handler-none,
}
use nimbus_commerce_platform.Saga.Journey.{
  process_payment_event, build_payment_event_type, build_outbox_event_row,
  build_payment_event_order,
}
use nimbus_commerce_platform.Saga.Arrival.{
  Arrives, consumer, db_after, first_delivery_counts, event_type_other,
}

module _ (k : Keys) (tp : Table Payment) (t : Table Order) (u : Table Stock)
    (parse : String → Option ℕ) (x : Text) (wire : Wire)
    (model_validate : Json → Option EventEnvelope) (from_bytes : String → Option EventEnvelope)
    (send : Message → Kafka RecordMetadata) (producer : KafkaProducer) (fresh : Fresh)
    (request : ProcessPaymentRequest) (before after : Io) (others : k.Store → k.Store)
    (payments : tp.Store) (b b' : Breaker) (s s' : k.Store) (r : ProcessPaymentResult)
    (writes : List Write) (d : Delivery) (ds : List Delivery) (w : World k (Tables t u)) where
  abbrev orders_consumer : KafkaConsumer (Tables t u)
  orders_consumer = consumer t u parse x wire model_validate from_bytes send producer k

  abbrev pub tables_after : Tables t u
  tables_after =
      db_after t u parse x wire model_validate from_bytes send producer k r.envelope (d ∷ ds) w

  module _
      (processed : process_payment k tp x fresh request before after others payments b s
        ≡ (ok r, writes, b', s'))
      (a : Arrives t u parse x wire model_validate from_bytes send producer k r.envelope
        r.outbox_event d ds w) where
    event_once :
        (r.envelope.event_type ≡ payment_event_type request.new_status)
        × (d.message.topic ≡ "payments.events")
        × (tables_after ≡ (run_handler k orders_consumer d r.envelope w).1.db)
    event_once =
        let (made, put) =
          process_payment_event x fresh request k tp before after others payments b b' s s' r writes
            processed in
        let type = payment_event_type request.new_status in
        let (topic, payload) = build_outbox_event_row x fresh r.envelope "payments.events" in
        let (here, once) =
          first_delivery_counts t u parse x wire model_validate from_bytes send producer k
            r.envelope r.outbox_event d ds w (ap (λ e. e.topic) put ∙ topic)
            (ap (λ e. e.payload) put ∙ payload) a in
        (
          ap (λ e. e.event_type) made
              ∙ build_payment_event_type x fresh r.payment type request.extra_payload,
          here,
          once,
        )

    -- A payment that was processed to any other status than CAPTURED or FAILED, say to DECLINED, and
    -- whose event the relay has sent: however often the message that the broker stored of it is
    -- delivered to the consumer of the orders, whose breaker is closed, with Redis answering and the
    -- event new to it, all orders and all stock stay as they are.
    pub other_status_ignored :
        request.new_status ≢ captured → request.new_status ≢ Payments.failed → tables_after ≡ w.db
    other_status_ignored other other' =
        let (type, topic, once) = event_once in
        let (not_captured, not_failed) = event_type_other request.new_status other other' in
        once
        ∙ run_handler-none t u parse from_bytes x.digest k r.envelope d w (
            other_handler t u parse from_bytes x.digest k r.envelope d.message.topic
              r.envelope.event_type (λ h. not_captured (sym type ∙ h))
              (λ h. not_failed (sym type ∙ h)))

    module _ (extra : Fields) (name : String) (id : ℕ) (order : Order)
        (with_extra : request.extra_payload ≡ some extra) (distinct : Distinct extra)
        (named_order : get "order_id" extra ≡ some (str name)) (is_id : parse name ≡ some id)
        (opened : d.opened ≡ ok tt) (commit : d.commit ≡ ok tt)
        (there : t.find w.db.orders id ≡ some order) where
      names_order : order_id_of parse r.envelope ≡ ok (some id)
      names_order =
          let made =
            (process_payment_event x fresh request k tp before after others payments b b' s s' r
              writes processed).0 in
          let type = payment_event_type request.new_status in
          let with_fields = made ∙ ap (build_payment_event x fresh r.payment type) with_extra in
          ap (order_id_of parse) with_fields
          ∙ build_payment_event_order x fresh parse r.payment type extra name distinct named_order
          ∙ ap ok is_id

      -- A payment that was processed to CAPTURED, with extra fields that name an order that is
      -- RESERVED, and whose event the relay has sent: however often the message that the broker
      -- stored of it is delivered to the consumer of the orders, whose breaker is closed, with Redis
      -- answering, the event new to it and the first transaction committed, the order is PAID, and
      -- all other orders and all stock stay as they are.
      pub captured_pays :
          request.new_status ≡ captured
          → order.status ≡ reserved
          → (tables_after.stocks ≡ w.db.stocks)
            × ((j : ℕ)
                → t.find tables_after.orders j ≡ (
                    if j == id
                    then some (record order { status = paid })
                    else t.find w.db.orders j))
      captured_pays status waits =
          let (type, topic, once) = event_once in
          let (done, stocks, orders) =
            on_payment_captured_pays t u parse r.envelope w.db id order names_order there in
          let found =
            captured_handler t u parse from_bytes x.digest k r.envelope d.message.topic
              r.envelope.event_type topic (type ∙ ap payment_event_type status) in
          let whole =
            once
            ∙ run_handler_ends t u parse from_bytes x.digest k r.envelope
                (on_payment_captured t u parse) d w found opened commit done in
          (
            ap (λ db. db.stocks) whole ∙ stocks,
            λ j. ap (λ db. t.find db.orders j) whole ∙ ground (arith, orders j),
          )

      -- A payment that was processed to FAILED, with extra fields that name an order that is PENDING
      -- or RESERVED for a positive quantity of a stock that is there, and whose event the relay has
      -- sent: however often the message that the broker stored of it is delivered to the consumer of
      -- the orders, whose breaker is closed, with Redis answering, the event new to it and the first
      -- transaction committed, the order is FAILED and the stock has got the quantity back once.
      pub failed_compensates :
          (row : Stock)
          → request.new_status ≡ Payments.failed
          → u.find w.db.stocks order.stock_id ≡ some row
          → (order.status ≡ pending) ⊎ (order.status ≡ reserved)
          → pos 1 ≤ℤ order.quantity
          → (t.find tables_after.orders id ≡ some (record order { status = failed }))
            × (u.find tables_after.stocks order.stock_id
                ≡ some (record row { available = row.available +ℤ order.quantity }))
      failed_compensates row status stocked early positive =
          let (type, topic, once) = event_once in
          let (done, order', stock') =
            on_payment_failed_compensates t u parse r.envelope w.db id order row names_order there
              stocked early positive in
          let found =
            failed_handler t u parse from_bytes x.digest k r.envelope d.message.topic
              r.envelope.event_type topic (type ∙ ap payment_event_type status) in
          let whole =
            once
            ∙ run_handler_ends t u parse from_bytes x.digest k r.envelope
                (on_payment_failed t u parse) d w found opened commit done in
          (
            ap (λ db. t.find db.orders id) whole ∙ order',
            ap (λ db. u.find db.stocks order.stock_id) whole ∙ stock',
          )
