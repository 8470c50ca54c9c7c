-- ===== src/Orders/Handlers.antt =====
-- `OrderConsumer` of src/modules/orders/consumer.py: its handlers, on the tables of the orders and of the
-- stock as the transaction of one message sees them.
pub mod Compensation
pub mod Redelivered
use nimbus_commerce_platform.Common.{
  ℕ, String, Bool, true, false, ◌&&◌, Option, none, some, str_eq, if◌then◌else◌,
}
use nimbus_commerce_platform.Errors.{Exn, Result, ok, err, attribute_error}
use nimbus_commerce_platform.Storage.{Table}
use nimbus_commerce_platform.Messaging.Envelope.{Json, str, obj, get, EventEnvelope}
use nimbus_commerce_platform.Inventory.{Stock, release}
use nimbus_commerce_platform.Orders.Services.{Order, OrderStatus, paid, failed, update_order_status}

pub record Tables (t : Table Order) (u : Table Stock) : Type 0 where
  pub orders : t.Store
  pub stocks : u.Store

-- What the handlers read from `payload.get("order_id")`: `none` where there is no string that is a
-- UUID, in which case they log and return. A payload that is no dict has no `get`.
unfoldable pub order_id_of : (String → Option ℕ) → EventEnvelope → Result (Option ℕ)
unfolding get
order_id_of parse envelope = elim envelope.payload [
  | obj d ↦ elim (get "order_id" d) [ some (str s) ↦ ok (parse s) | _ ↦ ok none ]
  | _ ↦ err attribute_error
]

module _ (t : Table Order) (u : Table Stock) where
  -- The release of `_on_payment_failed`, for the order that it reads again; a missing order is
  -- logged.
  unfoldable pub compensate : ℕ → Tables t u → Result (Unit {0}) × Tables t u
  compensate order_id s = elim (t.find s.orders order_id) [
    | none ↦ (ok tt, s)
    | some order ↦
        let (r, stocks') =
          release u
            (record {
              stock_id = order.stock_id;
              quantity = order.quantity;
              expected_version = order.expected_version;
            })
            s.stocks in
        (elim r [ ok _ ↦ ok tt | err e ↦ err e ], record s { stocks = stocks' })
  ]

  unfoldable pub on_payment_captured :
      (String → Option ℕ) → EventEnvelope → Tables t u → Result (Unit {0}) × Tables t u
  on_payment_captured parse envelope s = elim (order_id_of parse envelope) [
    | err e ↦ (err e, s)
    | ok none ↦ (ok tt, s)
    | ok (some order_id) ↦
        let (r, orders') = update_order_status t order_id paid s.orders in
        (elim r [ ok _ ↦ ok tt | err e ↦ err e ], record s { orders = orders' })
  ]

  unfoldable pub on_payment_failed :
      (String → Option ℕ) → EventEnvelope → Tables t u → Result (Unit {0}) × Tables t u
  unfolding compensate
  on_payment_failed parse envelope s = elim (order_id_of parse envelope) [
    | err e ↦ (err e, s)
    | ok none ↦ (ok tt, s)
    | ok (some order_id) ↦
        let (r, orders') = update_order_status t order_id failed s.orders in
        let s' = record s { orders = orders' } in
        elim r [ err e ↦ (err e, s') | ok _ ↦ compensate order_id s' ]
  ]

  -- `_register_handlers`: the handler for a topic and a type of event.
  unfoldable pub handlers :
      (String → Option ℕ)
      → String
      → String
      → Option (EventEnvelope → Tables t u → Result (Unit {0}) × Tables t u)
  handlers parse topic event_type =
      if str_eq topic "payments.events" && str_eq event_type "payments.payment_captured"
      then some (on_payment_captured parse)
      else (if str_eq topic "payments.events" && str_eq event_type "payments.payment_failed"
          then some (on_payment_failed parse)
          else none)
