-- ===== src/Orders/Services.antt =====
-- src/modules/orders/models.py and src/modules/orders/services.py. What other transactions commit
-- while an attempt of `place_order` runs is an argument, and so is the object that the session holds for
-- the stock.
pub mod Place
pub mod Attempts
pub mod Status
use nimbus_commerce_platform.Common.{
  ℕ, zero, suc, String, Bool, true, false, not, ◌&&◌, ◌||◌, Option, none, some, if◌then◌else◌,
}
use nimbus_commerce_platform.Common.Int.{ℤ, pos, ◌*ℤ◌, leb_ℤ}
use nimbus_commerce_platform.Errors.{
  Exn, Result, ok, err, ◌>>◌, value_error, concurrent_update, order_not_found,
}
use nimbus_commerce_platform.Storage.{Table}
use nimbus_commerce_platform.Messaging.Envelope.{num, str, obj, end, field, EventEnvelope}
use nimbus_commerce_platform.Payments.Models.{OutboxEvent}
use nimbus_commerce_platform.Payments.Service.{Fresh, Text, build_outbox_event}
use nimbus_commerce_platform.Inventory.{Stock, ReserveResult, identity, reserve, get_stock}

pub data OrderStatus : Type 0 where
  pending reserved paid failed shipped : OrderStatus

abbrev pub order_status_eq : OrderStatus → OrderStatus → Bool
order_status_eq pending pending = true
order_status_eq reserved reserved = true
order_status_eq paid paid = true
order_status_eq failed failed = true
order_status_eq shipped shipped = true
order_status_eq _ _ = false

-- A row of orders.orders; the audit columns are left out.
pub record Order : Type 0 where
  pub id : ℕ
  pub user_id : ℕ
  pub stock_id : ℕ
  pub quantity : ℤ
  pub expected_version : ℕ
  pub total_amount_minor_units : ℤ
  pub currency : String
  pub status : OrderStatus

pub record PlaceOrderRequest : Type 0 where
  pub user_id : ℕ
  pub stock_id : ℕ
  pub quantity : ℤ

pub record PlaceOrderResult : Type 0 where
  pub order : Order
  pub outbox_event : OutboxEvent
  pub envelope : EventEnvelope

abbrev pub max_reserve_retries : ℕ
max_reserve_retries = 3

-- The order, its event and the row of the outbox, once the stock has been reserved.
unfoldable pub build_order :
    Text → Fresh → ℕ → PlaceOrderRequest → Stock → ReserveResult → PlaceOrderResult
build_order x fresh order_id request stock reserve_result =
    let total = stock.price_minor_units *ℤ request.quantity in
    let order : Order = record {
      id = order_id;
      user_id = request.user_id;
      stock_id = request.stock_id;
      quantity = request.quantity;
      expected_version = reserve_result.new_version;
      total_amount_minor_units = total;
      currency = stock.currency;
      status = reserved;
    } in
    let envelope : EventEnvelope = record {
      event_id = fresh.event_id;
      event_type = "orders.order_created";
      schema_version = 1;
      aggregate_type = "Order";
      aggregate_id = x.str_uuid order_id;
      correlation_id = none;
      causation_id = none;
      occurred_at = fresh.envelope_time;
      payload = obj (
          field "order_id" (str (x.str_uuid order_id)) (
            field "user_id" (str (x.str_uuid request.user_id)) (
              field "stock_id" (str (x.str_uuid request.stock_id)) (
                field "quantity" (num request.quantity) (
                  field "total_amount_minor_units" (num total)
                    (field "currency" (str stock.currency) end))))));
    } in
    record {
      order = order;
      outbox_event = build_outbox_event x fresh envelope "orders.events";
      envelope = envelope;
    }

-- `except ConcurrentUpdateError`
unfoldable pub is_concurrent_update : {A : Type 0} → Result A → Bool
is_concurrent_update (ok _) = false
is_concurrent_update (err concurrent_update) = true
is_concurrent_update (err _) = false

-- What other transactions commit during one attempt: between its read of the version and the read
-- in `reserve`, and between that one and the UPDATE.
pub record Meanwhile (S : Type 0) : Type 0 where
  pub before_read : S → S
  pub before_update : S → S

module _ (t : Table Stock) where
  -- One pass through the loop of `place_order`: the stock, which is the object of the session that
  -- `reserve` reads and changes too, and what `reserve` made of it.
  unfoldable pub attempt :
      PlaceOrderRequest
      → Meanwhile t.Store
      → Option Stock
      → t.Store
      → Result (Stock × ReserveResult) × Option Stock × t.Store
  attempt request meanwhile held s = elim (get_stock t held s request.stock_id) [
    | err e ↦ (err e, held, s)
    | ok stock ↦
        let (r, held', s') =
          reserve t
            (record {
              stock_id = request.stock_id;
              quantity = request.quantity;
              expected_version = stock.version;
            })
            meanwhile.before_update (some stock) (meanwhile.before_read s) in
        (elim r [ ok done ↦ ok (identity held' stock, done) | err e ↦ err e ], held', s')
  ]

  -- The loop, with the number of attempts left; after the last one the conflict is raised.
  unfoldable pub attempts :
      ℕ
      → PlaceOrderRequest
      → (ℕ → Meanwhile t.Store)
      → Option Stock
      → t.Store
      → Result (Stock × ReserveResult) × Option Stock × t.Store
  attempts zero request meanwhile held s = (err concurrent_update, held, s)
  attempts (suc n) request meanwhile held s =
      let (r, held', s') = attempt request (meanwhile n) held s in
      let again = attempts n request meanwhile held' s' in
      if is_concurrent_update r then again else (r, held', s')

  -- `place_order`; `flushed` is how `session.flush` ends. The order and the event are added to the
  -- session, and so is the UPDATE of the stock to its transaction.
  unfoldable pub place_order :
      Text
      → Fresh
      → ℕ
      → PlaceOrderRequest
      → (ℕ → Meanwhile t.Store)
      → Result (Unit {0})
      → Option Stock
      → t.Store
      → Result PlaceOrderResult × t.Store
  place_order x fresh order_id request meanwhile flushed held s =
      if leb_ℤ request.quantity (pos 0)
      then (err value_error, s)
      else (let (r, _, s') = attempts max_reserve_retries request meanwhile held s in
          (
            elim r [
              | err e ↦ err e
              | ok (stock, done) ↦ flushed >> ok (build_order x fresh order_id request stock done)
            ],
            s',
          ))

-- Whether `update_order_status` comes to its assignment, by the status that the order has.
abbrev pub status_applies : OrderStatus → OrderStatus → Bool
status_applies current new =
    if order_status_eq current new
    then false
    else (if order_status_eq new paid && not (order_status_eq current reserved)
        then false
        else not (
            order_status_eq new failed
            && not (order_status_eq current pending || order_status_eq current reserved)))

module _ (t : Table Order) where
  -- The order that SELECT … FOR UPDATE returned: changed, or returned as it is.
  unfoldable pub update_found : Order → ℕ → OrderStatus → t.Store → Result Order × t.Store
  update_found order order_id new s =
      if status_applies order.status new
      then (let changed = record order { status = new } in
          (ok changed, (t.update s order_id (λ _. true) (λ _. changed)).1))
      else (ok order, s)

  unfoldable pub update_order_status : ℕ → OrderStatus → t.Store → Result Order × t.Store
  unfolding update_found
  update_order_status order_id new s =
      if order_status_eq new paid || order_status_eq new failed
      then (elim (t.find s order_id) [
        | none ↦ (err order_not_found, s)
        | some order ↦ update_found order order_id new s
      ])
      else (err value_error, s)
