-- ===== src/Orders/Handlers/Compensation.antt =====
-- The saga compensation of src/modules/orders/consumer.py: what a payment event does to the order and
-- to the stock that the order had reserved.

use nimbus_commerce_platform.Common.{
  ℕ, ◌≡◌, ◌≢◌, ◌⊎◌, inl, inr, true, String, Option, none, some, arith, ◌==◌, if◌then◌else◌, ◌+◌,
}
use nimbus_commerce_platform.Common.Int.{pos, ◌+ℤ◌, ◌≤ℤ◌, -ℤ_+ℤ}
use nimbus_commerce_platform.Errors.{ok}
use nimbus_commerce_platform.Storage.{Table}
use nimbus_commerce_platform.Messaging.Envelope.{EventEnvelope}
use nimbus_commerce_platform.Inventory.{Stock, ReleaseRequest, take_quantity, add_quantity, release}
use nimbus_commerce_platform.Payments.Service.{Fresh, Text}
use nimbus_commerce_platform.Orders.Services.{
  Order, pending, reserved, paid, failed, PlaceOrderRequest, PlaceOrderResult, Meanwhile,
  place_order, update_order_status,
}
use nimbus_commerce_platform.Orders.Services.Place.{Placed, place_order_ok, reserve_request}
use nimbus_commerce_platform.Orders.Services.Attempts.{place_order_alone}
use nimbus_commerce_platform.Orders.Handlers.{
  Tables, order_id_of, on_payment_captured, on_payment_failed,
}

module _ (t : Table Order) (u : Table Stock) (parse : String → Option ℕ) where
  -- A failed payment that names an order for a positive quantity, still PENDING or RESERVED, of a
  -- stock that is there: the handler returns, the order becomes FAILED and the stock gets the
  -- quantity of the order back.
  pub on_payment_failed_compensates :
      (envelope : EventEnvelope) (s : Tables t u) (id : ℕ) (order : Order) (row : Stock)
      → order_id_of parse envelope ≡ ok (some id)
      → t.find s.orders id ≡ some order
      → u.find s.stocks order.stock_id ≡ some row
      → (order.status ≡ pending) ⊎ (order.status ≡ reserved)
      → pos 1 ≤ℤ order.quantity
      → let (r, s') = on_payment_failed t u parse envelope s in
        (r ≡ ok tt)
        × (t.find s'.orders id ≡ some (record order { status = failed }))
        × (u.find s'.stocks order.stock_id
            ≡ some (record row { available = row.available +ℤ order.quantity }))
  unfolding on_payment_failed update_order_status release
  on_payment_failed_compensates envelope s id order row named e e' early positive =
      let after =
        t.find-update s.orders id (λ _. true) (λ _. record order { status = failed }) id in
      let q : ReleaseRequest = record {
        stock_id = order.stock_id;
        quantity = order.quantity;
        expected_version = order.expected_version;
      } in
      let stock =
        u.find-update s.stocks order.stock_id (λ _. true) (add_quantity q) order.stock_id in
      (ground (arith, after), ground (arith, after), ground (arith, after, stock))

  -- A failed payment that names an order for a positive quantity, neither PENDING nor RESERVED, of
  -- a stock that is there, leaves the orders as they are, and yet adds the quantity to the stock.
  pub on_payment_failed_again :
      (envelope : EventEnvelope) (s : Tables t u) (id : ℕ) (order : Order) (row : Stock)
      → order_id_of parse envelope ≡ ok (some id)
      → t.find s.orders id ≡ some order
      → u.find s.stocks order.stock_id ≡ some row
      → order.status ≢ pending
      → order.status ≢ reserved
      → pos 1 ≤ℤ order.quantity
      → let (r, s') = on_payment_failed t u parse envelope s in
        (r ≡ ok tt)
        × (s'.orders ≡ s.orders)
        × (u.find s'.stocks order.stock_id
            ≡ some (record row { available = row.available +ℤ order.quantity }))
  unfolding on_payment_failed update_order_status release
  on_payment_failed_again envelope s id order row named e e' np nr positive =
      let q : ReleaseRequest = record {
        stock_id = order.stock_id;
        quantity = order.quantity;
        expected_version = order.expected_version;
      } in
      let stock =
        u.find-update s.stocks order.stock_id (λ _. true) (add_quantity q) order.stock_id in
      (ground arith, ground arith, ground (arith, stock))

  -- A captured payment that names an order that is there: a RESERVED order becomes PAID, an order
  -- of any other status stays as it is, and all other orders and all stock are left alone.
  pub on_payment_captured_pays :
      (envelope : EventEnvelope) (s : Tables t u) (id : ℕ) (order : Order)
      → order_id_of parse envelope ≡ ok (some id)
      → t.find s.orders id ≡ some order
      → let (r, s') = on_payment_captured t u parse envelope s in
        (r ≡ ok tt)
        × (s'.stocks ≡ s.stocks)
        × ((j : ℕ)
            → t.find s'.orders j ≡ elim order.status [
              | reserved ↦
                  (if j == id then some (record order { status = paid }) else t.find s.orders j)
              | _ ↦ t.find s.orders j
            ])
  unfolding on_payment_captured update_order_status
  on_payment_captured_pays envelope s id order named e = (
    ground arith,
    ground arith,
    λ j.
        ground
          (arith, t.find-update s.orders id (λ _. true) (λ _. record order { status = paid }) j),
  )

  -- The saga end to end: an order for a positive quantity of a row that is there, placed with no
  -- other transaction in the way of its first attempt, in a session that holds no object of the row,
  -- and stored, whose payment then fails, leaves the stock as much as it had before, its version one
  -- higher, and the order FAILED.
  pub place_order_payment_failed :
      (x : Text) (fresh : Fresh) (order_id : ℕ) (request : PlaceOrderRequest)
      (meanwhile : ℕ → Meanwhile u.Store) (stocks : u.Store) (row : Stock) (r : PlaceOrderResult)
      (envelope : EventEnvelope) (s : Tables t u)
      → pos 1 ≤ℤ request.quantity
      → u.find stocks request.stock_id ≡ some row
      → (meanwhile 2).before_read stocks ≡ stocks
      → (meanwhile 2).before_update stocks ≡ stocks
      → place_order u x fresh order_id request meanwhile (ok tt) none stocks ≡ (ok r, s.stocks)
      → order_id_of parse envelope ≡ ok (some order_id)
      → t.find s.orders order_id ≡ some r.order
      → let s' = (on_payment_failed t u parse envelope s).1 in
        (u.find s'.stocks request.stock_id ≡ some (record row { version = row.version + 1 }))
        × (t.find s'.orders order_id ≡ some (record r.order { status = failed }))
  place_order_payment_failed x fresh order_id request meanwhile stocks row r envelope s positive e
        alone alone' placed named there =
      elim (place_order_alone u request x fresh order_id meanwhile stocks row positive e alone
        alone') [
          | inl (enough, done, taken) ↦
              let stock : Stock = take_quantity (reserve_request request row) row in
              let p : Placed u request meanwhile none stocks r s.stocks =
                place_order_ok u request x fresh order_id meanwhile (ok tt) none stocks s.stocks r
                  placed in
              let now : u.find s.stocks r.order.stock_id ≡ some stock =
                ground (arith, p.stock_id) in
              let (_, order', stock') =
                on_payment_failed_compensates envelope s order_id r.order stock named there now
                  (inr p.status) (ground (arith, p.quantity)) in
              (ground (arith, p.stock_id, p.quantity, -ℤ_+ℤ row.available request.quantity), order')
          | inr (short, refused, _) ↦ absurd (ground arith)
        ]
