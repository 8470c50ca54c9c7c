-- ===== src/Orders/Services/Attempts.antt =====
-- The attempts of `place_order` of src/modules/orders/services.py: when it decides at once and when it
-- gives up.
use nimbus_commerce_platform.Common.{
  ℕ, ◌≡◌, ◌≢◌, ◌⊎◌, inl, inr, Option, none, some, Option-cases, arith,
}
use nimbus_commerce_platform.Common.Int.{pos, ◌≤ℤ◌, ◌-ℤ◌}
use nimbus_commerce_platform.Errors.{Result, ok, err, out_of_stock, concurrent_update}
use nimbus_commerce_platform.Storage.{Table}
use nimbus_commerce_platform.Payments.Service.{Fresh, Text}
use nimbus_commerce_platform.Inventory.{
  Stock, read_stock, is_reservable, take_quantity, reserve, get_stock,
}
use nimbus_commerce_platform.Orders.Services.{
  PlaceOrderRequest, Meanwhile, is_concurrent_update, attempt, attempts, place_order, build_order,
}
use nimbus_commerce_platform.Orders.Services.Place.{reserve_request, reserved_from}

module _ (t : Table Stock) (request : PlaceOrderRequest) where
  -- The object of the session after an UPDATE for the request.
  abbrev pub taken_from : Stock → Stock
  taken_from object = take_quantity (reserve_request request object) object

  -- An attempt whose UPDATE finds another version than the one that it read.
  attempt_lost :
      (meanwhile : Meanwhile t.Store) (held : Option Stock) (s : t.Store) (object row now : Stock)
      → pos 1 ≤ℤ request.quantity
      → read_stock t held s request.stock_id ≡ some object
      → request.quantity ≤ℤ object.available
      → t.find (meanwhile.before_read s) request.stock_id ≡ some row
      → t.find (meanwhile.before_update (meanwhile.before_read s)) request.stock_id ≡ some now
      → now.version ≢ object.version
      → ((attempt t request meanwhile held s).0 ≡ err concurrent_update)
        × ((attempt t request meanwhile held s).1 ≡ some (taken_from object))
        × (t.find (attempt t request meanwhile held s).2 request.stock_id ≡ some now)
  unfolding attempt get_stock reserve
  attempt_lost meanwhile held s object row now positive e enough there at_update other =
      let q = reserve_request request object in
      let u = meanwhile.before_update (meanwhile.before_read s) in
      let count = t.update-rowcount u request.stock_id (is_reservable q) (take_quantity q) in
      let after = t.find-update u request.stock_id (is_reservable q) (take_quantity q) in
      (ground (arith, count), ground (arith, count), ground (arith, count, after request.stock_id))

  -- An attempt with an object at hand that has less than the quantity.
  attempt_short :
      (meanwhile : Meanwhile t.Store) (s : t.Store) (object now row : Stock)
      → pos 1 ≤ℤ request.quantity
      → ¬ (request.quantity ≤ℤ object.available)
      → t.find s request.stock_id ≡ some now
      → t.find (meanwhile.before_read s) request.stock_id ≡ some row
      → (attempt t request meanwhile (some object) s).0 ≡ err out_of_stock
  unfolding attempt get_stock reserve
  attempt_short meanwhile s object now row positive short here there = ground arith

  -- A conflict spoils the next attempt: an order for a positive quantity whose first read gives an
  -- object with enough stock for it, but not for twice the quantity, and whose first UPDATE finds the
  -- row with another version, raises OutOfStockError where no other transaction removes the row,
  -- however much stock the row has got: the second attempt reads the object again, from which the
  -- UPDATE that failed has taken the quantity.
  pub place_order_starves :
      (x : Text) (fresh : Fresh) (order_id : ℕ) (meanwhile : ℕ → Meanwhile t.Store)
      (flushed : Result (Unit {0})) (held : Option Stock) (s : t.Store) (object now : Stock)
      → pos 1 ≤ℤ request.quantity
      → read_stock t held s request.stock_id ≡ some object
      → request.quantity ≤ℤ object.available
      → ¬ (request.quantity ≤ℤ object.available -ℤ request.quantity)
      → t.find ((meanwhile 2).before_update ((meanwhile 2).before_read s)) request.stock_id
        ≡ some now
      → now.version ≢ object.version
      → ((n : ℕ) (u : t.Store) (row : Stock)
          → t.find u request.stock_id ≡ some row
          → (row' : Stock) × (t.find ((meanwhile n).before_read u) request.stock_id ≡ some row'))
      → (place_order t x fresh order_id request meanwhile flushed held s).0 ≡ err out_of_stock
  unfolding place_order attempts is_concurrent_update
  place_order_starves x fresh order_id meanwhile flushed held s object now positive e enough short
        at_update other stays =
      elim (Option-cases (t.find s request.stock_id)) [
        | inl gone ↦ absurd (ground arith)
        | inr (row, found) ↦
            let (seen, there) = stays 2 s row found in
            let (conflict, left, still) =
              attempt_lost (meanwhile 2) held s object seen now positive e enough there at_update
                other in
            let u = (attempt t request (meanwhile 2) held s).2 in
            let (again, kept) = stays 1 u now still in
            let next =
              attempt_short (meanwhile 1) u (taken_from object) now again positive short still
                kept in
            ground (arith, conflict, left, next)
      ]

  attempt_alone :
      (meanwhile : Meanwhile t.Store) (s : t.Store) (row : Stock)
      → pos 1 ≤ℤ request.quantity
      → t.find s request.stock_id ≡ some row
      → meanwhile.before_read s ≡ s
      → meanwhile.before_update s ≡ s
      → (request.quantity ≤ℤ row.available)
          × ((attempt t request meanwhile none s).0
              ≡ ok (taken_from row, reserved_from request row))
          × (t.find (attempt t request meanwhile none s).2 request.stock_id ≡ some (taken_from row))
        ⊎ ¬ (request.quantity ≤ℤ row.available)
          × ((attempt t request meanwhile none s).0 ≡ err out_of_stock)
          × ((attempt t request meanwhile none s).2 ≡ s)
  unfolding attempt get_stock reserve
  attempt_alone meanwhile s row positive e same same' =
      let q = reserve_request request row in
      let count = t.update-rowcount s request.stock_id (is_reservable q) (take_quantity q) in
      let after = t.find-update s request.stock_id (is_reservable q) (take_quantity q) in
      ground (arith, count, after request.stock_id)

  -- An order for a positive quantity of a row that is there, in a session that holds no object of it,
  -- whose first attempt meets no other transaction and whose flush goes through, is decided by that
  -- attempt: with enough stock it is placed, from the row that is there, and with less the call raises
  -- OutOfStockError and changes nothing.
  pub place_order_alone :
      (x : Text) (fresh : Fresh) (order_id : ℕ) (meanwhile : ℕ → Meanwhile t.Store) (s : t.Store)
      (row : Stock)
      → pos 1 ≤ℤ request.quantity
      → t.find s request.stock_id ≡ some row
      → (meanwhile 2).before_read s ≡ s
      → (meanwhile 2).before_update s ≡ s
      → let (r, s') = place_order t x fresh order_id request meanwhile (ok tt) none s in
        (request.quantity ≤ℤ row.available)
          × (r
              ≡ ok (
                  build_order x fresh order_id request
                    (taken_from row)
                    (reserved_from request row)))
          × (t.find s' request.stock_id ≡ some (taken_from row))
        ⊎ ¬ (request.quantity ≤ℤ row.available) × (r ≡ err out_of_stock) × (s' ≡ s)
  unfolding place_order attempts is_concurrent_update
  place_order_alone x fresh order_id meanwhile s row positive e same same' =
      ground (arith, attempt_alone (meanwhile 2) s row positive e same same')
