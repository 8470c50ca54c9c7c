-- ===== src/Orders/Services/Place.antt =====
-- `place_order` of src/modules/orders/services.py: what an order that is placed has reserved.
use nimbus_commerce_platform.Common.{
  ℕ, zero, suc, ◌+◌, ◌≡◌, refl, ◌∙◌, ◌≢◌, true, Option, some, arith, Option-cases, Bool-cases, inl,
  inr,
}
use nimbus_commerce_platform.Common.Int.{pos, ◌*ℤ◌, ◌≤ℤ◌, ◌-ℤ◌}
use nimbus_commerce_platform.Errors.{Result, ok, err}
use nimbus_commerce_platform.Storage.{Table}
use nimbus_commerce_platform.Payments.Service.{Fresh, Text}
use nimbus_commerce_platform.Inventory.{
  Stock, ReserveRequest, ReserveResult, read_stock, synchronize, reserve, get_stock,
}
use nimbus_commerce_platform.Inventory.Reserve.{reserve_took, reserve_raised, reserve_held}
use nimbus_commerce_platform.Orders.Services.{
  reserved, PlaceOrderRequest, PlaceOrderResult, Meanwhile, max_reserve_retries,
  is_concurrent_update, attempt, attempts, place_order, build_order,
}

-- The tables that other transactions make of a table in the course of a call: by a commit before a
-- read, by one before an UPDATE, and by no change of any row.
pub data ByOthers (t : Table Stock) (meanwhile : ℕ → Meanwhile t.Store) (s : t.Store)
    : t.Store → Type 0 where
  here : ByOthers t meanwhile s s
  read_by :
      {u : t.Store} (n : ℕ)
      → ByOthers t meanwhile s u
      → ByOthers t meanwhile s ((meanwhile n).before_read u)
  update :
      {u : t.Store} (n : ℕ)
      → ByOthers t meanwhile s u
      → ByOthers t meanwhile s ((meanwhile n).before_update u)
  kept :
      {u v : t.Store}
      → ByOthers t meanwhile s u
      → ((j : ℕ) → t.find v j ≡ t.find u j)
      → ByOthers t meanwhile s v

-- The stock was taken from a row as it stood when the UPDATE came, in a table that only other
-- transactions had changed since the call began: the row had enough of the goods; it is left with the
-- quantity less and its version one higher, and no other row differs. The version that is reported is
-- one higher than that.
pub record Took (t : Table Stock) (request : PlaceOrderRequest) (meanwhile : ℕ → Meanwhile t.Store)
    (s : t.Store) (done : ReserveResult) (s' : t.Store) : Type 0 where
  pub at_update : t.Store
  pub by_others : ByOthers t meanwhile s at_update
  pub row : Stock
  pub was : t.find at_update request.stock_id ≡ some row
  pub enough : request.quantity ≤ℤ row.available
  pub taken :
      t.find s' request.stock_id
      ≡ some
          (record row { available = row.available -ℤ request.quantity; version = row.version + 1 })
  pub version : done.new_version ≡ (row.version + 1) + 1
  pub others_kept : (j : ℕ) → j ≢ request.stock_id → t.find s' j ≡ t.find at_update j

-- The stock has the price of the object that is read first from a table.
pub record PricedBy (t : Table Stock) (request : PlaceOrderRequest) (held : Option Stock)
    (s : t.Store) (stock : Stock) : Type 0 where
  pub first : Stock
  pub read : read_stock t held s request.stock_id ≡ some first
  pub price : stock.price_minor_units ≡ first.price_minor_units

-- An order that was placed, and the reservation behind it.
pub record Placed (t : Table Stock) (request : PlaceOrderRequest)
    (meanwhile : ℕ → Meanwhile t.Store) (held : Option Stock) (s : t.Store) (r : PlaceOrderResult)
    (s' : t.Store) : Type 0 where
  pub done : ReserveResult
  pub took : Took t request meanwhile s done s'
  pub positive : pos 1 ≤ℤ request.quantity
  pub status : r.order.status ≡ reserved
  pub stock_id : r.order.stock_id ≡ request.stock_id
  pub quantity : r.order.quantity ≡ request.quantity
  pub first : Stock
  pub read : read_stock t held s request.stock_id ≡ some first
  pub total : r.order.total_amount_minor_units ≡ first.price_minor_units *ℤ request.quantity
  pub version : r.order.expected_version ≡ (took.row.version + 1) + 1

-- The request that an attempt makes of the inventory.
abbrev pub reserve_request : PlaceOrderRequest → Stock → ReserveRequest
reserve_request request stock = record {
  stock_id = request.stock_id;
  quantity = request.quantity;
  expected_version = stock.version;
}

-- What a reservation of the request from a row reports.
abbrev pub reserved_from : PlaceOrderRequest → Stock → ReserveResult
reserved_from request row = record {
  new_version = row.version + 1 + 1;
  new_available = (row.available -ℤ request.quantity) -ℤ request.quantity;
}

module _ (t : Table Stock) (request : PlaceOrderRequest) where
  attempt-Took :
      (n : ℕ) (meanwhile : ℕ → Meanwhile t.Store) (s u s' : t.Store) (held held' : Option Stock)
      (stock : Stock) (done : ReserveResult)
      → ByOthers t meanwhile s u
      → attempt t request (meanwhile n) held u ≡ (ok (stock, done), held', s')
      → Took t request meanwhile s done s' × PricedBy t request held u stock
  unfolding attempt get_stock
  attempt-Took n meanwhile s u s' held held' stock done b h =
      elim (Option-cases (read_stock t held u request.stock_id)) [
        | inl gone ↦ absurd (ground arith)
        | inr (found, e) ↦
            let (row, object, was, fresh, _, enough, taken, rest, version, read, _, now) =
              reserve_took t (reserve_request request found) (meanwhile n).before_update
                (some found) held' ((meanwhile n).before_read u) s' done (ground arith) in
            (
              record {
                at_update = (meanwhile n).before_update ((meanwhile n).before_read u);
                by_others = update n (read_by n b);
                row = row;
                was = was;
                enough = enough;
                taken = taken;
                version = version;
                others_kept = rest;
              },
              record { first = found; read = e; price = ground arith },
            )
      ]

  -- An attempt that conflicts leaves the table to the other transactions, and an object of the price
  -- that it read.
  attempt_conflict :
      (n : ℕ) (meanwhile : ℕ → Meanwhile t.Store) (s u : t.Store) (held : Option Stock)
      → ByOthers t meanwhile s u
      → is_concurrent_update (attempt t request (meanwhile n) held u).0 ≡ true
      → ByOthers t meanwhile s (attempt t request (meanwhile n) held u).2
        × ((object : Stock) × ((attempt t request (meanwhile n) held u).1 ≡ some object)
            × PricedBy t request held u object)
  unfolding attempt get_stock is_concurrent_update
  attempt_conflict n meanwhile s u held b h =
      elim (Option-cases (read_stock t held u request.stock_id)) [
        | inl gone ↦ absurd (ground arith)
        | inr (found, e) ↦
            let q = reserve_request request found in
            (
              go found e
                  (reserve t q (meanwhile n).before_update (some found)
                    ((meanwhile n).before_read u))
                  refl,
              elim (reserve_held t q (meanwhile n).before_update found
                  ((meanwhile n).before_read u)) [
                    | inl same ↦
                        (found, ground arith, record { first = found; read = e; price = refl })
                    | inr changed ↦ (
                      synchronize q found,
                      ground arith,
                      record { first = found; read = e; price = ground arith },
                    )
                  ],
            )
      ]
    where
      go :
          (found : Stock)
          → read_stock t held u request.stock_id ≡ some found
          → (o : Result ReserveResult × Option Stock × t.Store)
          → reserve t
              (reserve_request request found)
              (meanwhile n).before_update
              (some found)
              ((meanwhile n).before_read u)
            ≡ o
          → ByOthers t meanwhile s (attempt t request (meanwhile n) held u).2
      go found e (ok done, held', v) p = absurd (ground arith)
      go found e (err x, held', v) p =
          let end : (attempt t request (meanwhile n) held u).2 ≡ v = ground arith in
          elim (reserve_raised t (reserve_request request found) (meanwhile n).before_update
            (some found) held' ((meanwhile n).before_read u) v x p) [
              | inl unchanged ↦ rw (end, unchanged) (read_by n b)
              | inr rows ↦ rw end (kept (update n (read_by n b)) rows)
            ]

  -- A table that is read with an object at hand gives that object.
  read_held :
      (object stock : Stock) (u : t.Store)
      → PricedBy t request (some object) u stock
      → stock.price_minor_units ≡ object.price_minor_units
  read_held object stock u p = elim (Option-cases (t.find u request.stock_id)) [
    | inl gone ↦ absurd (ground (arith, p.read))
    | inr (row, e) ↦ ground (arith, p.read, p.price)
  ]

  attempts-Took :
      (n : ℕ) (meanwhile : ℕ → Meanwhile t.Store) (s u s' : t.Store) (held held' : Option Stock)
      (stock : Stock) (done : ReserveResult)
      → ByOthers t meanwhile s u
      → attempts t n request meanwhile held u ≡ (ok (stock, done), held', s')
      → Took t request meanwhile s done s' × PricedBy t request held u stock
  unfolding attempts
  attempts-Took zero meanwhile s u s' held held' stock done b h = absurd (ground arith)
  attempts-Took (suc n) meanwhile s u s' held held' stock done b h =
      elim (Bool-cases (is_concurrent_update (attempt t request (meanwhile n) held u).0)) [
        | inl retry ↦
            let (left, (object, held_now, priced)) =
              attempt_conflict n meanwhile s u held b retry in
            let (took, again) =
              attempts-Took n meanwhile s (attempt t request (meanwhile n) held u).2 s' _ held'
                stock done left (rw retry at h) in
            (
              took,
              record {
                first = priced.first;
                read = priced.read;
                price = read_held object stock _ (rw held_now at again) ∙ priced.price;
              },
            )
        | inr last ↦ attempt-Took n meanwhile s u s' held held' stock done b (rw last at h)
      ]

  -- An order that is placed has reserved its stock: the UPDATE found at least the quantity, in a
  -- table that only commits of other transactions had changed since the call began. The order is
  -- RESERVED, for the quantity asked for, at the price that the first read of the call gave, whatever
  -- the price was at the UPDATE, times the quantity; and it records a version one higher than the
  -- UPDATE left.
  pub place_order_ok :
      (x : Text) (fresh : Fresh) (order_id : ℕ) (meanwhile : ℕ → Meanwhile t.Store)
      (flushed : Result (Unit {0})) (held : Option Stock) (s s' : t.Store) (r : PlaceOrderResult)
      → place_order t x fresh order_id request meanwhile flushed held s ≡ (ok r, s')
      → Placed t request meanwhile held s r s'
  unfolding place_order build_order
  place_order_ok x fresh order_id meanwhile flushed held s s' r h =
      go (attempts t max_reserve_retries request meanwhile held s).0 refl
    where
      go :
          (o : Result (Stock × ReserveResult))
          → (attempts t max_reserve_retries request meanwhile held s).0 ≡ o
          → Placed t request meanwhile held s r s'
      go (err e) p = absurd (ground arith)
      go (ok (stock, done)) p =
          let (took, priced) =
            attempts-Took max_reserve_retries meanwhile s s s' held
              (attempts t max_reserve_retries request meanwhile held s).1 stock done here
              (ground arith) in
          record {
            done = done;
            took = took;
            positive = ground arith;
            status = ground arith;
            stock_id = ground arith;
            quantity = ground arith;
            first = priced.first;
            read = priced.read;
            total = ground (arith, priced.price);
            version = ground (arith, took.version);
          }
