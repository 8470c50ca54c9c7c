-- ===== src/Examples/Sales.antt =====
-- Runs of the inventory and of the orders, on a table with one row.
use nimbus_commerce_platform.Common.{
  ℕ, ◌≡◌, refl, ◌≢◌, ◌+◌, String, if◌then◌else◌, Option, none, some, ◌==◌, arith,
}
use mathlib.Core.Option
use nimbus_commerce_platform.Common.Int.{◌-ℤ◌, ◌+ℤ◌, pos, ◌≤ℤ◌}
use nimbus_commerce_platform.Errors.{ok, err, out_of_stock}
use nimbus_commerce_platform.Storage.{Table}
use nimbus_commerce_platform.Inventory.{
  Stock, ReserveRequest, ReserveResult, take_quantity, read_stock, reserve, get_stock,
}
use nimbus_commerce_platform.Inventory.Reserve.{reserve_took}
use nimbus_commerce_platform.Messaging.Envelope.{EventEnvelope, str, obj, end, field}
use nimbus_commerce_platform.Orders.Services.{
  Order, reserved, failed, shipped, PlaceOrderRequest, PlaceOrderResult, Meanwhile, attempt,
  attempts, is_concurrent_update, place_order, build_order,
}
use nimbus_commerce_platform.Orders.Services.Place.{Placed, place_order_ok}
use nimbus_commerce_platform.Orders.Services.Attempts.{place_order_starves}
use nimbus_commerce_platform.Orders.Handlers.{Tables, order_id_of, on_payment_failed}
use nimbus_commerce_platform.Orders.Handlers.Compensation.{
  on_payment_failed_again, place_order_payment_failed,
}
use nimbus_commerce_platform.Examples.{text, fresh, table, one_row}

abbrev pub stocks : Table Stock
stocks = table Stock

abbrev pub lamp : Stock
lamp = record {
  sku = "LAMP-1";
  name = "Lamp";
  price_minor_units = pos 1999;
  currency = "EUR";
  available = pos 5;
  version = 7;
}

abbrev two_lamps : ReserveRequest
two_lamps = record { stock_id = 1; quantity = pos 2; expected_version = 7 }

abbrev alone : (ℕ → Option Stock) → ℕ → Option Stock
alone s = s

abbrev lamps_left : ℕ → Option Stock
lamps_left = (reserve stocks two_lamps alone none (one_row lamp)).2

abbrev done : ReserveResult
done = record { new_version = 9; new_available = pos 1 }

reserve_took_example :
    (row object : Stock) × (one_row lamp 1 ≡ some row)
    × (row.version ≡ 7)
    × (pos 1 ≤ℤ pos 2)
    × (pos 2 ≤ℤ row.available)
    × (lamps_left 1 ≡ some (take_quantity two_lamps row))
    × ((j : ℕ) → j ≢ 1 → lamps_left j ≡ one_row lamp j)
    × (9 ≡ (take_quantity two_lamps row).version + 1)
    × (read_stock stocks none (one_row lamp) 1 ≡ some object)
    × (pos 1 ≡ (object.available -ℤ pos 2) -ℤ pos 2)
    × (some (take_quantity two_lamps lamp) ≡ some (take_quantity two_lamps object))
unfolding reserve ◌-ℤ◌
reserve_took_example =
    reserve_took stocks two_lamps alone none (some (take_quantity two_lamps lamp)) (one_row lamp)
      lamps_left done refl

abbrev order_two : PlaceOrderRequest
order_two = record { user_id = 4; stock_id = 1; quantity = pos 2 }

abbrev quiet : ℕ → Meanwhile (ℕ → Option Stock)
quiet _ = record { before_read = alone; before_update = alone }

abbrev placed : PlaceOrderResult
placed = build_order text fresh 9 order_two lamp done

abbrev lamps_ordered : ℕ → Option Stock
lamps_ordered = (place_order stocks text fresh 9 order_two quiet (ok tt) none (one_row lamp)).1

place_order_ok_example : Placed stocks order_two quiet none (one_row lamp) placed lamps_ordered
unfolding place_order attempts attempt is_concurrent_update get_stock reserve ◌-ℤ◌ build_order
place_order_ok_example =
    place_order_ok stocks order_two text fresh 9 quiet (ok tt) none (one_row lamp) lamps_ordered
      placed refl

-- Another transaction raises the version, and the stock to a hundred, before every UPDATE.
abbrev newer : (ℕ → Option Stock) → ℕ → Option Stock
newer s j =
    if j == 1
    then Option.map (λ (r : Stock). record r { version = r.version + 1; available = pos 100 }) (s 1)
    else s j

abbrev busy : ℕ → Meanwhile (ℕ → Option Stock)
busy _ = record { before_read = alone; before_update = newer }

abbrev three_lamps : Stock
three_lamps = record lamp { available = pos 3 }

place_order_starves_example :
    (place_order stocks text fresh 9 order_two busy (ok tt) none (one_row three_lamps)).0
    ≡ err out_of_stock
unfolding ◌-ℤ◌
place_order_starves_example =
    place_order_starves stocks order_two text fresh 9 busy (ok tt) none (one_row three_lamps)
      three_lamps (record lamp { version = 8; available = pos 100 }) (omega arith) refl
      (omega arith) (λ h. ground (arith, h)) refl (λ p. ground (arith, p))
      (λ n u row there. (row, there))

abbrev pub orders : Table Order
orders = table Order

abbrev pub order : Order
order = record {
  id = 1;
  user_id = 4;
  stock_id = 1;
  quantity = pos 2;
  expected_version = 8;
  total_amount_minor_units = pos 3998;
  currency = "EUR";
  status = reserved;
}

-- The saga's events name the order 1.
abbrev pub one_is_1 : String → Option ℕ
one_is_1 _ = some 1

abbrev pub event : EventEnvelope
event = record {
  event_id = 3;
  event_type = "payments.payment_failed";
  schema_version = 1;
  aggregate_type = "Payment";
  aggregate_id = "1";
  correlation_id = none;
  causation_id = none;
  occurred_at = "2026-01-01T00:00:00Z";
  payload = obj (field "order_id" (str "1") end);
}

abbrev Db : Type 0
Db = Tables orders stocks

abbrev pub before : Db
before = record { orders = one_row order; stocks = lamps_left }

abbrev shipped_before : Db
shipped_before = record {
  orders = one_row (record order { status = shipped });
  stocks = lamps_left;
}

on_payment_failed_again_example :
    ((on_payment_failed orders stocks one_is_1 event shipped_before).0 ≡ ok tt)
    × ((on_payment_failed orders stocks one_is_1 event shipped_before).1.orders
        ≡ shipped_before.orders)
    × ((on_payment_failed orders stocks one_is_1 event shipped_before).1.stocks 1
        ≡ some (record lamp { available = pos 5; version = 8 }))
unfolding order_id_of reserve ◌-ℤ◌ ◌+ℤ◌
on_payment_failed_again_example =
    on_payment_failed_again orders stocks one_is_1 event shipped_before 1
      (record order { status = shipped }) (record lamp { available = pos 3; version = 8 }) refl refl
      refl (ground arith) (ground arith) (omega arith)

abbrev after_order : Db
after_order = record {
  orders = one_row (build_order text fresh 1 order_two lamp done).order;
  stocks = lamps_left;
}

place_order_payment_failed_example :
    ((on_payment_failed orders stocks one_is_1 event after_order).1.stocks 1
      ≡ some (record lamp { version = 8 }))
    × ((on_payment_failed orders stocks one_is_1 event after_order).1.orders 1
        ≡ some (record (build_order text fresh 1 order_two lamp done).order { status = failed }))
unfolding order_id_of place_order attempts attempt is_concurrent_update get_stock reserve ◌-ℤ◌
    build_order
place_order_payment_failed_example =
    place_order_payment_failed orders stocks one_is_1 text fresh 1 order_two quiet (one_row lamp)
      lamp (build_order text fresh 1 order_two lamp done) event after_order (omega arith) refl refl
      refl refl refl refl
