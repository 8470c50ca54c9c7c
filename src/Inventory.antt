-- ===== src/Inventory.antt =====
-- src/modules/inventory/models.py and src/modules/inventory/services.py: the stock table and the
-- optimistic lock around it. What other transactions commit between two statements of a call is the
-- argument `others`; the stock table is a parameter. The object that the session holds for the row of a
-- request is an argument `held`: a SELECT returns that object with the values that it has, and an UPDATE
-- changes it in memory too, as SQLAlchemy does by default (synchronize_session).
pub mod Reserve
pub mod Release
use nimbus_commerce_platform.Common.{
  ℕ, ◌+◌, String, Bool, ◌&&◌, not, Option, none, some, ◌==◌, if◌then◌else◌,
}
use mathlib.Core.Option
use nimbus_commerce_platform.Common.Int.{ℤ, pos, negsuc, ◌+ℤ◌, ◌-ℤ◌, ltb_ℤ, leb_ℤ}
use nimbus_commerce_platform.Errors.{
  Result, ok, err, ◌>>=◌, stock_not_found, concurrent_update, out_of_stock, value_error,
}
use nimbus_commerce_platform.Storage.{Table}

-- A row of inventory.stock; its primary key is the key of the table. The audit columns are left out.
pub record Stock : Type 0 where
  pub sku : String
  pub name : String
  pub price_minor_units : ℤ
  pub currency : String
  pub available : ℤ
  pub version : ℕ

pub record ReserveRequest : Type 0 where
  pub stock_id : ℕ
  pub quantity : ℤ
  pub expected_version : ℕ

pub record ReserveResult : Type 0 where
  pub new_version : ℕ
  pub new_available : ℤ

pub record ReleaseRequest : Type 0 where
  pub stock_id : ℕ
  pub quantity : ℤ
  pub expected_version : ℕ

-- The WHERE clause of the UPDATE in `reserve`, beside the id.
abbrev pub is_reservable : ReserveRequest → Stock → Bool
is_reservable q row = row.version == q.expected_version && leb_ℤ q.quantity row.available

-- The SET clause of the UPDATE in `reserve`.
abbrev pub take_quantity : ReserveRequest → Stock → Stock
take_quantity q row = record row {
  available = row.available -ℤ q.quantity;
  version = row.version + 1;
}

-- The SET clause of the UPDATE in `release`.
abbrev pub add_quantity : ReleaseRequest → Stock → Stock
add_quantity q row = record row { available = row.available +ℤ q.quantity }

-- The identity map of a session: the object that it holds, and otherwise one made of the row.
abbrev pub identity : Option Stock → Stock → Stock
identity none row = row
identity (some object) row = object

-- What the UPDATE of `reserve` does to the object in memory, where that meets the WHERE clause; it does
-- so whether or not a row did.
abbrev pub synchronize : ReserveRequest → Stock → Stock
synchronize q object = if is_reservable q object then take_quantity q object else object

abbrev pub held_after : Option Stock → Option Stock → Option Stock
held_after held none = held
held_after held (some object) = some object

-- The checks of `reserve` on the object that it reads first.
abbrev pub check_stock : ReserveRequest → Option Stock → Result Stock
check_stock q none = err stock_not_found
check_stock q (some object) =
    if not (object.version == q.expected_version)
    then err concurrent_update
    else (if ltb_ℤ object.available q.quantity then err out_of_stock else ok object)

module _ (t : Table Stock) where
  -- `_read_stock`
  abbrev pub read_stock : Option Stock → t.Store → ℕ → Option Stock
  read_stock held s id = Option.map (identity held) (t.find s id)

  -- The UPDATE of `reserve` and what follows it, which reads the object that the checks passed as the
  -- UPDATE has left it.
  pub update_stock :
      ReserveRequest → Stock → t.Store → Result ReserveResult × Option Stock × t.Store
  update_stock q object s =
      let (rowcount, s') = t.update s q.stock_id (is_reservable q) (take_quantity q) in
      let now = synchronize q object in
      if not (rowcount == 1) then (err concurrent_update, some now, s') else (
        ok (record { new_version = now.version + 1; new_available = now.available -ℤ q.quantity }),
        some now,
        s',
      )

  -- The part of `reserve` below its check of the quantity, given what it read.
  pub reserve_row :
      ReserveRequest
      → (t.Store → t.Store)
      → Option Stock
      → Result Stock
      → t.Store
      → Result ReserveResult × Option Stock × t.Store
  unfolding update_stock
  reserve_row q others held (err e) s = (err e, held, s)
  reserve_row q others held (ok object) s = update_stock q object (others s)

  unfoldable pub reserve :
      ReserveRequest
      → (t.Store → t.Store)
      → Option Stock
      → t.Store
      → Result ReserveResult × Option Stock × t.Store
  unfolding reserve_row
  reserve q others held s =
      let read = read_stock held s q.stock_id in
      if leb_ℤ q.quantity (pos 0)
      then (err value_error, held, s)
      else reserve_row q others (held_after held read) (check_stock q read) s

  -- -1 where no row was there, and 0 otherwise.
  unfoldable pub release : ReleaseRequest → t.Store → Result ℤ × t.Store
  release q s =
      if leb_ℤ q.quantity (pos 0)
      then (err value_error, s)
      else (let (rowcount, s') = t.update s q.stock_id (λ _. Bool.true) (add_quantity q) in
          (if rowcount == 0 then ok (negsuc 0) else ok (pos 0), s'))

  unfoldable pub get_stock : Option Stock → t.Store → ℕ → Result Stock
  get_stock held s id = elim (read_stock held s id) [
    | none ↦ err stock_not_found
    | some object ↦ ok object
  ]
