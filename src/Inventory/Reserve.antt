-- ===== src/Inventory/Reserve.antt =====
-- What `reserve` of src/modules/inventory/services.py does to the stock table, on every branch.
use nimbus_commerce_platform.Common.{
  ℕ, ◌≡◌, ◌≢◌, ◌↔◌, false, ◌+◌, ◌⊎◌, Option, none, some, arith, refl, Option-cases, Bool-cases, inl,
  inr,
}
use nimbus_commerce_platform.Common.Int.{pos, ◌-ℤ◌, ◌≤ℤ◌, leb_ℤ}
use nimbus_commerce_platform.Errors.{Exn, Result, ok, err, concurrent_update, Result-cases}
use nimbus_commerce_platform.Storage.{Table}
use nimbus_commerce_platform.Inventory.{
  Stock, ReserveRequest, ReserveResult, read_stock, check_stock, is_reservable, take_quantity,
  synchronize, reserve,
}

module _ (t : Table Stock) where
  -- A reservation that succeeds took the quantity from a row that had the expected version and
  -- enough stock at the moment of the UPDATE, whatever other transactions committed before it; it
  -- raised the version by one and touched no other row. What it reports is not what it left: the
  -- version is one too high, and the stock is that of the object which it read less the quantity
  -- twice.
  pub reserve_took :
      (q : ReserveRequest) (others : t.Store → t.Store) (held held' : Option Stock) (s s' : t.Store)
      (r : ReserveResult)
      → reserve t q others held s ≡ (ok r, held', s')
      → (row object : Stock) × (t.find (others s) q.stock_id ≡ some row)
        × (row.version ≡ q.expected_version)
        × (pos 1 ≤ℤ q.quantity)
        × (q.quantity ≤ℤ row.available)
        × (t.find s' q.stock_id ≡ some (take_quantity q row))
        × ((j : ℕ) → j ≢ q.stock_id → t.find s' j ≡ t.find (others s) j)
        × (r.new_version ≡ (take_quantity q row).version + 1)
        × (read_stock t held s q.stock_id ≡ some object)
        × (r.new_available ≡ (object.available -ℤ q.quantity) -ℤ q.quantity)
        × (held' ≡ some (take_quantity q object))
  unfolding reserve
  reserve_took q others held held' s s' r h = elim (Option-cases (t.find (others s) q.stock_id)) [
    | inl gone ↦ absurd (
        ground (arith, t.update-rowcount (others s) q.stock_id (is_reservable q) (take_quantity q)))
    | inr (row, e) ↦ elim (Option-cases (read_stock t held s q.stock_id)) [
      | inl unread ↦ absurd (ground arith)
      | inr (object, read) ↦
          let count = t.update-rowcount (others s) q.stock_id (is_reservable q) (take_quantity q) in
          let after = t.find-update (others s) q.stock_id (is_reservable q) (take_quantity q) in
          (
            row,
            object,
            e,
            ground (arith, count),
            ground (arith, count),
            ground (arith, count),
            ground (arith, count, after q.stock_id),
            λ j ne. ground (arith, after j),
            ground (arith, count),
            read,
            ground (arith, count),
            ground (arith, count),
          )
    ]
  ]

  -- A reservation that raises changes no row: the table is the one the call found, or has the rows
  -- that the other transactions left.
  pub reserve_raised :
      (q : ReserveRequest) (others : t.Store → t.Store) (held held' : Option Stock) (s s' : t.Store)
      (e : Exn)
      → reserve t q others held s ≡ (err e, held', s')
      → (s' ≡ s) ⊎ ((j : ℕ) → t.find s' j ≡ t.find (others s) j)
  unfolding reserve
  reserve_raised q others held held' s s' e h = elim (Bool-cases (leb_ℤ q.quantity (pos 0))) [
    | inl bad ↦ inl (ground arith)
    | inr good ↦ go (check_stock q (read_stock t held s q.stock_id)) good refl
  ]
    where
      go :
          (r : Result Stock)
          → leb_ℤ q.quantity (pos 0) ≡ false
          → check_stock q (read_stock t held s q.stock_id) ≡ r
          → (s' ≡ s) ⊎ ((j : ℕ) → t.find s' j ≡ t.find (others s) j)
      go (err _) good p = inl (ground arith)
      go (ok object) good p =
          let count = t.update-rowcount (others s) q.stock_id (is_reservable q) (take_quantity q) in
          let after = t.find-update (others s) q.stock_id (is_reservable q) (take_quantity q) in
          inr (λ j. ground (arith, count, after j))

  -- With no other transaction in between and no object held, which requests succeed: those for a
  -- positive quantity of a row that is there, has the expected version and holds enough.
  pub reserve_iff :
      (q : ReserveRequest) (s : t.Store)
      → ((r : ReserveResult) × ((reserve t q (λ u. u) none s).0 ≡ ok r)) ↔ (
          (row : Stock) × (t.find s q.stock_id ≡ some row)
          × (pos 1 ≤ℤ q.quantity)
          × (row.version ≡ q.expected_version)
          × (q.quantity ≤ℤ row.available))
  unfolding reserve
  reserve_iff q s =
      let count = t.update-rowcount s q.stock_id (is_reservable q) (take_quantity q) in
      (
        λ (r, h). elim (Option-cases (t.find s q.stock_id)) [
          | inl gone ↦ absurd (ground arith)
          | inr (row, e) ↦ (row, e, ground arith, ground arith, ground arith)
        ],
        λ (row, e, positive, fresh, enough). (
          record {
            new_version = row.version + 1 + 1;
            new_available = (row.available -ℤ q.quantity) -ℤ q.quantity;
          },
          ground (arith, count),
        ),
      )

  -- Two reservations that expect the same version of a row: after the first has succeeded, the second,
  -- in a session that holds no object of the row, raises ConcurrentUpdateError, whatever positive
  -- quantity it asks for.
  reserve-reserve :
      (q p : ReserveRequest) (others : t.Store → t.Store) (held held' : Option Stock)
      (s s' : t.Store) (r : ReserveResult)
      → reserve t q others held s ≡ (ok r, held', s')
      → p.stock_id ≡ q.stock_id
      → p.expected_version ≡ q.expected_version
      → pos 1 ≤ℤ p.quantity
      → (u : t.Store → t.Store) → (reserve t p u none s').0 ≡ err concurrent_update
  unfolding reserve
  reserve-reserve q p others held held' s s' r h same version positive u =
      let (row, _, _, fresh, _, _, now, _, _, _, _, _) =
        reserve_took q others held held' s s' r h in
      ground arith

  -- The object that the session holds for the row: a reservation leaves it as it is, or as the UPDATE
  -- would leave the row if it had the object's values, whether or not it succeeds.
  pub reserve_held :
      (q : ReserveRequest) (others : t.Store → t.Store) (object : Stock) (s : t.Store)
      → ((reserve t q others (some object) s).1 ≡ some object)
        ⊎ ((reserve t q others (some object) s).1 ≡ some (synchronize q object))
  unfolding reserve
  reserve_held q others object s = elim (Bool-cases (leb_ℤ q.quantity (pos 0))) [
    | inl bad ↦ inl (ground arith)
    | inr good ↦ elim (Option-cases (t.find s q.stock_id)) [
      | inl gone ↦ inl (ground arith)
      | inr (row, e) ↦ elim (Result-cases (check_stock q (some object))) [
        | inl (passed, p) ↦ inr (ground arith)
        | inr (x, p) ↦ inl (ground arith)
      ]
    ]
  ]
