-- ===== src/Inventory/Release.antt =====
-- What `release` of src/modules/inventory/services.py does to the stock table.
use mathlib.Core.Option
use nimbus_commerce_platform.Common.{
  ℕ, ◌+◌, ◌≡◌, ◌⊎◌, inl, inr, true, Option, none, some, arith, ◌==◌, Bool-cases, if◌then◌else◌,
}
use nimbus_commerce_platform.Common.Int.{pos, negsuc, ◌≤ℤ◌, leb_ℤ, -ℤ_+ℤ}
use nimbus_commerce_platform.Errors.{ok, err, value_error}
use nimbus_commerce_platform.Storage.{Table}
use nimbus_commerce_platform.Inventory.{
  Stock, ReserveRequest, ReserveResult, ReleaseRequest, add_quantity, reserve, release,
}
use nimbus_commerce_platform.Inventory.Reserve.{reserve_took}

module _ (t : Table Stock) where
  -- Every branch of a release: a quantity that is not positive is refused and changes nothing; any
  -- other call adds the quantity to the row, if there is one, and changes no other row. Neither its
  -- result nor its effect depends on the expected version.
  pub release_lem :
      (q : ReleaseRequest) (s : t.Store)
      → ((q.quantity ≤ℤ pos 0) × (release t q s ≡ (err value_error, s)))
        ⊎ ((pos 1 ≤ℤ q.quantity)
            × ((release t q s).0
                ≡ ok (elim (t.find s q.stock_id) [ none ↦ negsuc 0 | some _ ↦ pos 0 ]))
            × ((j : ℕ)
                → t.find (release t q s).1 j ≡ (
                    if j == q.stock_id
                    then Option.map (add_quantity q) (t.find s q.stock_id)
                    else t.find s j)))
  unfolding release
  release_lem q s =
      let count = t.update-rowcount s q.stock_id (λ _. true) (add_quantity q) in
      let after = t.find-update s q.stock_id (λ _. true) (add_quantity q) in
      elim (Bool-cases (leb_ℤ q.quantity (pos 0))) [
        | inl bad ↦ inl (ground arith, ground arith)
        | inr good ↦ inr (ground arith, ground (arith, count), λ j. ground (arith, after j))
      ]

  pub find-release :
      (q : ReleaseRequest) (s : t.Store) (j : ℕ)
      → pos 1 ≤ℤ q.quantity
      → t.find (release t q s).1 j ≡ (
          if j == q.stock_id then Option.map (add_quantity q) (t.find s q.stock_id) else t.find s j)
  unfolding release
  find-release q s j positive =
      ground (arith, t.find-update s q.stock_id (λ _. true) (add_quantity q) j)

  -- A release is not idempotent: called again with the same request it adds the quantity again, so
  -- the row ends with twice the quantity.
  pub release_twice :
      (q : ReleaseRequest) (s : t.Store) (row : Stock)
      → pos 1 ≤ℤ q.quantity
      → t.find s q.stock_id ≡ some row
      → let s' = (release t q s).1 in
        ((release t q s').0 ≡ ok (pos 0))
        × (t.find (release t q s').1 q.stock_id ≡ some (add_quantity q (add_quantity q row)))
  unfolding release
  release_twice q s row positive e =
      let s' = (release t q s).1 in
      let after = find-release q s q.stock_id positive in
      let again = find-release q s' q.stock_id positive in
      (
        ground (arith, after, t.update-rowcount s' q.stock_id (λ _. true) (add_quantity q)),
        ground (arith, after, again),
      )

  -- Releasing what a reservation took, after it, gives the row the stock that it had at the moment of
  -- the UPDATE; its version stays one higher.
  pub release-reserve :
      (q : ReserveRequest) (others : t.Store → t.Store) (held held' : Option Stock) (s s' : t.Store)
      (r : ReserveResult) (v : ℕ)
      → reserve t q others held s ≡ (ok r, held', s')
      → (row : Stock) × (t.find (others s) q.stock_id ≡ some row)
        × (t.find
              (release t
                (record { stock_id = q.stock_id; quantity = q.quantity; expected_version = v })
                s').1
              q.stock_id
            ≡ some (record row { version = row.version + 1 }))
  release-reserve q others held held' s s' r v h =
      let (row, _, e, _, positive, _, now, _, _, _, _, _) =
        reserve_took t q others held held' s s' r h in
      let p : ReleaseRequest = record {
        stock_id = q.stock_id;
        quantity = q.quantity;
        expected_version = v;
      } in
      (row, e, ground (arith, find-release p s' q.stock_id, -ℤ_+ℤ row.available q.quantity))
