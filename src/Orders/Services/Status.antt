-- ===== src/Orders/Services/Status.antt =====
-- `update_order_status` of src/modules/orders/services.py as a state machine.
use nimbus_commerce_platform.Common.{
  ℕ, ◌≡◌, refl, ◌⊎◌, inl, inr, true, some, arith, ◌==◌, if◌then◌else◌, Option-cases, Bool-cases,
}
use nimbus_commerce_platform.Errors.{ok}
use nimbus_commerce_platform.Storage.{Table}
use nimbus_commerce_platform.Orders.Services.{
  OrderStatus, pending, reserved, paid, failed, Order, status_applies, update_order_status,
}

-- The changes of status that the service makes.
infix 40 ◌⟶◌
pub data ◌⟶◌ : OrderStatus → OrderStatus → Type 0 where
  pay : reserved ⟶ paid
  fail : reserved ⟶ failed
  fail_pending : pending ⟶ failed

⟶-applies : {c n : OrderStatus} → c ⟶ n → status_applies c n ≡ true
⟶-applies pay = refl
⟶-applies fail = refl
⟶-applies fail_pending = refl

⟶-target : {c n : OrderStatus} → c ⟶ n → (n ≡ paid) ⊎ (n ≡ failed)
⟶-target pay = inl refl
⟶-target fail = inr refl
⟶-target fail_pending = inr refl

applies-⟶ : (c n : OrderStatus) → (n ≡ paid) ⊎ (n ≡ failed) → status_applies c n ≡ true → c ⟶ n
applies-⟶ c n s h = grind (arith, pay, fail, fail_pending)

module _ (t : Table Order) where
  -- An update to PAID or FAILED of an order that is there: where the diagram has the edge the order
  -- is returned and stored with the new status and no other order changes; where it has none the
  -- order is returned as it is and the table is left alone.
  pub update_order_status_lem :
      (id : ℕ) (new : OrderStatus) (s : t.Store) (order : Order)
      → (new ≡ paid) ⊎ (new ≡ failed)
      → t.find s id ≡ some order
      → let (r, s') = update_order_status t id new s in
        ((order.status ⟶ new)
          × (r ≡ ok (record order { status = new }))
          × ((j : ℕ)
              → t.find s' j
                ≡ (if j == id then some (record order { status = new }) else t.find s j)))
        ⊎ ((¬ (order.status ⟶ new)) × (r ≡ ok order) × (s' ≡ s))
  unfolding update_order_status
  update_order_status_lem id new s order target e =
      let changed = record order { status = new } in
      elim (Bool-cases (status_applies order.status new)) [
        | inl applies ↦ inl (
          applies-⟶ order.status new target applies,
          ground (arith, applies),
          λ j. ground (arith, applies, t.find-update s id (λ _. true) (λ _. changed) j),
        )
        | inr stays ↦
            inr (λ edge. cc (⟶-applies edge, stays), ground (arith, stays), ground (arith, stays))
      ]

  -- A second delivery of a change is a no-op: it succeeds with the order as the first one left it, and
  -- leaves the table alone.
  pub update_order_status_twice :
      (id : ℕ) (new : OrderStatus) (s s' : t.Store) (order : Order)
      → update_order_status t id new s ≡ (ok order, s')
      → update_order_status t id new s' ≡ (ok order, s')
  unfolding update_order_status
  update_order_status_twice id new s s' order h = elim (Option-cases (t.find s id)) [
    | inl gone ↦ absurd (ground arith)
    | inr (found, e) ↦
        ground (arith, t.find-update s id (λ _. true) (λ _. record found { status = new }) id)
  ]
