-- ===== src/Payments/Models/Transitions.antt =====
-- The life of a payment under src/modules/payments: its diagram, and how long it can be.
use nimbus_commerce_platform.Common.{ℕ, suc, ◌≤◌, ◌≡◌, refl, ◌↔◌, List, [], ◌∷◌, arith}
use nimbus_commerce_platform.Errors.{Result, ok, err}
use nimbus_commerce_platform.Payments.Models.{
  PaymentStatus, pending, authorized, captured, settled, refunded, declined, failed,
  validate_transition,
}

-- The diagram of the models' documentation, with the edge from pending to declined that the table
-- of the service adds.
infix 40 ◌⟶◌
pub data ◌⟶◌ : PaymentStatus → PaymentStatus → Type 0 where
  authorize : pending ⟶ authorized
  fail : pending ⟶ failed
  decline_pending : pending ⟶ declined
  capture : authorized ⟶ captured
  decline : authorized ⟶ declined
  settle : captured ⟶ settled
  refund : captured ⟶ refunded

⟶-allowed : {s t : PaymentStatus} → s ⟶ t → validate_transition s t ≡ ok tt
unfolding validate_transition
⟶-allowed authorize = refl
⟶-allowed fail = refl
⟶-allowed decline_pending = refl
⟶-allowed capture = refl
⟶-allowed decline = refl
⟶-allowed settle = refl
⟶-allowed refund = refl

-- The check lets a change of status through exactly when the diagram has an edge for it.
pub validate_transition_iff : (s t : PaymentStatus) → (validate_transition s t ≡ ok tt) ↔ (s ⟶ t)
unfolding validate_transition
validate_transition_iff s t = (
  λ h. grind (arith, authorize, fail, decline_pending, capture, decline, settle, refund),
  ⟶-allowed,
)

-- The statuses that a payment passes through when the changes of a list are asked for one after
-- another: a change that the check refuses leaves it where it is.
abbrev pub accept : Result (Unit {0}) → PaymentStatus → PaymentStatus → PaymentStatus
accept (ok _) s t = t
accept (err _) s t = s

abbrev pub accepted : Result (Unit {0}) → ℕ → ℕ
accepted (ok _) n = suc n
accepted (err _) n = n

-- How many of the changes go through.
abbrev pub changes : PaymentStatus → List PaymentStatus → ℕ
changes s [] = 0
changes s (t ∷ ts) = let r = validate_transition s t in accepted r (changes (accept r s t) ts)

-- How many changes lie ahead at most.
abbrev rank : PaymentStatus → ℕ
rank pending = 3
rank authorized = 2
rank captured = 1
rank _ = 0

changes-le-rank : (s : PaymentStatus) (ts : List PaymentStatus) → changes s ts ≤ rank s
unfolding validate_transition
changes-le-rank s [] = omega arith
changes-le-rank s (t ∷ ts) = ground (arith, changes-le-rank s ts, changes-le-rank t ts)

-- Whatever changes are asked for, at most three of them go through in the life of a payment.
pub changes_bounded : (s : PaymentStatus) (ts : List PaymentStatus) → changes s ts ≤ 3
changes_bounded s ts = ground (arith, changes-le-rank s ts)
