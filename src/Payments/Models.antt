-- ===== src/Payments/Models.antt =====
-- src/modules/payments/models.py, and the table of allowed transitions of
-- src/modules/payments/services.py.
pub mod Transitions
use nimbus_commerce_platform.Common.{
  ℕ, String, Bool, true, false, Option, List, [], ◌∷◌, if◌then◌else◌,
}
use nimbus_commerce_platform.Common.Int.{ℤ}
use nimbus_commerce_platform.Errors.{Result, ok, err, payment_already_processed}
use nimbus_commerce_platform.Messaging.Envelope.{Json}

pub data PaymentStatus : Type 0 where
  pending authorized captured settled refunded declined failed : PaymentStatus

-- The value of a member of the enum.
abbrev pub value : PaymentStatus → String
value pending = "pending"
value authorized = "authorized"
value captured = "captured"
value settled = "settled"
value refunded = "refunded"
value declined = "declined"
value failed = "failed"

abbrev pub status_eq : PaymentStatus → PaymentStatus → Bool
status_eq pending pending = true
status_eq authorized authorized = true
status_eq captured captured = true
status_eq settled settled = true
status_eq refunded refunded = true
status_eq declined declined = true
status_eq failed failed = true
status_eq _ _ = false

-- A row of payments.payments; its primary key is the key of the table. The audit columns are left
-- out.
pub record Payment : Type 0 where
  pub id : ℕ
  pub status : PaymentStatus
  pub amount_minor_units : ℤ
  pub currency : String

-- A row of payments.outbox_events.
pub record OutboxEvent : Type 0 where
  pub id : ℕ
  pub aggregate_type : String
  pub aggregate_id : String
  pub event_type : String
  pub topic : String
  pub payload : Json
  pub dedupe_id : String
  pub processed : Bool
  pub created_at : ℕ
  pub processed_at : Option ℕ
  pub attempt_count : ℕ
  pub failed : Bool
  pub last_error : Option String

abbrev pub contains : PaymentStatus → List PaymentStatus → Bool
contains s [] = false
contains s (x ∷ xs) = if status_eq s x then true else contains s xs

-- `_ALLOWED_TRANSITIONS.get(current, frozenset())`
abbrev pub allowed_transitions : PaymentStatus → List PaymentStatus
allowed_transitions pending = authorized ∷ PaymentStatus.failed ∷ declined ∷ []
allowed_transitions authorized = captured ∷ declined ∷ []
allowed_transitions captured = settled ∷ refunded ∷ []
allowed_transitions _ = []

unfoldable pub validate_transition : PaymentStatus → PaymentStatus → Result (Unit {0})
validate_transition current new =
    if contains new (allowed_transitions current) then ok tt else err payment_already_processed
