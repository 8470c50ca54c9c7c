-- ===== src/Responses.antt =====
-- The exception classes of src/core/exceptions.py with what the modules add to them, and the
-- handlers that turn an exception into a response.
pub mod Hierarchy
use nimbus_commerce_platform.Common.{
  ℕ, zero, suc, String, concat, Bool, true, false, Option, none, some, List, [], ◌∷◌, ◌==◌, str_eq,
  if◌then◌else◌,
}
use nimbus_commerce_platform.Errors.{
  Exn, nimbus_error, domain_error, resource_not_found, conflict, idempotency_conflict,
  validation_failed, authentication, permission_denied, rate_limited, infrastructure, database_lock,
  database_connection, cache_unavailable, broker_unavailable, nimbus_timeout, payment_not_found,
  order_not_found, stock_not_found, user_not_found, out_of_stock, concurrent_update,
  user_already_exists, invalid_credentials, token_error,
}
use nimbus_commerce_platform.Messaging.Envelope.{Json, Fields, str, obj, end, field}

-- The class that a class derives from, NimbusError and the classes outside its hierarchy aside.
unfoldable pub base : Exn → Option Exn
base domain_error = some nimbus_error
base resource_not_found = some nimbus_error
base conflict = some nimbus_error
base idempotency_conflict = some conflict
base validation_failed = some nimbus_error
base authentication = some nimbus_error
base permission_denied = some nimbus_error
base rate_limited = some nimbus_error
base infrastructure = some nimbus_error
base database_lock = some infrastructure
base database_connection = some infrastructure
base cache_unavailable = some infrastructure
base broker_unavailable = some infrastructure
base nimbus_timeout = some nimbus_error
base payment_not_found = some resource_not_found
base order_not_found = some resource_not_found
base stock_not_found = some resource_not_found
base user_not_found = some resource_not_found
base out_of_stock = some conflict
base concurrent_update = some conflict
base user_already_exists = some conflict
base invalid_credentials = some authentication
base token_error = some authentication
base _ = none

-- `status_code`, `code` and `safe_message`, where the class sets them itself.
unfoldable pub own_status : Exn → Option ℕ
own_status nimbus_error = some 500
own_status domain_error = some 422
own_status resource_not_found = some 404
own_status conflict = some 409
own_status validation_failed = some 400
own_status authentication = some 401
own_status permission_denied = some 403
own_status rate_limited = some 429
own_status infrastructure = some 503
own_status nimbus_timeout = some 504
own_status _ = none

unfoldable pub own_code : Exn → Option String
own_code nimbus_error = some "nimbus.internal_error"
own_code domain_error = some "nimbus.domain_error"
own_code resource_not_found = some "nimbus.not_found"
own_code conflict = some "nimbus.conflict"
own_code idempotency_conflict = some "nimbus.idempotency_conflict"
own_code validation_failed = some "nimbus.validation_failed"
own_code authentication = some "nimbus.unauthenticated"
own_code permission_denied = some "nimbus.forbidden"
own_code rate_limited = some "nimbus.rate_limited"
own_code infrastructure = some "nimbus.infrastructure_error"
own_code database_lock = some "nimbus.db_lock"
own_code database_connection = some "nimbus.db_connection"
own_code cache_unavailable = some "nimbus.cache_unavailable"
own_code broker_unavailable = some "nimbus.broker_unavailable"
own_code nimbus_timeout = some "nimbus.timeout"
own_code payment_not_found = some "payments.not_found"
own_code order_not_found = some "orders.not_found"
own_code stock_not_found = some "inventory.not_found"
own_code user_not_found = some "users.not_found"
own_code out_of_stock = some "inventory.out_of_stock"
own_code concurrent_update = some "inventory.concurrent_update"
own_code user_already_exists = some "users.email_taken"
own_code invalid_credentials = some "users.invalid_credentials"
own_code _ = none

unfoldable pub own_message : Exn → Option String
own_message nimbus_error = some "An internal error occurred."
own_message domain_error = some "A business rule was violated."
own_message resource_not_found = some "The requested resource was not found."
own_message conflict = some "The request conflicts with the current state."
own_message idempotency_conflict =
    some "A request with this idempotency key is already in progress."
own_message validation_failed = some "Input validation failed."
own_message authentication = some "Authentication required."
own_message permission_denied = some "You do not have permission to perform this action."
own_message rate_limited = some "Too many requests. Please retry later."
own_message infrastructure = some "A downstream dependency is unavailable."
own_message database_lock = some "The database is busy. Please retry."
own_message database_connection = some "Cannot reach the database."
own_message cache_unavailable = some "The cache layer is unavailable."
own_message broker_unavailable = some "The message broker is unavailable."
own_message nimbus_timeout = some "The operation timed out."
own_message payment_not_found = some "Payment not found."
own_message order_not_found = some "Order not found."
own_message stock_not_found = some "Stock not found."
own_message user_not_found = some "User not found."
own_message out_of_stock = some "Insufficient stock for the requested quantity."
own_message concurrent_update = some "The stock was modified concurrently. Please retry."
own_message user_already_exists = some "An account with that email already exists."
own_message invalid_credentials = some "Invalid email or password."
own_message _ = none

-- The value of a class attribute: the class's own, or that of the nearest ancestor that sets it.
-- The hierarchy is three classes deep, so three steps up are enough.
unfoldable pub resolve : {A : Type 0} → (Exn → Option A) → ℕ → Exn → Option A
unfolding base
resolve own zero e = own e
resolve own (suc n) e = elim (own e) [
  | some a ↦ some a
  | none ↦ elim (base e) [ none ↦ none | some b ↦ resolve own n b ]
]

-- What the handler of NimbusError reads of the class of an exception.
pub record ErrorClass : Type 0 where
  pub status_code : ℕ
  pub code : String
  pub safe_message : String

-- The attributes of a class, `none` outside the hierarchy.
unfoldable pub class_of : Exn → Option ErrorClass
unfolding resolve own_status own_code own_message
class_of e = elim (resolve own_status 3 e) [
  | none ↦ none
  | some status_code ↦ elim (resolve own_code 3 e) [
    | none ↦ none
    | some code ↦ elim (resolve own_message 3 e) [
      | none ↦ none
      | some safe_message ↦
          some (record { status_code = status_code; code = code; safe_message = safe_message })
    ]
  ]
]

-- An exception with its text and its details.
pub record Raised : Type 0 where
  pub cls : Exn
  pub text : String
  pub details : Fields

abbrev pub message_of : Option ErrorClass → String
message_of none = ""
message_of (some c) = c.safe_message

-- `NimbusError.__init__`: an empty message counts as none.
unfoldable pub nimbus : Exn → Option String → Option Fields → Raised
unfolding class_of
nimbus e message details = record {
  cls = e;
  text = elim message [
    | some m ↦ if str_eq m "" then message_of (class_of e) else m
    | none ↦ message_of (class_of e)
  ];
  details = elim details [ some d ↦ d | none ↦ end ];
}

pub record Response : Type 0 where
  pub status_code : ℕ
  pub content : Json
  pub headers : List (String × String)

-- `_error_payload`
unfoldable pub error_payload : String → String → Option Fields → Json
error_payload code message details = obj (
    field "error"
      (obj (
        field "code" (str code) (
          field "message" (str message)
            (field "details" (obj (elim details [ some d ↦ d | none ↦ end ])) end))))
      end)

-- What leaves a route: an `Exception`, pydantic's rejection of the request with `exc.errors()`, or an
-- HTTPException with its status and its detail, where that is a text.
pub data Thrown : Type 0 where
  raised : Raised → Thrown
  invalid_request : Json → Thrown
  http_error : ℕ → Option String → Thrown

abbrev pub internal_error : Response
unfolding error_payload
internal_error = record {
  status_code = 500;
  content = error_payload "nimbus.internal_error" "An internal error occurred." none;
  headers = [];
}

-- The handlers of `_install_handlers`, by the class of what was thrown; `str_int` prints a number.
unfoldable pub respond : (ℕ → String) → Thrown → Response
unfolding class_of error_payload
respond str_int (raised x) = elim (class_of x.cls) [
  | some c ↦ record {
    status_code = c.status_code;
    content = error_payload c.code c.safe_message (some x.details);
    headers = ("X-Error-Code", c.code) ∷ [];
  }
  | none ↦ internal_error
]
respond str_int (invalid_request errors) = record {
  status_code = 422;
  content =
      error_payload "nimbus.invalid_request" "The request payload failed validation."
        (some (field "errors" errors end));
  headers = [];
}
respond str_int (http_error status_code detail) = record {
  status_code = status_code;
  content =
      error_payload (concat "http." (str_int status_code))
        (elim detail [ some message ↦ message | none ↦ "HTTP error." ]) none;
  headers = [];
}
