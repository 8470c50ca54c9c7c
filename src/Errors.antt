-- ===== src/Errors.antt =====
-- The exceptions of src/core/exceptions.py and of the modules, as one data type, and the results of
-- code that may raise.
use nimbus_commerce_platform.Common.{ℕ, Bool, true, false, ◌≡◌, refl, ◌⊎◌, inl, inr, if◌then◌else◌}

-- One constructor for each exception class that the modelled code raises or tells apart: the
-- hierarchy of src/core/exceptions.py, the classes that the modules add to it, and the exceptions
-- from outside it. `other n` is any exception that the code names nowhere.
pub data Exn : Type 0 where
  nimbus_error domain_error resource_not_found conflict idempotency_conflict : Exn
  validation_failed authentication permission_denied rate_limited : Exn
  infrastructure database_lock database_connection cache_unavailable broker_unavailable : Exn
  nimbus_timeout : Exn
  payment_not_found order_not_found stock_not_found user_not_found : Exn
  out_of_stock concurrent_update user_already_exists invalid_credentials token_error : Exn
  payment_already_processed password_error value_error runtime_error : Exn
  attribute_error integrity_error operational_error cancelled : Exn
  other : ℕ → Exn

pub data Result (A : Type 0) : Type 0 where
  ok : A → Result A
  err : Exn → Result A

infixl 5 ◌>>=◌ ◌>>◌
abbrev pub ◌>>=◌ : {A B : Type 0} → Result A → (A → Result B) → Result B
ok a >>= f = f a
err e >>= f = err e

abbrev pub ◌>>◌ : {A B : Type 0} → Result A → Result B → Result B
m >> k = m >>= λ _. k

abbrev pub is_ok : {A : Type 0} → Result A → Bool
is_ok (ok _) = true
is_ok (err _) = false

-- `if test: raise e`
abbrev pub raise_if : Bool → Exn → Result (Unit {0})
raise_if test e = if test then err e else ok tt

-- `except Exception` catches all but `asyncio.CancelledError`, which is a BaseException.
abbrev pub is_exception : Exn → Bool
is_exception cancelled = false
is_exception _ = true

-- A value, or an exception that `except Exception` catches.
abbrev pub is_survived : {A : Type 0} → Result A → Bool
is_survived (ok _) = true
is_survived (err e) = is_exception e

-- `except Exception: return False`
abbrev pub false_on_exception : Result Bool → Result Bool
false_on_exception (ok b) = ok b
false_on_exception (err e) = if is_exception e then ok false else err e

pub Result-cases : {A : Type 0} (r : Result A) → ((a : A) × (r ≡ ok a)) ⊎ ((e : Exn) × (r ≡ err e))
Result-cases (ok a) = inl (a, refl)
Result-cases (err e) = inr (e, refl)
