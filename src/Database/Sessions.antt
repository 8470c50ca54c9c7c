-- ===== src/Database/Sessions.antt =====
-- What `get_session` of src/core/database.py leaves behind, and what a client is told of it.
use nimbus_commerce_platform.Common.{
  ℕ, String, ◌≡◌, refl, Bool-cases, Bool, true, false, ◌||◌, Option, none, some, arith, ◌==◌, inl,
  inr,
}
use nimbus_commerce_platform.Errors.{database_lock, database_connection, nimbus_timeout, ok}
use nimbus_commerce_platform.Responses.{Raised, raised, error_payload, respond, nimbus}
use nimbus_commerce_platform.Messaging.Envelope.{Fields, str, end, field}
use nimbus_commerce_platform.Database.{
  Chars, Body, returned, operational, dbapi, timed_out, raised_nimbus, raised_other, uncaught,
  convert, raises, Session, schema_or_default, get_session, validate_schema_name, driver_details,
  is_busy,
}

-- An error of the database's driver.
abbrev pub is_driver_error : Body → Bool
is_driver_error (operational _) = true
is_driver_error (dbapi _) = true
is_driver_error timed_out = true
is_driver_error _ = false

module _ (chars : Chars) (default : String) where
  -- Where the session cannot be closed, the schema of this call stays current after it.
  pub get_session_stuck :
      (schema : Option String) (s : Session) (before target : String) (x : Raised)
      → validate_schema_name chars (schema_or_default schema default) ≡ ok target
      → s.factory ≡ none
      → s.close ≡ some x
      → ((get_session chars default schema s before).current_schema ≡ target)
        × ((get_session chars default schema s before).end_of ≡ raises x)
  unfolding get_session
  get_session_stuck schema s before target x v f c = (ground arith, ground arith)

  abbrev pub details_of : String → Body → Fields
  details_of target (operational text) = driver_details target text
  details_of target (dbapi text) = driver_details target text
  details_of target b = field "schema" (str target) end

  -- What is known of an exception that a clause made of a driver's error: it is answered with 503 or
  -- 504, and with the details, as they are, in the body.
  pub record Told (str_int : ℕ → String) (details : Fields) (x : Raised) : Type 0 where
    pub status :
        ((respond str_int (raised x)).status_code == 503
          || (respond str_int (raised x)).status_code == 504)
        ≡ true
    pub code : String
    pub message : String
    pub content : (respond str_int (raised x)).content ≡ error_payload code message (some details)

  answer_locked :
      (str_int : ℕ → String) (m : String) (details : Fields)
      → Told str_int details (nimbus database_lock (some m) (some details))
  unfolding respond nimbus
  answer_locked str_int m details = record {
    status = refl;
    code = "nimbus.db_lock";
    message = "The database is busy. Please retry.";
    content = refl;
  }

  answer_unconnected :
      (str_int : ℕ → String) (m : String) (details : Fields)
      → Told str_int details (nimbus database_connection (some m) (some details))
  unfolding respond nimbus
  answer_unconnected str_int m details = record {
    status = refl;
    code = "nimbus.db_connection";
    message = "Cannot reach the database.";
    content = refl;
  }

  answer_late :
      (str_int : ℕ → String) (m : String) (details : Fields)
      → Told str_int details (nimbus nimbus_timeout (some m) (some details))
  unfolding respond nimbus
  answer_late str_int m details = record {
    status = refl;
    code = "nimbus.timeout";
    message = "The operation timed out.";
    content = refl;
  }

  convert-Told :
      (str_int : ℕ → String) (target : String) (b : Body)
      → is_driver_error b ≡ true
      → (x : Raised) × (convert chars target b ≡ some x) × Told str_int (details_of target b) x
  unfolding convert
  convert-Told str_int target returned h = absurd (ground arith)
  convert-Told str_int target (operational text) h = elim (Bool-cases (is_busy chars text)) [
    | inl q ↦
        let x =
          nimbus database_lock (some "Database was busy. Please retry.")
            (some (driver_details target text)) in
        (
          x,
          rw q refl,
          answer_locked str_int "Database was busy. Please retry." (driver_details target text),
        )
    | inr q ↦
        let x =
          nimbus database_connection (some "Database is unreachable.")
            (some (driver_details target text)) in
        (
          x,
          rw q refl,
          answer_unconnected str_int "Database is unreachable." (driver_details target text),
        )
  ]
  convert-Told str_int target (dbapi text) h = (
    _,
    refl,
    answer_unconnected str_int "Database connection failed." (driver_details target text),
  )
  convert-Told str_int target timed_out h =
      (_, refl, answer_late str_int "Database operation timed out." _)
  convert-Told str_int target (raised_nimbus x) h = absurd (ground arith)
  convert-Told str_int target (raised_other x) h = absurd (ground arith)
  convert-Told str_int target (uncaught x) h = absurd (ground arith)

  -- An error of the driver in the body of a session whose schema is accepted, whose factory is
  -- there and that can be rolled back and closed: the caller gets an exception that is answered with
  -- 503 or 504, and the answer carries the schema and, but for a timeout, the text of the driver.
  pub get_session_tells :
      (str_int : ℕ → String) (schema : Option String) (s : Session) (before target : String)
      → validate_schema_name chars (schema_or_default schema default) ≡ ok target
      → s.factory ≡ none
      → s.rollback ≡ none
      → s.close ≡ none
      → is_driver_error s.body ≡ true
      → (x : Raised) × ((get_session chars default schema s before).end_of ≡ raises x)
        × Told str_int (details_of target s.body) x
  unfolding get_session
  get_session_tells str_int schema s before target v f r c d =
      let (x, q, told) = convert-Told str_int target s.body d in (x, ground arith, told)
