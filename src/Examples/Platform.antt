-- ===== src/Examples/Platform.antt =====
-- Runs of the database's sessions and of its schema names.
use nimbus_commerce_platform.Common.{ℕ, ◌≡◌, refl, Bool, ◌&&◌, ◌||◌, none, some, [], ◌∷◌, leb}
use nimbus_commerce_platform.Common.Text.{codes}
use nimbus_commerce_platform.Errors.{runtime_error}
use nimbus_commerce_platform.Messaging.Envelope.{end}
use nimbus_commerce_platform.Responses.{Raised}
use nimbus_commerce_platform.Database.{
  Chars, Session, operational, raises, get_session, validate_schema_name, with_schemas,
  driver_details,
}
use nimbus_commerce_platform.Database.Sessions.{Told, get_session_tells}
use nimbus_commerce_platform.Database.Schemas.{read_path, with_schemas_lem}

abbrev is_digit : ℕ → Bool
is_digit c = leb b'0' c && leb c b'9'

-- The methods of `str` on ASCII.
abbrev ascii : Chars
ascii = record {
  is_alnum = λ c. is_digit c || (leb b'a' c && leb c b'z') || (leb b'A' c && leb c b'Z');
  is_digit = is_digit;
  lower = λ s. s;
}

abbrev timed_out : Session
timed_out = record {
  factory = none;
  body = operational "canceling statement due to lock timeout";
  rollback = none;
  close = none;
}

get_session_tells_example :
    (x : Raised) × ((get_session ascii "public" (some "orders") timed_out "payments").end_of
      ≡ raises x)
    × Told ascii "public"
        (λ n. "503")
        (driver_details "orders" "canceling statement due to lock timeout")
        x
unfolding validate_schema_name
get_session_tells_example =
    get_session_tells ascii "public" (λ n. "503") (some "orders") timed_out "payments" "orders" refl
      refl refl refl refl

with_schemas_lem_example :
    read_path (codes "orders, inventory, public")
    ≡ codes "orders" ∷ codes "inventory" ∷ codes "public" ∷ []
unfolding with_schemas
with_schemas_lem_example =
    with_schemas_lem ascii refl refl ("orders" ∷ "inventory" ∷ [])
      (codes "orders, inventory, public") refl

abbrev failed_rollback : Session
failed_rollback = record timed_out {
  rollback = some (record { cls = runtime_error; text = "connection is closed"; details = end });
}
