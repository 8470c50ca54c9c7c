-- ===== src/Database.antt =====
-- The sessions of src/core/database.py: the names of schemas, the exceptions that a session turns into
-- others, the schema that is current, and the process's engine.
pub mod Sessions
pub mod Schemas
pub mod Engine
pub mod Build
use nimbus_commerce_platform.Common.{
  ℕ, String, Bool, true, false, not, ◌&&◌, ◌||◌, Option, none, some, List, [], ◌∷◌, ◌++◌, map, ltb,
  ◌==◌, length, str_eq, if◌then◌else◌,
}
use nimbus_commerce_platform.Common.Text.{codes, all, contains}
use nimbus_commerce_platform.Errors.{
  Exn, Result, ok, err, ◌>>=◌, value_error, database_lock, database_connection, nimbus_timeout,
}
use nimbus_commerce_platform.Messaging.Envelope.{Fields, str, end, field}
use nimbus_commerce_platform.Responses.{Raised, nimbus}

-- The methods of Python's `str` that the module calls: `isalnum` and `isdigit` of one character, and
-- `lower`.
pub record Chars : Type 0 where
  pub is_alnum : ℕ → Bool
  pub is_digit : ℕ → Bool
  pub lower : String → String

-- The names with ", " between them.
abbrev pub join : List (List ℕ) → List ℕ
join [] = []
join (name ∷ []) = name
join (name ∷ next ∷ rest) = name ++ b',' ∷ b' ' ∷ join (next ∷ rest)

module _ (chars : Chars) where
  abbrev pub is_name_char : ℕ → Bool
  is_name_char c = chars.is_alnum c || c == b'_'

  -- `_validate_schema_name`
  unfoldable pub validate_schema_name : String → Result String
  validate_schema_name schema =
      if str_eq schema "" || not (all is_name_char (codes schema))
      then err value_error
      else (if ltb 63 (length (codes schema)) then err value_error else ok schema)

  abbrev pub is_schema : List ℕ → Bool
  is_schema [] = false
  is_schema (c ∷ text) = all is_name_char (c ∷ text) && not (chars.is_digit c)

  -- `with_schemas`: the list of names that its SET LOCAL search_path is given.
  unfoldable pub with_schemas : List String → Result (List ℕ)
  with_schemas [] = err value_error
  with_schemas (s ∷ schemas) =
      if all is_schema (map codes (s ∷ schemas))
      then ok (join (map codes (s ∷ schemas) ++ codes "public" ∷ []))
      else err value_error

-- How the code that uses a session ends, as the `except` clauses of `get_session` tell it apart; the
-- texts are `str(exc)`. An IntegrityError is a DBAPIError. `uncaught` is an exception that is no
-- `Exception`.
pub data Body : Type 0 where
  returned : Body
  operational dbapi : String → Body
  timed_out : Body
  raised_nimbus raised_other uncaught : Raised → Body

abbrev pub driver_details : String → String → Fields
driver_details schema text = field "schema" (str schema) (field "driver_error" (str text) end)

-- The test on the text of an OperationalError.
abbrev pub is_busy : Chars → String → Bool
is_busy chars text =
    contains (codes "lock") (codes (chars.lower text))
    || contains (codes "timeout") (codes (chars.lower text))

-- The exception that an `except` clause raises, given the schema; `none` where no clause applies.
unfoldable pub convert : Chars → String → Body → Option Raised
unfolding nimbus
convert chars schema returned = none
convert chars schema (operational text) =
    if is_busy chars text
    then some (
        nimbus database_lock (some "Database was busy. Please retry.")
          (some (driver_details schema text)))
    else some (
        nimbus database_connection (some "Database is unreachable.")
          (some (driver_details schema text)))
convert chars schema (dbapi text) = some (
    nimbus database_connection (some "Database connection failed.")
      (some (driver_details schema text)))
convert chars schema timed_out = some (
    nimbus nimbus_timeout (some "Database operation timed out.")
      (some (field "schema" (str schema) end)))
convert chars schema (raised_nimbus x) = some x
convert chars schema (raised_other x) = some x
convert chars schema (uncaught x) = none

-- How a call of `get_session` ends.
pub data End : Type 0 where
  finished : End
  invalid_schema : Exn → End
  raises : Raised → End

-- What a call meets: the making of the factory, the body, and the `rollback` and the `close` of the
-- session; each may raise.
pub record Session : Type 0 where
  pub factory : Option Raised
  pub body : Body
  pub rollback : Option Raised
  pub close : Option Raised

-- What a call leaves: how it ends, `_current_schema`, and whether the session was rolled back and closed.
pub record Left : Type 0 where
  pub end_of : End
  pub current_schema : String
  pub rolled_back : Bool
  pub closed : Bool

-- `schema or settings.database_default_schema`
abbrev pub schema_or_default : Option String → String → String
schema_or_default none default = default
schema_or_default (some schema) default = if str_eq schema "" then default else schema

abbrev pub end_of_body : Body → End
end_of_body (uncaught x) = raises x
end_of_body _ = finished

-- The `except` clauses: a rollback, whose own exception takes the place of the other.
abbrev pub end_of_clauses : Option Raised → Option Raised → Body → End
end_of_clauses none rollback body = end_of_body body
end_of_clauses (some x) none body = raises x
end_of_clauses (some x) (some y) body = raises y

abbrev pub is_some : {A : Type 0} → Option A → Bool
is_some none = false
is_some (some _) = true

-- `get_session`: `before` is the schema that is current before the call. A `close` that raises leaves
-- the new schema current, and so does a factory that cannot be made.
unfoldable pub get_session : Chars → String → Option String → Session → String → Left
unfolding validate_schema_name convert
get_session chars default schema s before =
    elim (validate_schema_name chars (schema_or_default schema default)) [
      | err e ↦ record {
        end_of = invalid_schema e;
        current_schema = before;
        rolled_back = false;
        closed = false;
      }
      | ok target ↦ elim s.factory [
        | some x ↦ record {
          end_of = raises x;
          current_schema = target;
          rolled_back = false;
          closed = false;
        }
        | none ↦
            let x = convert chars target s.body in
            elim s.close [
              | some y ↦ record {
                end_of = raises y;
                current_schema = target;
                rolled_back = is_some x && not (is_some s.rollback);
                closed = false;
              }
              | none ↦ record {
                end_of = end_of_clauses x s.rollback s.body;
                current_schema = before;
                rolled_back = is_some x && not (is_some s.rollback);
                closed = true;
              }
            ]
      ]
    ]
