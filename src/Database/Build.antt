-- ===== src/Database/Build.antt =====
-- The engine that src/core/database.py builds: the arguments of create_async_engine, the listener that
-- sets the search_path of a connection, and the probe of the database. The times of the settings are
-- floats, of which `millis` is int(seconds * 1000).
pub mod Refusal
use nimbus_commerce_platform.Common.{
  ℕ, String, Bool, true, false, if◌then◌else◌, List, [], ◌∷◌, ◌++◌,
}
use nimbus_commerce_platform.Common.Int.{ℤ, pos, ◌*ℤ◌}
use nimbus_commerce_platform.Common.Text.{codes}
use nimbus_commerce_platform.Errors.{Result, ok, err, ◌>>=◌, ◌>>◌, false_on_exception}
use nimbus_commerce_platform.Configuration.{
  Environment, development, test, staging, production, is_test,
}
use nimbus_commerce_platform.Database.Engine.{Process, Build, get_engine}

pub data PoolClass : Type 0 where
  null_pool queue_pool : PoolClass

-- A statement with the values of its parameters.
pub record Statement : Type 0 where
  pub text : String
  pub parameters : List String

abbrev pub environment_name : Environment → List ℕ
environment_name development = codes "development"
environment_name test = codes "test"
environment_name staging = codes "staging"
environment_name production = codes "production"

-- The settings that the engine is built from.
pub record DatabaseSettings (Float : Type 0) : Type 0 where
  pub environment : Environment
  pub app_name : List ℕ
  pub database_url : List ℕ
  pub database_pool_size : ℤ
  pub database_max_overflow : ℤ
  pub database_pool_timeout_seconds : Float
  pub database_echo : Bool
  pub database_command_timeout_seconds : Float
  pub database_health_check_interval_seconds : ℤ
  pub redis_circuit_breaker_fail_max : ℤ
  pub redis_circuit_breaker_reset_timeout_seconds : Float

-- What create_async_engine is given; the timeouts of the server are in milliseconds.
pub record EngineOptions (Float : Type 0) : Type 0 where
  pub url : List ℕ
  pub poolclass : PoolClass
  pub pool_size : ℤ
  pub max_overflow : ℤ
  pub pool_timeout : Float
  pub pool_recycle : ℤ
  pub pool_pre_ping : Bool
  pub echo : Bool
  pub future : Bool
  pub application_name : List ℕ
  pub statement_timeout : ℤ
  pub lock_timeout : ℤ
  pub timeout : Float

-- An engine, with the listeners of its checkout event: what each executes, given the current schema.
pub record AsyncEngine (Float : Type 0) : Type 0 where
  pub options : EngineOptions Float
  pub on_checkout : List (String → Statement)

-- `_set_search_path`
unfoldable pub set_search_path : String → Statement
set_search_path schema = record { text = "SET search_path TO %s, public"; parameters = schema ∷ [] }

-- The listeners on a connection that is checked out; the first that raises ends the checkout.
abbrev pub checkout :
    (Statement → Result (Unit {0})) → String → List (String → Statement) → Result (Unit {0})
checkout execute schema [] = ok tt
checkout execute schema (listener ∷ listeners) =
    execute (listener schema) >> checkout execute schema listeners

module _ {Float : Type 0} (millis : Float → ℤ) where
  -- `_build_engine` as far as the arguments of create_async_engine
  unfoldable pub engine_options : DatabaseSettings Float → EngineOptions Float
  engine_options s = record {
    url = s.database_url;
    poolclass = if is_test s.environment then null_pool else queue_pool;
    pool_size = if is_test s.environment then pos 0 else s.database_pool_size;
    max_overflow = if is_test s.environment then pos 0 else s.database_max_overflow;
    pool_timeout = s.database_pool_timeout_seconds;
    pool_recycle = s.database_health_check_interval_seconds *ℤ pos 6;
    pool_pre_ping = true;
    echo = s.database_echo;
    future = true;
    application_name = s.app_name ++ b'/' ∷ environment_name s.environment;
    statement_timeout = millis s.database_command_timeout_seconds;
    lock_timeout = millis s.database_pool_timeout_seconds;
    timeout = s.database_pool_timeout_seconds;
  }

  module _ (create_async_engine : EngineOptions Float → Result (AsyncEngine Float)) where
    -- `_register_schema_event`
    unfoldable pub register_schema_event : AsyncEngine Float → AsyncEngine Float
    register_schema_event e = record e { on_checkout = e.on_checkout ++ set_search_path ∷ [] }

    -- `_build_engine`
    unfoldable pub build_engine : DatabaseSettings Float → Result (AsyncEngine Float)
    unfolding register_schema_event
    build_engine s = create_async_engine (engine_options s) >>= λ e. ok (register_schema_event e)

    -- How `get_engine` gets on with these settings, where `breaker` is how `_create_breaker` ends,
    -- given the two limits.
    unfoldable pub build_of : (ℤ → Float → Result (Unit {0})) → DatabaseSettings Float → Build
    unfolding build_engine
    build_of breaker s = record {
      breaker =
          breaker s.redis_circuit_breaker_fail_max s.redis_circuit_breaker_reset_timeout_seconds;
      engine = build_engine s >> ok tt;
    }

abbrev pub select_one : Statement
select_one = record { text = "SELECT 1"; parameters = [] }

-- `health_check`, where `acquired` is how the pool gets on that gives the connection, and `execute`
-- how the server takes a statement. Every engine of the process has the one listener.
unfoldable pub health_check :
    Build
    → Result (Unit {0})
    → (Statement → Result (Unit {0}))
    → String
    → Process
    → Result Bool × Process
unfolding get_engine set_search_path
health_check b acquired execute schema p =
    let (r, p') = get_engine b p in
    (
      false_on_exception (
          r >>= λ e.
          acquired
          >> checkout execute schema (set_search_path ∷ [])
          >> execute select_one
          >> ok true),
      p',
    )
