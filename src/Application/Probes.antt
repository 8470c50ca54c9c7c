-- ===== src/Application/Probes.antt =====
-- What create_app of src/main.py adds to the application: the pages of the documentation, and the
-- probes /health and /ready.
pub mod Readiness
pub mod Refusal
use nimbus_commerce_platform.Common.{
  String, Bool, true, false, not, ◌&&◌, Option, none, some, List, [], ◌∷◌, if◌then◌else◌,
}
use nimbus_commerce_platform.Errors.{Result, ok, err, ◌>>=◌}
use nimbus_commerce_platform.Configuration.{Environment, is_production}
use nimbus_commerce_platform.Database.Engine.{Process, Build}
use nimbus_commerce_platform.Database.Build.{Statement}
use nimbus_commerce_platform.Database.Build as Database
use nimbus_commerce_platform.Breaker.Clients.{Limits, Clients}
use nimbus_commerce_platform.Breaker.Clients as Redis

-- The arguments of FastAPI that say where the documentation is served.
pub record DocsUrls : Type 0 where
  pub docs_url : Option String
  pub redoc_url : Option String
  pub openapi_url : Option String

unfoldable pub docs_urls : Environment → DocsUrls
docs_urls environment =
    let docs_enabled = not (is_production environment) in
    record {
      docs_url = if docs_enabled then some "/docs" else none;
      redoc_url = if docs_enabled then some "/redoc" else none;
      openapi_url = if docs_enabled then some "/openapi.json" else none;
    }

-- The answer of `health`.
pub record Health : Type 0 where
  pub status : String
  pub app : String
  pub version : String
  pub environment : Environment

unfoldable pub health : String → String → Environment → Health
health app_name app_version environment = record {
  status = "ok";
  app = app_name;
  version = app_version;
  environment = environment;
}

-- The answer of `ready`.
pub record Ready : Type 0 where
  pub status : String
  pub database : String
  pub redis : String

abbrev pub ready_of : Bool → Bool → Ready
ready_of db_ok redis_ok = record {
  status = if db_ok && redis_ok then "ok" else "degraded";
  database = if db_ok then "ok" else "down";
  redis = if redis_ok then "ok" else "down";
}

-- What one probe meets: the pool of connections and the server, with the schema that is current; how
-- the pool of Redis is built, and what PING comes to.
pub record Probe : Type 0 where
  pub acquired : Result (Unit {0})
  pub execute : Statement → Result (Unit {0})
  pub current_schema : String
  pub built : Result (Unit {0})
  pub ping : Result Bool

-- The globals of src/core/database.py and of src/core/cache.py.
pub record Globals : Type 0 where
  pub database : Process
  pub redis : Clients

module _ (limits : Limits) where
  -- `ready`, given how it gets on with the database.
  unfoldable pub ready_with : Probe → Clients → Result Bool × Process → Result Ready × Globals
  ready_with x c (err e, p) = (err e, record { database = p; redis = c })
  ready_with x c (ok db_ok, p) =
      let (redis, c') = Redis.health_check limits x.built x.ping c in
      (redis >>= λ redis_ok. ok (ready_of db_ok redis_ok), record { database = p; redis = c' })

module _ (limits : Limits) (build : Build) where
  unfoldable pub ready : Probe → Globals → Result Ready × Globals
  ready x g =
      ready_with limits x g.redis
        (Database.health_check build x.acquired x.execute x.current_schema g.database)

  -- The answers to probes, one after another.
  abbrev pub ready_all : List Probe → Globals → List (Result Ready)
  ready_all [] g = []
  ready_all (x ∷ xs) g = let (r, g') = ready x g in r ∷ ready_all xs g'
