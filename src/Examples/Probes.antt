-- ===== src/Examples/Probes.antt =====
-- Runs of the probe /ready of src/main.py.
use nimbus_commerce_platform.Common.{◌≡◌, refl, ◌↔◌, true, false, [], ◌∷◌, All}
use nimbus_commerce_platform.Common.Int.{ℤ, pos, ◌*ℤ◌}
use nimbus_commerce_platform.Common.Text.{codes}
use nimbus_commerce_platform.Errors.{Result, ok, err, other}
use nimbus_commerce_platform.Configuration.{test}
use nimbus_commerce_platform.Breaker.Clients.{Limits, no_clients}
use nimbus_commerce_platform.Database.Engine.{new_process, Build}
use nimbus_commerce_platform.Database.Build.{
  null_pool, queue_pool, Statement, DatabaseSettings, EngineOptions, AsyncEngine, build_of,
}
use nimbus_commerce_platform.Application.Probes.{Probe, Globals, Ready, ready, ready_all}
use nimbus_commerce_platform.Application.Probes.Readiness.{IsUp, ready_iff}
use nimbus_commerce_platform.Application.Probes.Refusal.{TellsDown, ready_all_refused}

abbrev limits : Limits
limits = record { fail_max = pos 5; reset_timeout = pos 30 }

abbrev fresh_globals : Globals
fresh_globals = record { database = new_process; redis = no_clients }

-- A server that takes every statement.
abbrev takes_all : Statement → Result (Unit {0})
takes_all _ = ok tt

abbrev good : Probe
good = record {
  acquired = ok tt;
  execute = takes_all;
  current_schema = "public";
  built = ok tt;
  ping = ok true;
}

abbrev no_redis : Probe
no_redis = record good { ping = err (other 2) }

abbrev made : Build
made = record { breaker = ok tt; engine = ok tt }

ready_iff_example :
    ((r : Ready) × ((ready limits made good fresh_globals).0 ≡ ok r) × (r.status ≡ "ok"))
    ↔ IsUp limits made good fresh_globals
ready_iff_example = ready_iff limits made good fresh_globals

-- A library that makes every engine but one with a NullPool, for which it raises a TypeError.
abbrev create : EngineOptions ℤ → Result (AsyncEngine ℤ)
create o = elim o.poolclass [
  | null_pool ↦ err (other 1)
  | queue_pool ↦ ok (record { options = o; on_checkout = [] })
]

create_refuses : (o : EngineOptions ℤ) → o.poolclass ≡ null_pool → create o ≡ err (other 1)
create_refuses o h = rw h refl

abbrev millis : ℤ → ℤ
millis seconds = seconds *ℤ pos 1000

abbrev breaker : ℤ → ℤ → Result (Unit {0})
breaker fail_max reset_timeout = ok tt

abbrev of_tests : DatabaseSettings ℤ
of_tests = record {
  environment = test;
  app_name = codes "nimbus";
  database_url = codes "postgresql+asyncpg://127.0.0.1/nimbus_test";
  database_pool_size = pos 10;
  database_max_overflow = pos 20;
  database_pool_timeout_seconds = pos 10;
  database_echo = false;
  database_command_timeout_seconds = pos 30;
  database_health_check_interval_seconds = pos 30;
  redis_circuit_breaker_fail_max = pos 5;
  redis_circuit_breaker_reset_timeout_seconds = pos 30;
}

ready_all_refused_example : All TellsDown (
    ready_all limits (build_of millis create breaker of_tests) (good ∷ no_redis ∷ []) fresh_globals)
ready_all_refused_example =
    ready_all_refused millis create breaker of_tests limits
      (λ o h. (other 1, create_refuses o h, refl)) refl refl (good ∷ no_redis ∷ []) fresh_globals
      ((refl, refl), ((refl, refl), tt)) refl
