-- ===== src/Application/Probes/Refusal.antt =====
-- Proofs about the probe /ready of src/main.py where the engine cannot be made.
use nimbus_commerce_platform.Common.{
  ◌≡◌, refl, String, Bool, true, false, if◌then◌else◌, none, List, [], ◌∷◌, All, ◌∙◌, arith,
}
use nimbus_commerce_platform.Common.Int.{ℤ}
use nimbus_commerce_platform.Errors.{Result, ok, err, ◌>>◌, is_survived, false_on_exception}
use nimbus_commerce_platform.Configuration.{test}
use nimbus_commerce_platform.Database.Engine.{Process, Build}
use nimbus_commerce_platform.Database.Build.{
  DatabaseSettings, EngineOptions, AsyncEngine, set_search_path, select_one, build_of,
}
use nimbus_commerce_platform.Database.Build as Database
use nimbus_commerce_platform.Database.Build.Refusal.{RefusesSizes, get_engine_refused}
use nimbus_commerce_platform.Breaker.{new}
use nimbus_commerce_platform.Breaker.Clients.{Limits, Clients, get_redis}
use nimbus_commerce_platform.Breaker.Clients as Redis
use nimbus_commerce_platform.Application.Probes.{
  Probe, Globals, Ready, ready, ready_with, ready_all,
}

-- No CancelledError meets the part of a probe that asks Redis.
abbrev pub IsSurvived : Probe → Type 0
IsSurvived x = (is_survived x.built ≡ true) × (is_survived x.ping ≡ true)

-- An answer of /ready by which the database is down.
abbrev pub TellsDown : Result Ready → Type 0
TellsDown r =
    (redis : String) × (r ≡ ok (record { status = "degraded"; database = "down"; redis = redis }))

get_redis_survived :
    (limits : Limits) (built : Result (Unit {0})) (c : Clients)
    → is_survived built ≡ true
    → is_survived (get_redis limits built c).0 ≡ true
unfolding get_redis new
get_redis_survived limits built c h = ground arith

false_on_exception-ok :
    {A : Type 0} (m : Result A) (b : Result Bool)
    → is_survived m ≡ true
    → is_survived b ≡ true
    → (answer : Bool) × (false_on_exception (m >> b) ≡ ok answer)
false_on_exception-ok (ok _) (ok b) h k = (b, refl)
false_on_exception-ok (ok _) (err e) h k = (false, rw k refl)
false_on_exception-ok (err e) b h k = (false, rw h refl)

ready_with-down :
    (limits : Limits) (x : Probe) (c : Clients) (db : Result Bool × Process)
    → IsSurvived x
    → db.0 ≡ ok false
    → TellsDown (ready_with limits x c db).0
      × ((ready_with limits x c db).1.database.engine ≡ db.1.engine)
unfolding ready_with Redis.health_check
ready_with-down limits x c (ok false, p) (built, ping) h =
    let (answer, q) =
      false_on_exception-ok (get_redis limits x.built c).0 x.ping
        (get_redis_survived limits x.built c built) ping in
    ((if answer then "ok" else "down", rw q refl), refl)
ready_with-down limits x c (ok true, p) k h = absurd (ground arith)
ready_with-down limits x c (err e, p) k h = absurd (ground arith)

module _ {Float : Type 0} (millis : Float → ℤ)
    (create : EngineOptions Float → Result (AsyncEngine Float))
    (breaker : ℤ → Float → Result (Unit {0})) (s : DatabaseSettings Float) (limits : Limits)
    (refuses : RefusesSizes create) (tests : s.environment ≡ test)
    (survived : is_survived
        (breaker s.redis_circuit_breaker_fail_max s.redis_circuit_breaker_reset_timeout_seconds)
      ≡ true) where
  abbrev build : Build
  build = build_of millis create breaker s

  health_check_refused :
      (x : Probe) (p : Process)
      → p.engine ≡ none
      → ((Database.health_check build x.acquired x.execute x.current_schema p).0 ≡ ok false)
        × ((Database.health_check build x.acquired x.execute x.current_schema p).1.engine ≡ none)
  unfolding Database.health_check
  health_check_refused x p empty =
      let ((e, refused, caught), still) =
        get_engine_refused millis create refuses breaker s tests survived p empty in
      (rw (refused, caught) refl, still)

  ready_refused :
      (x : Probe) (g : Globals)
      → IsSurvived x
      → g.database.engine ≡ none
      → TellsDown (ready limits build x g).0 × ((ready limits build x g).1.database.engine ≡ none)
  unfolding ready
  ready_refused x g h empty =
      let (down, still) = health_check_refused x g.database empty in
      let (told, same) = ready_with-down limits x g.redis _ h down in (told, same ∙ still)

  -- In the environment of tests, where the library refuses to make an engine whose NullPool is given
  -- sizes, the breaker is made or fails with an exception, and no CancelledError meets the part of a
  -- probe that asks Redis: while there is no engine, every answer of /ready is `degraded`, with the
  -- database down, whatever the database would answer.
  pub ready_all_refused :
      (xs : List Probe) (g : Globals)
      → All IsSurvived xs
      → g.database.engine ≡ none
      → All TellsDown (ready_all limits build xs g)
  ready_all_refused [] g h empty = tt
  ready_all_refused (x ∷ xs) g (h, hs) empty =
      let (down, still) = ready_refused x g h empty in
      (down, ready_all_refused xs (ready limits build x g).1 hs still)
