-- ===== src/Database/Build/Refusal.antt =====
-- Proofs about the engine that src/core/database.py builds, in the environment of tests above all.
use nimbus_commerce_platform.Common.{◌≡◌, refl, true, none, [], ◌∷◌, inl, inr, arith}
use nimbus_commerce_platform.Common.Int.{ℤ}
use nimbus_commerce_platform.Errors.{Exn, Result, ok, err, is_exception, is_survived, Result-cases}
use nimbus_commerce_platform.Configuration.{test}
use nimbus_commerce_platform.Database.Engine.{Process, get_engine}
use nimbus_commerce_platform.Database.Build.{
  null_pool, DatabaseSettings, EngineOptions, AsyncEngine, set_search_path, engine_options,
  register_schema_event, build_engine, build_of,
}

-- SQLAlchemy raises a TypeError where a pool class gets arguments that it does not know, and NullPool
-- knows no sizes.
abbrev pub RefusesSizes :
    {Float : Type 0} → (EngineOptions Float → Result (AsyncEngine Float)) → Type 0
RefusesSizes {Float} create =
    (o : EngineOptions Float)
    → o.poolclass ≡ null_pool
    → (e : Exn) × (create o ≡ err e) × (is_exception e ≡ true)

module _ {Float : Type 0} (millis : Float → ℤ)
    (create : EngineOptions Float → Result (AsyncEngine Float)) where
  -- An engine that is made without listeners has the one that sets the search_path.
  build_engine-set_search_path :
      (s : DatabaseSettings Float) (e : AsyncEngine Float)
      → create (engine_options millis s) ≡ ok e
      → e.on_checkout ≡ []
      → build_engine millis create s ≡ ok (record e { on_checkout = set_search_path ∷ [] })
  unfolding build_engine register_schema_event
  build_engine-set_search_path s e made bare = rw (made, bare) refl

  module _ (refuses : RefusesSizes create) (breaker : ℤ → Float → Result (Unit {0}))
      (s : DatabaseSettings Float) (tests : s.environment ≡ test)
      (survived : is_survived
          (breaker s.redis_circuit_breaker_fail_max s.redis_circuit_breaker_reset_timeout_seconds)
        ≡ true) where
    build_engine_refused :
        (e : Exn) × (build_engine millis create s ≡ err e) × (is_exception e ≡ true)
    unfolding build_engine engine_options
    build_engine_refused =
        let (e, refused, caught) = refuses (engine_options millis s) (rw tests refl) in
        (e, rw refused refl, caught)

    -- In the environment of tests no engine is ever made.
    pub get_engine_refused :
        (p : Process)
        → p.engine ≡ none
        → ((e : Exn) × ((get_engine (build_of millis create breaker s) p).0 ≡ err e)
            × (is_exception e ≡ true))
          × ((get_engine (build_of millis create breaker s) p).1.engine ≡ none)
    unfolding get_engine build_of
    get_engine_refused p empty =
        let (e, refused, caught) = build_engine_refused in
        elim (Result-cases (
          breaker s.redis_circuit_breaker_fail_max s.redis_circuit_breaker_reset_timeout_seconds)) [
            | inl (_, made) ↦ rw (empty, made, refused) ((e, refl, caught), refl)
            | inr (x, failed) ↦ rw (empty, failed) ((x, refl, ground (arith, survived)), refl)
          ]
