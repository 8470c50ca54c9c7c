-- ===== src/Application/Probes/Readiness.antt =====
-- Proofs about the probe /ready of src/main.py.
use nimbus_commerce_platform.Common.{
  ◌≡◌, refl, ◌↔◌, Bool, true, false, [], ◌∷◌, ℕ, sym, ◌∙◌, str_eq_iff, arith,
}
use nimbus_commerce_platform.Errors.{Result, ok, err, ◌>>◌, ◌>>=◌, false_on_exception}
use nimbus_commerce_platform.Database.Engine.{Process, Build, get_engine}
use nimbus_commerce_platform.Database.Build.{
  DatabaseSettings, EngineOptions, AsyncEngine, set_search_path, select_one, build_of,
}
use nimbus_commerce_platform.Database.Build as Database
use nimbus_commerce_platform.Breaker.Clients.{Limits, Clients, get_redis}
use nimbus_commerce_platform.Breaker.Clients as Redis
use nimbus_commerce_platform.Application.Probes.{Probe, Globals, Ready, ready_of, ready, ready_with}

-- What the answer of /ready rests on: the engine is there, a connection is given out and takes the
-- search_path and the statement of the probe, and Redis answers PING.
pub record IsUp (limits : Limits) (build : Build) (x : Probe) (g : Globals) : Type 0 where
  pub engine : (n : ℕ) × ((get_engine build g.database).0 ≡ ok n)
  pub acquired : x.acquired ≡ ok tt
  pub search_path :
      x.execute
        (record { text = "SET search_path TO %s, public"; parameters = x.current_schema ∷ [] })
      ≡ ok tt
  pub selected : x.execute select_one ≡ ok tt
  pub redis : (get_redis limits x.built g.redis).0 ≡ ok tt
  pub ping : x.ping ≡ ok true

false_on_exception-true : (r : Result Bool) → false_on_exception r ≡ ok true → r ≡ ok true
false_on_exception-true (ok b) h = h
false_on_exception-true (err e) h = ground arith

-- A step that is followed by others is done where they are.
done_first :
    {A B : Type 0} (m : Result A) (rest : Result B) (b : B)
    → (m >> rest) ≡ ok b
    → ((a : A) × (m ≡ ok a)) × (rest ≡ ok b)
done_first (ok a) rest b h = ((a, refl), h)
done_first (err e) rest b h = ground arith

ready_with-answers :
    (limits : Limits) (x : Probe) (c : Clients) (db : Result Bool × Process)
    → (ready_with limits x c db).0 ≡ (
        db.0 >>= λ d.
        (Redis.health_check limits x.built x.ping c).0 >>= λ redis. ok (ready_of d redis))
unfolding ready_with
ready_with-answers limits x c (ok d, p) = refl
ready_with-answers limits x c (err e, p) = refl

module _ (limits : Limits) (build : Build) (x : Probe) (g : Globals) where
  -- The two probes that `ready` asks.
  abbrev database_up : Result Bool
  database_up = (Database.health_check build x.acquired x.execute x.current_schema g.database).0

  abbrev redis_up : Result Bool
  redis_up = (Redis.health_check limits x.built x.ping g.redis).0

  ready-answers :
      (ready limits build x g).0
      ≡ (database_up >>= λ db. redis_up >>= λ redis. ok (ready_of db redis))
  unfolding ready
  ready-answers = ready_with-answers limits x g.redis _

  -- The status is "ok" only if both probes answered true.
  answers_up :
      (db redis : Result Bool) (r : Ready)
      → (db >>= λ d. redis >>= λ a. ok (ready_of d a)) ≡ ok r
      → r.status ≡ "ok"
      → (db ≡ ok true) × (redis ≡ ok true)
  answers_up (ok true) (ok true) r h well = (refl, refl)
  answers_up (ok false) (ok a) r h well =
      absurd (ground (arith, str_eq_iff "degraded" "ok", h, well))
  answers_up (ok true) (ok false) r h well =
      absurd (ground (arith, str_eq_iff "degraded" "ok", h, well))
  answers_up (ok d) (err e) r h well = absurd (ground arith)
  answers_up (err e) redis r h well = absurd (ground arith)

  database_up-true :
      database_up ≡ ok true
      → ((n : ℕ) × ((get_engine build g.database).0 ≡ ok n))
        × (x.acquired ≡ ok tt)
        × (x.execute (record {
          text = "SET search_path TO %s, public";
          parameters = x.current_schema ∷ [];
        })
            ≡ ok tt)
        × (x.execute select_one ≡ ok tt)
  unfolding Database.health_check set_search_path
  database_up-true h =
      let (engine, asked) = done_first _ _ true (false_on_exception-true _ h) in
      let ((_, taken), _) = done_first _ _ true asked in
      let ((_, opened), selected) = done_first _ _ tt taken in
      let ((_, acquired), listened) = done_first _ _ tt opened in
      (engine, acquired, (done_first _ _ tt listened).0.1, selected)

  redis_up-true :
      redis_up ≡ ok true → ((get_redis limits x.built g.redis).0 ≡ ok tt) × (x.ping ≡ ok true)
  unfolding Redis.health_check
  redis_up-true h =
      let ((_, redis), ping) = done_first _ _ true (false_on_exception-true _ h) in (redis, ping)

  up_answers : IsUp limits build x g → (database_up ≡ ok true) × (redis_up ≡ ok true)
  unfolding Database.health_check Redis.health_check set_search_path
  up_answers u =
      let (n, made) = u.engine in
      (rw (made, u.acquired, u.search_path, u.selected) refl, rw (u.redis, u.ping) refl)

  -- The status that /ready answers is "ok" exactly where the engine is there, a connection is given
  -- out and takes the search_path of the schema that is current and the statement of the probe, and
  -- Redis answers PING.
  pub ready_iff :
      ((r : Ready) × ((ready limits build x g).0 ≡ ok r) × (r.status ≡ "ok"))
      ↔ IsUp limits build x g
  ready_iff = (
    λ (r, answered, well).
        let (database, redis) =
          answers_up database_up redis_up r (sym ready-answers ∙ answered) well in
        let (engine, acquired, search_path, selected) = database_up-true database in
        let (client, ping) = redis_up-true redis in
        record {
          engine = engine;
          acquired = acquired;
          search_path = search_path;
          selected = selected;
          redis = client;
          ping = ping;
        },
    λ u.
        let (database, redis) = up_answers u in
        (ready_of true true, ready-answers ∙ rw (database, redis) refl, refl),
  )
