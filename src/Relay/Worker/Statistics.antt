-- ===== src/Relay/Worker/Statistics.antt =====
-- The statistics of the relay of src/workers/outbox_relay.py over the rounds of its loop.
use nimbus_commerce_platform.Common.{
  ℕ, ◌+◌, ◌≡◌, refl, inl, inr, Bool, true, false, List, [], ◌∷◌, arith, length,
}
use nimbus_commerce_platform.Errors.{Result-cases, Exn, Result, ok, err}
use nimbus_commerce_platform.Payments.Models.{OutboxEvent}
use nimbus_commerce_platform.Relay.{RelayStats, Outcome, Describe, Batch, publish_batch}
use nimbus_commerce_platform.Relay.Transaction.{Database, settle_batch, tick, count_poll}
use nimbus_commerce_platform.Relay.Ticks.{tick_published, IsSound, tick-IsSound}
use nimbus_commerce_platform.Relay.Worker.{Round, Lap, tick_of, run_forever}
use nimbus_commerce_platform.Relay.Worker.Laps.{asked_in, round-cases, run_forever-asked}

-- What a tick returned, 0 where it raised.
abbrev pub returned : Result ℕ → ℕ
returned (ok n) = n
returned (err _) = 0

abbrev pub total : List Lap → ℕ
total [] = 0
total (lap ∷ rest) = returned lap.tick.result + total rest

module _ (max_attempts : ℕ) (describe : Describe) where
  settle_batch-raised :
      (now seen : ℕ) (db : Database) (stats : RelayStats) (m : Result Batch) (e : Exn)
      → (settle_batch now db seen stats m).result ≡ err e
      → (settle_batch now db seen stats m).stats.rows_published ≡ stats.rows_published
  unfolding settle_batch
  settle_batch-raised now seen db stats (err x) e h = refl
  settle_batch-raised now seen db stats (ok b) e h = ground arith

  tick-raised :
      (outcome : OutboxEvent → Outcome) (now : ℕ) (claim : Result (List OutboxEvent))
      (db : Database) (stats : RelayStats) (e : Exn)
      → (tick max_attempts describe outcome now claim db stats).result ≡ err e
      → (tick max_attempts describe outcome now claim db stats).stats.rows_published
        ≡ stats.rows_published
  unfolding tick
  tick-raised outcome now (err x) db stats e h = refl
  tick-raised outcome now (ok []) db stats e h = refl
  tick-raised outcome now (ok (row ∷ rest)) db stats e h =
      settle_batch-raised now (length (row ∷ rest)) db (count_poll stats)
        (publish_batch max_attempts describe outcome (row ∷ rest)) e h

  tick-returned :
      (r : Round) (stats : RelayStats)
      → (tick_of max_attempts describe r stats).stats.rows_published
        ≡ stats.rows_published + returned (tick_of max_attempts describe r stats).result
  tick-returned r stats = elim (Result-cases (tick_of max_attempts describe r stats).result) [
    | inl (n, q) ↦
        ground (arith, tick_published max_attempts describe r.outcome r.now r.claim r.db stats n q)
    | inr (e, q) ↦ ground (arith, tick-raised r.outcome r.now r.claim r.db stats e q)
  ]

  -- Over any rounds of the loop the number of rows published grows by what its ticks returned, a
  -- tick that raised counting as 0.
  pub run_forever_published :
      (rs : List Round) (asked : Bool) (stats : RelayStats)
      → (run_forever max_attempts describe rs asked stats).stats.rows_published
        ≡ stats.rows_published + total (run_forever max_attempts describe rs asked stats).laps
  unfolding run_forever
  run_forever_published rs true stats =
      ground (arith, run_forever-asked max_attempts describe rs stats)
  run_forever_published [] false stats = ground arith
  run_forever_published (r ∷ rest) false stats =
      let now = tick-returned r stats in
      elim (round-cases max_attempts describe r rest stats) [
        | inl (e, q, s, ends) ↦ ground arith
        | inr on ↦ ground (
          arith,
          run_forever_published rest (asked_in r) (tick_of max_attempts describe r stats).stats,
        )
      ]

  run_forever-IsSound :
      (rs : List Round) (asked : Bool) (stats : RelayStats)
      → IsSound stats
      → IsSound (run_forever max_attempts describe rs asked stats).stats
  unfolding run_forever
  run_forever-IsSound rs true stats h =
      ground (arith, run_forever-asked max_attempts describe rs stats)
  run_forever-IsSound [] false stats h = h
  run_forever-IsSound (r ∷ rest) false stats h =
      let t = tick-IsSound max_attempts describe r.outcome r.now r.claim r.db stats h in
      elim (round-cases max_attempts describe r rest stats) [
        | inl (e, q, s, ends) ↦ rw ends t
        | inr on ↦
            rw on (
              run_forever-IsSound rest (asked_in r) (tick_of max_attempts describe r stats).stats t)
      ]
