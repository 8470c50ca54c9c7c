-- ===== src/Relay/Worker/Survival.antt =====
-- The loop of the relay of src/workers/outbox_relay.py where its ticks fail.
use nimbus_commerce_platform.Common.{
  ℕ, ◌+◌, ◌≡◌, refl, inl, inr, Bool, true, false, none, List, [], ◌∷◌, arith, length, All,
}
use nimbus_commerce_platform.Errors.{is_survived, Exn, Result, ok, err, is_exception, is_ok}
use nimbus_commerce_platform.Payments.Models.{OutboxEvent}
use nimbus_commerce_platform.Relay.{
  RelayStats, Outcome, stopped, Describe, Batch, publish_rows, publish_batch,
}
use nimbus_commerce_platform.Relay.Transaction.{Database, settle_batch, tick, give_up}
use nimbus_commerce_platform.Relay.Worker.{Round, tick_of, run_forever}
use nimbus_commerce_platform.Relay.Worker.Laps.{
  asked_in, is_undisturbed, round-cases, run_forever-[],
}

abbrev pub is_attempt : Outcome → Bool
is_attempt stopped = false
is_attempt _ = true

module _ (max_attempts : ℕ) (describe : Describe) where
  publish_rows-is_ok :
      (outcome : OutboxEvent → Outcome) (total published failed poison : ℕ)
      (rows : List OutboxEvent)
      → ((row : OutboxEvent) → is_attempt (outcome row) ≡ true)
      → is_ok (publish_rows max_attempts describe outcome total published failed poison rows) ≡ true
  unfolding publish_rows
  publish_rows-is_ok outcome total published failed poison [] h = refl
  publish_rows-is_ok outcome total published failed poison (row ∷ rest) h = ground (
    arith,
    h row,
    publish_rows-is_ok outcome total (published + 1) failed poison rest h,
    publish_rows-is_ok outcome total published failed (poison + 1) rest h,
    publish_rows-is_ok outcome total published (failed + 1) poison rest h,
    publish_rows-is_ok outcome total published (failed + 1) (poison + 1) rest h,
  )

  -- A round whose claim, flush and commit raise nothing but an `Exception`, in which no publish and no
  -- sleep is cancelled and nobody asks the loop to stop.
  pub record IsPlain (r : Round) : Type 0 where
    pub claim : is_survived r.claim ≡ true
    pub outcome : (row : OutboxEvent) → is_attempt (r.outcome row) ≡ true
    pub flush : is_survived r.db.flush ≡ true
    pub commit : is_survived r.db.commit ≡ true
    pub wake : is_undisturbed r.wake ≡ true
    pub asked : asked_in r ≡ false

  give_up-is_survived : (e : Exn) → is_exception e ≡ true → is_survived (give_up e) ≡ true
  give_up-is_survived e h = ground arith

  settle_batch-is_survived :
      (now seen : ℕ) (db : Database) (stats : RelayStats) (m : Result Batch)
      → is_ok m ≡ true
      → is_survived db.flush ≡ true
      → is_survived db.commit ≡ true
      → is_survived (settle_batch now db seen stats m).result ≡ true
  unfolding settle_batch
  settle_batch-is_survived now seen db stats (err e) m f c = absurd (ground arith)
  settle_batch-is_survived now seen db stats (ok b) m f c = ground arith

  tick_survived :
      (outcome : OutboxEvent → Outcome) (now : ℕ) (claim : Result (List OutboxEvent))
      (db : Database) (stats : RelayStats)
      → is_survived claim ≡ true
      → ((row : OutboxEvent) → is_attempt (outcome row) ≡ true)
      → is_survived db.flush ≡ true
      → is_survived db.commit ≡ true
      → is_survived (tick max_attempts describe outcome now claim db stats).result ≡ true
  unfolding tick publish_batch
  tick_survived outcome now (err e) db stats k h f c = give_up-is_survived e k
  tick_survived outcome now (ok []) db stats k h f c = refl
  tick_survived outcome now (ok (row ∷ rest)) db stats k h f c =
      settle_batch-is_survived now _ db _ _
        (publish_rows-is_ok outcome (length (row ∷ rest)) 0 0 0 (row ∷ rest) h) f c

  tick-is_survived :
      (r : Round) (stats : RelayStats)
      → IsPlain r
      → is_survived (tick_of max_attempts describe r stats).result ≡ true
  tick-is_survived r stats h =
      tick_survived r.outcome r.now r.claim r.db stats h.claim h.outcome h.flush h.commit

  -- A tick that fails does not end the loop: over rounds whose claim, flush and commit raise
  -- nothing but an `Exception`, in which no publish and no sleep is cancelled and nobody asks the loop
  -- to stop, every round gets its tick, and the loop still runs.
  pub run_forever_goes_on :
      (rs : List Round) (stats : RelayStats)
      → All IsPlain rs
      → ((run_forever max_attempts describe rs false stats).end_of ≡ none)
        × (length (run_forever max_attempts describe rs false stats).laps ≡ length rs)
  run_forever_goes_on [] stats h = ground (arith, run_forever-[] max_attempts describe stats)
  run_forever_goes_on (r ∷ rest) stats (p, h) =
      let s = tick-is_survived r stats p in
      elim (round-cases max_attempts describe r rest stats) [
        | inl (e, q, n, ends) ↦ absurd (ground (arith, p.wake))
        | inr on ↦ ground (
          arith,
          p.asked,
          run_forever_goes_on rest (tick_of max_attempts describe r stats).stats h,
        )
      ]
