-- ===== src/Relay/Retries.antt =====
-- What becomes of one row of the outbox over many ticks of the relay of src/workers/outbox_relay.py.
use nimbus_commerce_platform.Common.{
  ℕ, zero, suc, ◌<◌, ◌≡◌, refl, true, false, ◌||◌, Option, some, List, [], ◌∷◌, arith,
  if◌then◌else◌,
}
use nimbus_commerce_platform.Errors.{Exn, ok}
use nimbus_commerce_platform.Payments.Models.{OutboxEvent}
use nimbus_commerce_platform.Relay.{
  RelayStats, Outcome, sent, broker_down, Describe, publish_batch, mark_batch,
}
use nimbus_commerce_platform.Relay.Transaction.{Tick, Database, tick}

-- What a claim selects of a table that holds one row: neither processed nor failed.
abbrev pub claim_row : OutboxEvent → List OutboxEvent
claim_row row = if row.processed || row.failed then [] else row ∷ []

abbrev first_or : OutboxEvent → Option (List OutboxEvent) → OutboxEvent
first_or row (some (r ∷ _)) = r
first_or row _ = row

-- A database in which a transaction can commit.
abbrev fine : Database
fine = record { flush = ok tt; commit = ok tt }

module _ (max_attempts : ℕ) (describe : Describe) (outcome : OutboxEvent → Outcome)
    (clock : ℕ → ℕ) where
  abbrev tick_row : ℕ → RelayStats → OutboxEvent → Tick
  tick_row now stats row = tick max_attempts describe outcome now (ok (claim_row row)) fine stats

  abbrev next_row : ℕ → RelayStats → OutboxEvent → OutboxEvent
  next_row now stats row = first_or row (tick_row now stats row).committed

  -- The row after `n` ticks, the last of them at `clock 0`, each on the row that the one before left.
  unfoldable pub ticks : ℕ → RelayStats → OutboxEvent → OutboxEvent
  ticks zero stats row = row
  ticks (suc n) stats row =
      ticks n (tick_row (clock n) stats row).stats (next_row (clock n) stats row)

  next_row-failed :
      (now : ℕ) (stats : RelayStats) (row : OutboxEvent)
      → row.failed ≡ true
      → next_row now stats row ≡ row
  unfolding tick
  next_row-failed now stats row f = ground arith

  ticks-failed :
      (n : ℕ) (stats : RelayStats) (row : OutboxEvent) → row.failed ≡ true → ticks n stats row ≡ row
  unfolding ticks
  ticks-failed zero stats row f = refl
  ticks-failed (suc n) stats row f = ground (
    arith,
    next_row-failed (clock n) stats row f,
    ticks-failed n (tick_row (clock n) stats row).stats row f,
  )

  next_row-broker_down :
      (now : ℕ) (stats : RelayStats) (row : OutboxEvent) (e : Exn)
      → outcome row ≡ broker_down e
      → row.attempt_count < max_attempts
      → next_row now stats row ≡ row
  unfolding tick mark_batch publish_batch
  next_row-broker_down now stats row e o a = ground arith

  -- Ticks in which the broker is down for a row that has attempts left, in any number, leave the
  -- row as it is: no attempt is counted against it and no error is written.
  pub ticks_outage :
      (n : ℕ) (stats : RelayStats) (row : OutboxEvent) (e : Exn)
      → outcome row ≡ broker_down e
      → row.attempt_count < max_attempts
      → ticks n stats row ≡ row
  unfolding ticks
  ticks_outage zero stats row e o a = refl
  ticks_outage (suc n) stats row e o a = ground (
    arith,
    next_row-broker_down (clock n) stats row e o a,
    ticks_outage n (tick_row (clock n) stats row).stats row e o a,
  )

  next_row-processed :
      (now : ℕ) (stats : RelayStats) (row : OutboxEvent)
      → row.processed ≡ true
      → next_row now stats row ≡ row
  unfolding tick
  next_row-processed now stats row f = ground arith

  ticks-processed :
      (n : ℕ) (stats : RelayStats) (row : OutboxEvent)
      → row.processed ≡ true
      → ticks n stats row ≡ row
  unfolding ticks
  ticks-processed zero stats row f = refl
  ticks-processed (suc n) stats row f = ground (
    arith,
    next_row-processed (clock n) stats row f,
    ticks-processed n (tick_row (clock n) stats row).stats row f,
  )

  next_row-sent :
      (now : ℕ) (stats : RelayStats) (row : OutboxEvent)
      → outcome row ≡ sent
      → row.processed ≡ false
      → row.failed ≡ false
      → row.attempt_count < max_attempts
      → next_row now stats row ≡ record row { processed = true; processed_at = some now }
  unfolding tick mark_batch publish_batch
  next_row-sent now stats row o p f a = ground arith

  -- A row with attempts left that the broker takes is marked processed by the first tick, at that
  -- tick's time, and the ticks that follow leave it so.
  pub ticks_sent :
      (n : ℕ) (stats : RelayStats) (row : OutboxEvent)
      → outcome row ≡ sent
      → row.processed ≡ false
      → row.failed ≡ false
      → row.attempt_count < max_attempts
      → ticks (suc n) stats row ≡ record row { processed = true; processed_at = some (clock n) }
  unfolding ticks
  ticks_sent n stats row o p f a = ground (
    arith,
    next_row-sent (clock n) stats row o p f a,
    ticks-processed n (tick_row (clock n) stats row).stats
        (record row { processed = true; processed_at = some (clock n) }) refl,
  )
