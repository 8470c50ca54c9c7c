-- ===== src/Relay/Attempts.antt =====
-- How far a tick of the relay of src/workers/outbox_relay.py counts the attempts of the rows.
use nimbus_commerce_platform.Common.{
  ℕ, zero, suc, ◌+◌, ◌≤◌, ◌≡◌, some, List, [], ◌∷◌, map, arith, All,
}
use nimbus_commerce_platform.Errors.{ok}
use nimbus_commerce_platform.Payments.Models.{OutboxEvent}
use nimbus_commerce_platform.Relay.{RelayStats, Outcome, Describe, Batch, mark_rows, mark_batch}
use nimbus_commerce_platform.Relay.Transaction.{Database, tick}
use nimbus_commerce_platform.Relay.Publish.{after, fate_of, publish_batch-Counted}
use nimbus_commerce_platform.Relay.Ticks.{tick_committed_rows}

-- Row by row: the same row, with at most one attempt more, and none beyond the limit.
abbrev pub Counts : ℕ → List OutboxEvent → List OutboxEvent → Type 0
Counts max [] [] = Unit
Counts max [] (row' ∷ rest') = ⊥
Counts max (row ∷ rest) [] = ⊥
Counts max (row ∷ rest) (row' ∷ rest') =
    (row'.id ≡ row.id)
    × (row.attempt_count ≤ row'.attempt_count)
    × (row'.attempt_count ≤ row.attempt_count + 1)
    × (row'.attempt_count ≤ max)
    × Counts max rest rest'

mark_rows-Counts :
    (max now left : ℕ) (rows marked : List OutboxEvent)
    → Counts max rows marked
    → Counts max rows (mark_rows now left marked)
unfolding mark_rows
mark_rows-Counts max now left [] [] h = tt
mark_rows-Counts max now left [] (row' ∷ rest') h = absurd h
mark_rows-Counts max now left (row ∷ rest) [] h = absurd h
mark_rows-Counts max now zero (row ∷ rest) (row' ∷ rest') h =
    ground (arith, mark_rows-Counts max now zero rest rest')
mark_rows-Counts max now (suc fewer) (row ∷ rest) (row' ∷ rest') h = ground (
  arith,
  mark_rows-Counts max now fewer rest rest',
  mark_rows-Counts max now (suc fewer) rest rest',
)

mark_batch-Counts :
    (max now : ℕ) (rows : List OutboxEvent) (b : Batch)
    → Counts max rows b.rows
    → Counts max rows (mark_batch now b)
unfolding mark_batch
mark_batch-Counts max now rows b h =
    ground (arith, mark_rows-Counts max now b.published rows b.rows)

module _ (max : ℕ) (describe : Describe) (outcome : OutboxEvent → Outcome) where
  -- A row with all attempts used up is not tried again.
  after-Counts :
      (rows : List OutboxEvent)
      → All (λ row. row.attempt_count ≤ max) rows
      → Counts max rows
          (map (λ row. after max describe outcome (fate_of max describe outcome row) row) rows)
  after-Counts [] h = tt
  after-Counts (row ∷ rest) (h, hs) = ground (arith, after-Counts rest hs)

  -- A tick that commits a batch whose rows had no more attempts than the limit leaves the same rows in
  -- their order, each with the attempts that it had or one more, and none with more than the limit.
  pub tick_attempts_bounded :
      (now : ℕ) (rows : List OutboxEvent) (db : Database) (stats : RelayStats)
      (left : List OutboxEvent)
      → All (λ row. row.attempt_count ≤ max) rows
      → (tick max describe outcome now (ok rows) db stats).committed ≡ some left
      → Counts max rows left
  tick_attempts_bounded now rows db stats left few h =
      let c = tick_committed_rows max describe outcome now rows db stats left h in
      let counted =
        publish_batch-Counted max describe outcome rows c.batch c.published c.no_outage in
      let published : Counts max rows c.batch.rows =
        rw counted.rows_after (after-Counts rows few) in
      rw c.marked (mark_batch-Counts max now rows c.batch published)
