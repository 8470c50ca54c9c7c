-- ===== src/Relay/Transaction.antt =====
-- One tick of the relay of src/workers/outbox_relay.py: the claim, the batch, the commit and the
-- statistics.
use nimbus_commerce_platform.Common.{
  ℕ, ◌+◌, Option, none, some, List, [], ◌∷◌, ltb, length, if◌then◌else◌,
}
use nimbus_commerce_platform.Errors.{Exn, Result, ok, err, operational_error}
use nimbus_commerce_platform.Payments.Models.{OutboxEvent}
use nimbus_commerce_platform.Relay.{
  RelayStats, Outcome, Describe, Batch, publish_batch, is_unmarked, mark_batch,
}

-- What a tick comes to: the number that it returns or the exception that it raises, the new
-- statistics, and the rows that its transaction has committed, `none` where it has committed none.
pub record Tick : Type 0 where
  pub result : Result ℕ
  pub stats : RelayStats
  pub committed : Option (List OutboxEvent)

-- The statistics after a tick that found no row, that gave up on the broker, or that committed.
abbrev pub count_poll : RelayStats → RelayStats
count_poll s = record s { polls = s.polls + 1 }

abbrev pub count_idle : ℕ → RelayStats → RelayStats
count_idle now s = record s { ticks = s.ticks + 1; last_tick_at = now }

abbrev pub count_outage : ℕ → ℕ → RelayStats → RelayStats
count_outage now failed s = record s { rows_failed = s.rows_failed + failed; last_tick_at = now }

abbrev pub count_batch : ℕ → ℕ → Batch → RelayStats → RelayStats
count_batch now seen b s = record s {
  rows_seen = s.rows_seen + seen;
  rows_published = s.rows_published + b.published;
  rows_failed = s.rows_failed + b.failed;
  rows_skipped_poison = s.rows_skipped_poison + b.poison;
  last_tick_at = now;
  last_publish_at = if ltb 0 b.published then now else s.last_publish_at;
}

-- A claim or a commit that fails with an OperationalError is logged, and any other exception leaves
-- the tick.
abbrev pub give_up : Exn → Result ℕ
give_up operational_error = ok 0
give_up e = err e

-- How the flush and the commit of a tick end, if it comes to them.
pub record Database : Type 0 where
  pub flush : Result (Unit {0})
  pub commit : Result (Unit {0})

-- The commit, and what follows it.
unfoldable pub commit_batch : ℕ → Result (Unit {0}) → ℕ → RelayStats → Batch → Tick
unfolding mark_batch
commit_batch now (err e) seen stats b = record {
  result = give_up e;
  stats = stats;
  committed = none;
}
commit_batch now (ok _) seen stats b = record {
  result = ok b.published;
  stats = count_batch now seen b stats;
  committed = some (mark_batch now b);
}

-- The flush of `_mark_batch`, and the commit.
unfoldable pub finish_batch : ℕ → Database → ℕ → RelayStats → Batch → Tick
unfolding commit_batch
finish_batch now db seen stats b = elim (if is_unmarked b then ok tt else db.flush) [
  | err e ↦ record { result = err e; stats = stats; committed = none }
  | ok _ ↦ commit_batch now db.commit seen stats b
]

-- The middle of a tick, on what `_publish_batch` came to.
unfoldable pub settle_batch : ℕ → Database → ℕ → RelayStats → Result Batch → Tick
unfolding finish_batch
settle_batch now db seen stats (err e) = record { result = err e; stats = stats; committed = none }
settle_batch now db seen stats (ok b) =
    if b.fail_fast
    then record { result = ok 0; stats = count_outage now b.failed stats; committed = none }
    else finish_batch now db seen stats b

module _ (max_attempts : ℕ) (describe : Describe) (outcome : OutboxEvent → Outcome) where
  -- The part of `_tick` after the claim.
  unfoldable pub tick_rows : ℕ → Database → RelayStats → Result (List OutboxEvent) → Tick
  unfolding publish_batch settle_batch
  tick_rows now db stats (err e) = record { result = give_up e; stats = stats; committed = none }
  tick_rows now db stats (ok []) = record {
    result = ok 0;
    stats = count_idle now stats;
    committed = none;
  }
  tick_rows now db stats (ok (row ∷ rest)) =
      settle_batch now db (length (row ∷ rest)) stats
        (publish_batch max_attempts describe outcome (row ∷ rest))

  -- `_tick`, and so `run_once`: `claim` is what `_claim_batch` comes to.
  unfoldable pub tick : ℕ → Result (List OutboxEvent) → Database → RelayStats → Tick
  unfolding tick_rows
  tick now claim db stats = tick_rows now db (count_poll stats) claim
