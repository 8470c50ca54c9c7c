-- ===== src/Relay/Ticks.antt =====
-- Whole ticks of the relay of src/workers/outbox_relay.py: what they commit, what their statistics
-- say, and what becomes of a row over many of them.
use nimbus_commerce_platform.Common.{
  ℕ, zero, suc, ◌+◌, ◌≤◌, ◌≡◌, refl, Bool, true, false, ◌||◌, inl, inr, Bool-cases, some, List, [],
  ◌∷◌, arith, length, count_if,
}
use nimbus_commerce_platform.Errors.{Result-cases, Exn, Result, ok, err, is_ok}
use nimbus_commerce_platform.Payments.Models.{OutboxEvent}
use nimbus_commerce_platform.Relay.{
  RelayStats, Outcome, Describe, fate, Batch, publish_batch, mark_rows, is_unmarked, mark_batch,
}
use nimbus_commerce_platform.Relay.Transaction.{
  Tick, Database, tick, settle_batch, finish_batch, give_up, count_poll,
}
use nimbus_commerce_platform.Relay.Publish.{
  ids, is_sent, publish_batch-Counted, publish_batch-Covers,
}

ids-mark_rows : (now left : ℕ) (rows : List OutboxEvent) → ids (mark_rows now left rows) ≡ ids rows
unfolding mark_rows
ids-mark_rows now left [] = refl
ids-mark_rows now zero (row ∷ rest) = ground (arith, ids-mark_rows now 0 rest)
ids-mark_rows now (suc left) (row ∷ rest) =
    ground (arith, ids-mark_rows now left rest, ids-mark_rows now (suc left) rest)

ids-mark_batch : (now : ℕ) (b : Batch) → ids (mark_batch now b) ≡ ids b.rows
unfolding mark_batch
ids-mark_batch now b = ground (arith, ids-mark_rows now b.published b.rows)

count_if-le {ℓ} : {A : Type ℓ} (p : A → Bool) (xs : List A) → count_if p xs ≤ length xs
count_if-le p [] = omega arith
count_if-le p (x ∷ xs) = ground (arith, count_if-le p xs)

give_up_zero : (e : Exn) (n : ℕ) → give_up e ≡ ok n → n ≡ 0
give_up_zero e n h = ground arith

pub record IsSound (s : RelayStats) : Type 0 where
  pub published : s.rows_published ≤ s.rows_seen
  pub idle : s.ticks ≤ s.polls

finish_batch-flushed :
    (now : ℕ) (db : Database) (seen : ℕ) (stats : RelayStats) (b : Batch) (left : List OutboxEvent)
    → (finish_batch now db seen stats b).committed ≡ some left
    → (is_unmarked b || is_ok db.flush) ≡ true
unfolding finish_batch
finish_batch-flushed now db seen stats b left h = elim (Bool-cases (is_unmarked b)) [
  | inl unmarked ↦ rw unmarked refl
  | inr marked ↦ elim (Result-cases db.flush) [
    | inl (_, done) ↦ rw (marked, done) refl
    | inr (e, failed) ↦ absurd (ground arith)
  ]
]

module _ (max_attempts : ℕ) (describe : Describe) (outcome : OutboxEvent → Outcome) where
  -- What a tick that has committed stands on: a claimed batch that met no outage, its rows in their
  -- order as `_mark_batch` left them, a flush and a commit that went through, and a result that is the
  -- number of rows published.
  pub record Committed (now : ℕ) (rows : List OutboxEvent) (db : Database) (t : Tick)
      (left : List OutboxEvent) : Type 0 where
    pub batch : Batch
    pub published : publish_batch max_attempts describe outcome rows ≡ ok batch
    pub no_outage : batch.fail_fast ≡ false
    pub marked : left ≡ mark_batch now batch
    pub same_rows : ids left ≡ ids rows
    pub flushed : (is_unmarked batch || is_ok db.flush) ≡ true
    pub went_through : is_ok db.commit ≡ true
    pub returned : t.result ≡ ok batch.published

  settle_batch-Committed :
      (now seen : ℕ) (rows : List OutboxEvent) (db : Database) (stats : RelayStats)
      (m : Result Batch) (left : List OutboxEvent)
      → publish_batch max_attempts describe outcome rows ≡ m
      → (settle_batch now db seen stats m).committed ≡ some left
      → Committed now rows db (settle_batch now db seen stats m) left
  unfolding settle_batch
  settle_batch-Committed now seen rows db stats (err e) left p h = absurd (ground arith)
  settle_batch-Committed now seen rows db stats (ok b) left p h = record {
    batch = b;
    published = p;
    no_outage = ground arith;
    marked = ground arith;
    same_rows =
        ground (
          arith,
          ids-mark_batch now b,
          publish_batch-Covers max_attempts describe outcome rows b p,
        );
    flushed = finish_batch-flushed now db seen stats b left (ground arith);
    went_through = ground arith;
    returned = ground arith;
  }

  pub tick_committed_rows :
      (now : ℕ) (rows : List OutboxEvent) (db : Database) (stats : RelayStats)
      (left : List OutboxEvent)
      → (tick max_attempts describe outcome now (ok rows) db stats).committed ≡ some left
      → Committed now rows db (tick max_attempts describe outcome now (ok rows) db stats) left
  unfolding tick
  tick_committed_rows now [] db stats left h = absurd (ground arith)
  tick_committed_rows now (row ∷ rest) db stats left h =
      settle_batch-Committed now _ (row ∷ rest) db _ _ left refl h

  -- A tick commits rows only after a claim that went through, and then as `Committed` says: the batch
  -- met no outage, the rows are those that were claimed, as `_mark_batch` left them, the flush and the
  -- commit went through (a batch in which nothing was published or given up for good is not flushed), and the
  -- number returned is the number published.
  pub tick_committed :
      (now : ℕ) (claim : Result (List OutboxEvent)) (db : Database) (stats : RelayStats)
      (left : List OutboxEvent)
      → (tick max_attempts describe outcome now claim db stats).committed ≡ some left
      → (rows : List OutboxEvent) × (claim ≡ ok rows)
        × Committed now rows db (tick max_attempts describe outcome now claim db stats) left
  unfolding tick
  tick_committed now (err e) db stats left h = absurd (ground arith)
  tick_committed now (ok rows) db stats left h =
      (rows, refl, tick_committed_rows now rows db stats left h)

  settle_batch-published :
      (now seen : ℕ) (db : Database) (stats : RelayStats) (m : Result Batch) (n : ℕ)
      → (settle_batch now db seen stats m).result ≡ ok n
      → (settle_batch now db seen stats m).stats.rows_published ≡ stats.rows_published + n
  unfolding settle_batch
  settle_batch-published now seen db stats (err e) n h = absurd (ground arith)
  settle_batch-published now seen db stats (ok b) n h = elim (Result-cases db.commit) [
    | inl (u, e) ↦ ground arith
    | inr (x, e) ↦ ground (arith, give_up_zero x n)
  ]

  -- On every way through a tick that returns, the number that it returns is what it adds to the rows
  -- published.
  pub tick_published :
      (now : ℕ) (claim : Result (List OutboxEvent)) (db : Database) (stats : RelayStats) (n : ℕ)
      → (tick max_attempts describe outcome now claim db stats).result ≡ ok n
      → (tick max_attempts describe outcome now claim db stats).stats.rows_published
        ≡ stats.rows_published + n
  unfolding tick
  tick_published now (err e) db stats n h = omega (arith, give_up_zero e n h)
  tick_published now (ok []) db stats n h = ground arith
  tick_published now (ok (row ∷ rest)) db stats n h =
      settle_batch-published now (length (row ∷ rest)) db (count_poll stats)
        (publish_batch max_attempts describe outcome (row ∷ rest)) n h

  settle_batch-IsSound :
      (now : ℕ) (rows : List OutboxEvent) (db : Database) (stats : RelayStats) (m : Result Batch)
      → publish_batch max_attempts describe outcome rows ≡ m
      → stats.rows_published ≤ stats.rows_seen
      → stats.ticks ≤ stats.polls
      → IsSound (settle_batch now db (length rows) stats m).stats
  unfolding settle_batch
  settle_batch-IsSound now rows db stats (err e) p h k = ground arith
  settle_batch-IsSound now rows db stats (ok b) p h k = elim (Bool-cases b.fail_fast) [
    | inl outage ↦ ground arith
    | inr up ↦
        let n = publish_batch-Counted max_attempts describe outcome rows b p up in
        let few = count_if-le (λ r. is_sent (fate max_attempts outcome r)) rows in ground arith
  ]

  -- Every tick keeps the statistics sound: no more rows are published than were seen, and no more
  -- ticks found the queue empty than there were polls.
  pub tick-IsSound :
      (now : ℕ) (claim : Result (List OutboxEvent)) (db : Database) (stats : RelayStats)
      → IsSound stats
      → IsSound (tick max_attempts describe outcome now claim db stats).stats
  unfolding tick
  tick-IsSound now (err e) db stats h = ground arith
  tick-IsSound now (ok []) db stats h = ground arith
  tick-IsSound now (ok (row ∷ rest)) db stats h =
      settle_batch-IsSound now (row ∷ rest) db (count_poll stats) _ refl h.published (omega arith)
