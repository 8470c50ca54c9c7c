-- ===== src/Relay/Marks.antt =====
-- Which rows `_mark_batch` of src/workers/outbox_relay.py marks as processed.
use nimbus_commerce_platform.Common.{
  some, ℕ, zero, suc, ◌-◌, ◌≤◌, ◌<◌, ◌≡◌, refl, Bool, true, false, ◌&&◌, ◌==◌, inl, inr, Bool-cases,
  List, [], ◌∷◌, map, arith, count_if, All,
}
use nimbus_commerce_platform.Errors.{ok}
use nimbus_commerce_platform.Payments.Models.{OutboxEvent}
use nimbus_commerce_platform.Relay.{
  Outcome, Fate, fate, Describe, Batch, publish_batch, mark_rows, mark_batch,
}
use nimbus_commerce_platform.Relay.Publish.{
  is_sent, is_unexpected, is_down, after, publish_batch-Counted,
}

-- What `_claim_batch` selects: rows that are neither processed nor failed.
abbrev pub IsClaimed : List OutboxEvent → Type 0
IsClaimed = All λ r. (r.processed ≡ false) × (r.failed ≡ false)

abbrev pub processed_flags : List OutboxEvent → List Bool
processed_flags = map λ r. r.processed

module _ (max_attempts : ℕ) (describe : Describe) (outcome : OutboxEvent → Outcome) where
  abbrev fate_of : OutboxEvent → Fate
  fate_of = fate max_attempts outcome

  -- No row fails in a way that the relay takes for transient.
  abbrev pub IsSteady : List OutboxEvent → Type 0
  IsSteady = All λ r. is_unexpected (fate_of r) ≡ false

  abbrev left_rows : List OutboxEvent → List OutboxEvent
  left_rows = map λ r. after max_attempts describe outcome (fate_of r) r

  abbrev pub sent_flags : List OutboxEvent → List Bool
  sent_flags = map λ r. is_sent (fate_of r)

  abbrev sent_count : List OutboxEvent → ℕ
  sent_count = count_if λ r. is_sent (fate_of r)

  mark_rows_steady :
      (now : ℕ) (rows : List OutboxEvent)
      → IsClaimed rows
      → IsSteady rows
      → All (λ r. is_down (fate_of r) ≡ false) rows
      → processed_flags (mark_rows now (sent_count rows) (left_rows rows)) ≡ sent_flags rows
  unfolding mark_rows
  mark_rows_steady now [] c s u = refl
  mark_rows_steady now (row ∷ rest) c s u = ground (arith, mark_rows_steady now rest c.1 s.1 u.1)

  none_sent :
      (rows : List OutboxEvent)
      → IsClaimed rows
      → sent_count rows ≡ 0
      → processed_flags (left_rows rows) ≡ sent_flags rows
  none_sent [] c z = refl
  none_sent (row ∷ rest) c z = ground (arith, none_sent rest c.1)

  -- Of a batch of rows that were neither processed nor failed, when no row fails with an unexpected
  -- error and the broker stays up, the rows that are marked as processed are exactly those that
  -- were sent.
  pub mark_batch_steady :
      (now : ℕ) (rows : List OutboxEvent) (b : Batch)
      → publish_batch max_attempts describe outcome rows ≡ ok b
      → b.fail_fast ≡ false
      → IsClaimed rows
      → IsSteady rows
      → processed_flags (mark_batch now b) ≡ sent_flags rows
  unfolding mark_batch
  mark_batch_steady now rows b h ff c s =
      let n = publish_batch-Counted max_attempts describe outcome rows b h ff in
      let count : b.published ≡ sent_count rows = omega (arith, n.published) in
      rw n.rows_after (elim (Bool-cases (b.published == 0 && b.poison == 0)) [
        | inl empty ↦ rw empty (none_sent rows c (ground arith))
        | inr some_rows ↦ rw (some_rows, count) (mark_rows_steady now rows c s n.up)
      ])

  count-mark_rows :
      (now left : ℕ) (rows : List OutboxEvent)
      → IsClaimed rows
      → left ≤ sent_count rows
      → count_if (λ r. r.processed) (mark_rows now left (left_rows rows)) ≡ left
  unfolding mark_rows
  count-mark_rows now left [] c h = omega arith
  count-mark_rows now zero (row ∷ rest) c h = ground (arith, count-mark_rows now 0 rest c.1)
  count-mark_rows now (suc left) (row ∷ rest) c h =
      ground (arith, count-mark_rows now left rest c.1, count-mark_rows now (suc left) rest c.1)

  count-left_rows :
      (rows : List OutboxEvent) → IsClaimed rows → count_if (λ r. r.processed) (left_rows rows) ≡ 0
  count-left_rows [] c = refl
  count-left_rows (row ∷ rest) c = ground (arith, count-left_rows rest c.1)

  -- A batch that met no outage marks as many rows as it published, whichever they are.
  pub count-mark_batch :
      (now : ℕ) (rows : List OutboxEvent) (b : Batch)
      → publish_batch max_attempts describe outcome rows ≡ ok b
      → b.fail_fast ≡ false
      → IsClaimed rows
      → count_if (λ r. r.processed) (mark_batch now b) ≡ sent_count rows
  unfolding mark_batch
  count-mark_batch now rows b h ff c =
      let n = publish_batch-Counted max_attempts describe outcome rows b h ff in
      let count : b.published ≡ sent_count rows = omega (arith, n.published) in
      let unmarked = count-left_rows rows c in
      rw n.rows_after (elim (Bool-cases (b.published == 0 && b.poison == 0)) [
        | inl empty ↦ rw empty (ground arith)
        | inr some_rows ↦
            rw (some_rows, count) (count-mark_rows now (sent_count rows) rows c (omega arith))
      ])

  -- Of a batch of rows that were neither processed nor failed and that meets no outage: if the
  -- first row fails with an unexpected error, and some other row is sent, then the first row is
  -- marked as processed although it was not sent, and of the rows behind it fewer are marked than
  -- were sent.
  pub mark_batch_misplaced :
      (now : ℕ) (row : OutboxEvent) (rest : List OutboxEvent) (b : Batch)
      → publish_batch max_attempts describe outcome (row ∷ rest) ≡ ok b
      → b.fail_fast ≡ false
      → IsClaimed (row ∷ rest)
      → is_unexpected (fate_of row) ≡ true
      → 0 < sent_count rest
      → (marked : OutboxEvent) × (others : List OutboxEvent) × (mark_batch now b ≡ marked ∷ others)
        × (marked.id ≡ row.id)
        × (marked.processed ≡ true)
        × (is_sent (fate_of row) ≡ false)
        × (count_if (λ r. r.processed) others < sent_count rest)
  unfolding mark_batch mark_rows
  mark_batch_misplaced now row rest b h ff c x some_sent =
      let n = publish_batch-Counted max_attempts describe outcome (row ∷ rest) b h ff in
      let row' = after max_attempts describe outcome (fate_of row) row in
      let fewer = sent_count rest - 1 in
      let some_fewer : sent_count rest ≡ suc fewer = omega arith in
      let count : b.published ≡ suc fewer = ground (arith, n.published) in
      let not_zero : (b.published == 0) ≡ false = ground arith in
      let open_row : row'.failed ≡ false = ground arith in
      (
        record row' { processed = true; processed_at = some now },
        mark_rows now fewer (left_rows rest),
        rw (n.rows_after, not_zero, count) (ground (arith, open_row)),
        ground arith,
        refl,
        ground arith,
        omega (arith, count-mark_rows now fewer rest c.1),
      )
