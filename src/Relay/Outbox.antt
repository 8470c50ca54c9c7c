-- ===== src/Relay/Outbox.antt =====
-- The outbox over many ticks of the relay of src/workers/outbox_relay.py: the claim of `_claim_batch`, the
-- tick, and the rows as its transaction leaves them.
use mathlib.Core.Path.{ap₂}
use nimbus_commerce_platform.Common.{
  ℕ, zero, suc, ◌+◌, ◌≤◌, ◌<◌, ◌≡◌, refl, ◌∙◌, sym, ap, true, false, not, ◌&&◌, leb, Bool,
  Bool-cases, inl, inr, Option, none, some, List, [], ◌∷◌, map, arith, if◌then◌else◌, length, All,
}
use nimbus_commerce_platform.Errors.{Exn, ok}
use nimbus_commerce_platform.Payments.Models.{OutboxEvent}
use nimbus_commerce_platform.Relay.{
  RelayStats, Outcome, unexpected, Describe, Batch, exhaust, retry_later, publish_rows,
  publish_batch, mark_rows, mark_batch,
}
use nimbus_commerce_platform.Relay.Publish.{ids}
use nimbus_commerce_platform.Relay.Transaction.{Tick, Database, tick, settle_batch}

abbrev pub is_due : OutboxEvent → Bool
is_due row = not row.processed && not row.failed

-- `_claim_batch`: the first rows, at most `limit`, that are neither processed nor failed. The outbox is
-- in the order of creation, and no other relay holds a row of it.
unfoldable pub claim_batch : ℕ → List OutboxEvent → List OutboxEvent
claim_batch zero rows = []
claim_batch (suc limit) [] = []
claim_batch (suc limit) (row ∷ rest) = elim (is_due row) [
  | true ↦ row ∷ claim_batch limit rest
  | false ↦ claim_batch (suc limit) rest
]

-- The outbox with the rows that were claimed as a transaction has left them.
unfoldable pub write_back : List OutboxEvent → List OutboxEvent → List OutboxEvent
write_back [] left = []
write_back (row ∷ rest) left = elim (is_due row) [
  | false ↦ row ∷ write_back rest left
  | true ↦ elim left [ [] ↦ row ∷ write_back rest [] | now ∷ others ↦ now ∷ write_back rest others ]
]

abbrev written : List OutboxEvent → Option (List OutboxEvent) → List OutboxEvent
written outbox none = outbox
written outbox (some left) = write_back outbox left

-- A database in which a transaction can commit.
abbrev fine : Database
fine = record { flush = ok tt; commit = ok tt }

write_back-[] : (outbox : List OutboxEvent) → write_back outbox [] ≡ outbox
unfolding write_back
write_back-[] [] = refl
write_back-[] (row ∷ rest) = ground (arith, write_back-[] rest)

mark_rows-zero : (now : ℕ) (rows : List OutboxEvent) → mark_rows now 0 rows ≡ rows
unfolding mark_rows
mark_rows-zero now [] = refl
mark_rows-zero now (row ∷ rest) = ground (arith, mark_rows-zero now rest)

module _ (max_attempts : ℕ) (describe : Describe) (outcome : OutboxEvent → Outcome) (limit : ℕ)
    (clock : ℕ → ℕ) where
  abbrev tick_outbox : ℕ → RelayStats → List OutboxEvent → Tick
  tick_outbox now stats outbox =
      tick max_attempts describe outcome now (ok (claim_batch limit outbox)) fine stats

  abbrev next_outbox : ℕ → RelayStats → List OutboxEvent → List OutboxEvent
  next_outbox now stats outbox = written outbox (tick_outbox now stats outbox).committed

  -- The outbox after `n` ticks, the last of them at `clock 0`.
  unfoldable pub ticks_outbox : ℕ → RelayStats → List OutboxEvent → List OutboxEvent
  ticks_outbox zero stats outbox = outbox
  ticks_outbox (suc n) stats outbox =
      ticks_outbox n (tick_outbox (clock n) stats outbox).stats (next_outbox (clock n) stats outbox)

  module _ (e : Exn) (fails : (r : OutboxEvent) → outcome r ≡ unexpected e) where
    -- What a batch makes of a row whose publish raises the exception.
    abbrev tried_again : OutboxEvent → OutboxEvent
    tried_again row =
        if leb max_attempts row.attempt_count
        then exhaust row
        else retry_later (describe.unexpected_error e) row

    abbrev due_again : OutboxEvent → OutboxEvent
    due_again row = if is_due row then tried_again row else row

    publish_rows-unexpected :
        (total f q : ℕ) (rows : List OutboxEvent)
        → (b : Batch) × (publish_rows max_attempts describe outcome total 0 f q rows ≡ ok b)
          × (b.published ≡ 0)
          × (b.fail_fast ≡ false)
          × (b.rows ≡ map tried_again rows)
    unfolding publish_rows
    publish_rows-unexpected total f q [] = (
      record { published = 0; failed = f; poison = q; fail_fast = false; rows = [] },
      refl,
      refl,
      refl,
      refl,
    )
    publish_rows-unexpected total f q (row ∷ rest) =
        elim (Bool-cases (leb max_attempts row.attempt_count)) [
          | inl many ↦
              let (b, p, published, up, rows) = publish_rows-unexpected total f (q + 1) rest in
              (
                record b { rows = exhaust row ∷ b.rows },
                ground (arith, p),
                published,
                up,
                ground (arith, rows),
              )
          | inr few ↦
              let (b, p, published, up, rows) = publish_rows-unexpected total (f + 1) q rest in
              (
                record b { rows = retry_later (describe.unexpected_error e) row ∷ b.rows },
                ground (arith, p, fails row),
                published,
                up,
                ground (arith, rows),
              )
        ]

    tick-unexpected :
        (now : ℕ) (stats : RelayStats) (row : OutboxEvent) (rest : List OutboxEvent)
        → (tick max_attempts describe outcome now (ok (row ∷ rest)) fine stats).committed
          ≡ some (map tried_again (row ∷ rest))
    unfolding tick settle_batch publish_batch mark_batch
    tick-unexpected now stats row rest =
        let (b, p, published, up, rows) =
          publish_rows-unexpected (length (row ∷ rest)) 0 0 (row ∷ rest) in
        ground (arith, p, published, up, rows, mark_rows-zero now b.rows)

    write_back-claim_batch :
        (n : ℕ) (outbox : List OutboxEvent)
        → length outbox ≤ n
        → write_back outbox (map tried_again (claim_batch n outbox)) ≡ map due_again outbox
    unfolding write_back claim_batch
    write_back-claim_batch n [] h = refl
    write_back-claim_batch zero (row ∷ rest) h = absurd (ground arith)
    write_back-claim_batch (suc n) (row ∷ rest) h = elim (Bool-cases (is_due row)) [
      | inl due ↦ ground (arith, write_back-claim_batch n rest (ground arith))
      | inr other ↦ ground (arith, write_back-claim_batch (suc n) rest (ground arith))
    ]

    written-unexpected :
        (now : ℕ) (stats : RelayStats) (outbox rows : List OutboxEvent)
        → written outbox (tick max_attempts describe outcome now (ok rows) fine stats).committed
          ≡ write_back outbox (map tried_again rows)
    unfolding tick
    written-unexpected now stats outbox [] = sym (write_back-[] outbox)
    written-unexpected now stats outbox (row ∷ rest) =
        ap (written outbox) (tick-unexpected now stats row rest)

    next_outbox-unexpected :
        (now : ℕ) (stats : RelayStats) (outbox : List OutboxEvent)
        → length outbox ≤ limit
        → next_outbox now stats outbox ≡ map due_again outbox
    next_outbox-unexpected now stats outbox h =
        written-unexpected now stats outbox (claim_batch limit outbox)
        ∙ write_back-claim_batch limit outbox h

    -- One row over many ticks.
    again_times : ℕ → OutboxEvent → OutboxEvent
    again_times zero row = row
    again_times (suc n) row = again_times n (due_again row)

    map-again_times_none : (rows : List OutboxEvent) → map (again_times 0) rows ≡ rows
    unfolding again_times
    map-again_times_none [] = refl
    map-again_times_none (row ∷ rest) = ap (◌∷◌ row) (map-again_times_none rest)

    map-due_again :
        (n : ℕ) (rows : List OutboxEvent)
        → map (again_times n) (map due_again rows) ≡ map (again_times (suc n)) rows
    unfolding again_times
    map-due_again n [] = refl
    map-due_again n (row ∷ rest) = ap (◌∷◌ (again_times n (due_again row))) (map-due_again n rest)

    length-map : (rows : List OutboxEvent) → length (map due_again rows) ≡ length rows
    length-map [] = refl
    length-map (row ∷ rest) = omega (arith, length-map rest)

    ticks_outbox-again_times :
        (n : ℕ) (stats : RelayStats) (outbox : List OutboxEvent)
        → length outbox ≤ limit
        → ticks_outbox n stats outbox ≡ map (again_times n) outbox
    unfolding ticks_outbox
    ticks_outbox-again_times zero stats outbox h = sym (map-again_times_none outbox)
    ticks_outbox-again_times (suc n) stats outbox h =
        rw (next_outbox-unexpected (clock n) stats outbox h)
          (ticks_outbox-again_times n _ (map due_again outbox) (omega (arith, length-map outbox)))
        ∙ map-due_again n outbox

    again_times-failed :
        (n : ℕ) (row : OutboxEvent) → row.failed ≡ true → (again_times n row).failed ≡ true
    unfolding again_times
    again_times-failed zero row f = f
    again_times-failed (suc n) row f = ground (arith, again_times-failed n row f)

    again_times_give_up :
        (n : ℕ) (row : OutboxEvent)
        → row.processed ≡ false
        → row.attempt_count ≤ max_attempts
        → max_attempts < row.attempt_count + n
        → (again_times n row).failed ≡ true
    unfolding again_times
    again_times_give_up zero row p a h = absurd (ground arith)
    again_times_give_up (suc n) row p a h = elim (Bool-cases row.failed) [
      | inl f ↦ again_times-failed n (due_again row) (ground arith)
      | inr f ↦ elim (Bool-cases (leb max_attempts row.attempt_count)) [
        | inl many ↦ again_times-failed n (due_again row) (ground arith)
        | inr few ↦
            again_times_give_up n (due_again row) (ground arith) (ground arith) (ground arith)
      ]
    ]

    again_times-id : (n : ℕ) (row : OutboxEvent) → (again_times n row).id ≡ row.id
    unfolding again_times
    again_times-id zero row = refl
    again_times-id (suc n) row = again_times-id n (due_again row) ∙ ground arith

    -- Not processed, with no more attempts than the limit, which `n` more would exceed.
    abbrev pub IsTiring : ℕ → OutboxEvent → Type 0
    IsTiring n row =
        (row.processed ≡ false)
        × (row.attempt_count ≤ max_attempts)
        × (max_attempts < row.attempt_count + n)

    all_failed :
        (n : ℕ) (outbox : List OutboxEvent)
        → All (IsTiring n) outbox
        → All (λ r. r.failed ≡ true) (map (again_times n) outbox)
          × (ids (map (again_times n) outbox) ≡ ids outbox)
    all_failed n [] h = (tt, refl)
    all_failed n (row ∷ rest) ((p, a, many), h) =
        let (failed, same) = all_failed n rest h in
        ((again_times_give_up n row p a many, failed), ap₂ ◌∷◌ (again_times-id n row) same)

    -- A broker that refuses every event with the same exception, neither an infrastructure error nor
    -- a cancellation: of an outbox whose rows are not processed, have no more attempts than the limit
    -- and fit into one batch, every row is marked as failed after one tick more than any of them has
    -- attempts left, and no row is lost, where no other relay runs, no row is added and every flush
    -- and commit goes through.
    pub ticks_outbox_give_up :
        (n : ℕ) (stats : RelayStats) (outbox : List OutboxEvent)
        → length outbox ≤ limit
        → All (IsTiring n) outbox
        → All (λ r. r.failed ≡ true) (ticks_outbox n stats outbox)
          × (ids (ticks_outbox n stats outbox) ≡ ids outbox)
    ticks_outbox_give_up n stats outbox fits tiring =
        rw (ticks_outbox-again_times n stats outbox fits) (all_failed n outbox tiring)
