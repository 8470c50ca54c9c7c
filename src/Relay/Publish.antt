-- ===== src/Relay/Publish.antt =====
-- What `_publish_batch` of src/workers/outbox_relay.py returns, against a count of the rows by what
-- became of them.
use nimbus_commerce_platform.Common.{
  ℕ, ◌+◌, ◌≤◌, ◌≡◌, refl, Bool, true, false, List, [], ◌∷◌, map, arith, length, count_if, All,
}
use nimbus_commerce_platform.Errors.{Result, ok, err}
use nimbus_commerce_platform.Payments.Models.{OutboxEvent}
use nimbus_commerce_platform.Relay.{
  Outcome, sent, broker_down, permanent, unexpected, stopped, Fate, exhausted, tried, fate,
  Describe, Batch, put_row, publish_rows, publish_batch, exhaust, retry_later, reject,
}

abbrev pub is_sent : Fate → Bool
is_sent (tried sent) = true
is_sent _ = false

-- Rows that `_publish_batch` counts as failed.
abbrev pub is_failure : Fate → Bool
is_failure (tried (permanent _)) = true
is_failure (tried (unexpected _)) = true
is_failure _ = false

-- Rows that it marks as failed for good.
abbrev pub is_poison : Fate → Bool
is_poison exhausted = true
is_poison (tried (permanent _)) = true
is_poison _ = false

abbrev pub is_down : Fate → Bool
is_down (tried (broker_down _)) = true
is_down (tried stopped) = true
is_down _ = false

abbrev pub is_unexpected : Fate → Bool
is_unexpected (tried (unexpected _)) = true
is_unexpected _ = false

abbrev pub ids : List OutboxEvent → List ℕ
ids = map λ r. r.id

put_row-eq_ok :
    (row : OutboxEvent) (m : Result Batch) (b : Batch)
    → put_row row m ≡ ok b
    → (b' : Batch) × (m ≡ ok b') × (b ≡ record b' { rows = row ∷ b'.rows })
put_row-eq_ok row (ok b') b h = (b', refl, ground arith)
put_row-eq_ok row (err e) b h = absurd (ground arith)

-- Without an outage of the broker: the counters, and the rows one by one.
module _ (max_attempts : ℕ) (describe : Describe) (outcome : OutboxEvent → Outcome) where
  -- What the batch makes of one row that it gets past.
  abbrev pub after : Fate → OutboxEvent → OutboxEvent
  after exhausted row = exhaust row
  after (tried sent) row = row
  after (tried (broker_down e)) row = retry_later (describe.error e) row
  after (tried (permanent e)) row = reject (describe.error e) row
  after (tried (unexpected e)) row = retry_later (describe.unexpected_error e) row
  after (tried stopped) row = row

  abbrev pub fate_of : OutboxEvent → Fate
  fate_of = fate max_attempts outcome

  pub record Counted (p f q : ℕ) (rows : List OutboxEvent) (b : Batch) : Type 0 where
    pub published : b.published ≡ p + count_if (λ r. is_sent (fate_of r)) rows
    pub failed : b.failed ≡ f + count_if (λ r. is_failure (fate_of r)) rows
    pub poison : b.poison ≡ q + count_if (λ r. is_poison (fate_of r)) rows
    pub up : All (λ r. is_down (fate_of r) ≡ false) rows
    pub rows_after : b.rows ≡ map (λ r. after (fate_of r) r) rows

  publish_rows-Counted :
      (total p f q : ℕ) (rows : List OutboxEvent) (b : Batch)
      → publish_rows max_attempts describe outcome total p f q rows ≡ ok b
      → b.fail_fast ≡ false
      → Counted p f q rows b
  unfolding publish_rows
  publish_rows-Counted total p f q [] b h ff = ground arith
  publish_rows-Counted total p f q (row ∷ rest) b h ff =
      go (fate_of row) refl (λ p' f' q' b' e. publish_rows-Counted total p' f' q' rest b' e)
    where
      go :
          (d : Fate)
          → fate_of row ≡ d
          → ((p' f' q' : ℕ) (b' : Batch)
              → publish_rows max_attempts describe outcome total p' f' q' rest ≡ ok b'
              → b'.fail_fast ≡ false
              → Counted p' f' q' rest b')
          → Counted p f q (row ∷ rest) b
      go exhausted e ih =
          let (b', e', eq) =
            put_row-eq_ok (exhaust row)
              (publish_rows max_attempts describe outcome total p f (q + 1) rest) b
              (ground arith) in
          let c = ih p f (q + 1) b' e' (ground arith) in ground arith
      go (tried sent) e ih =
          let (b', e', eq) =
            put_row-eq_ok row (publish_rows max_attempts describe outcome total (p + 1) f q rest) b
              (ground arith) in
          let c = ih (p + 1) f q b' e' (ground arith) in ground arith
      go (tried (broker_down x)) e ih = absurd (ground arith)
      go (tried (permanent x)) e ih =
          let (b', e', eq) =
            put_row-eq_ok (reject (describe.error x) row)
              (publish_rows max_attempts describe outcome total p (f + 1) (q + 1) rest) b
              (ground arith) in
          let c = ih p (f + 1) (q + 1) b' e' (ground arith) in ground arith
      go (tried (unexpected x)) e ih =
          let (b', e', eq) =
            put_row-eq_ok (retry_later (describe.unexpected_error x) row)
              (publish_rows max_attempts describe outcome total p (f + 1) q rest) b
              (ground arith) in
          let c = ih p (f + 1) q b' e' (ground arith) in ground arith
      go (tried stopped) e ih = absurd (ground arith)

  -- A batch that meets no outage: the counters are the numbers of the rows that were sent, that failed and that were given up
  -- for good, and each row is left as what became of it says, in the same order.
  pub publish_batch-Counted :
      (rows : List OutboxEvent) (b : Batch)
      → publish_batch max_attempts describe outcome rows ≡ ok b
      → b.fail_fast ≡ false
      → Counted 0 0 0 rows b
  unfolding publish_batch
  publish_batch-Counted rows b h ff = publish_rows-Counted (length rows) 0 0 0 rows b h ff

  -- What holds of every batch, given up or not.
  pub record Covers (total : ℕ) (rows : List OutboxEvent) (b : Batch) : Type 0 where
    pub same_rows : ids b.rows ≡ ids rows
    pub all_counted : b.fail_fast ≡ true → total ≤ b.published + b.failed + b.poison

  put_row-Covers :
      (total : ℕ) (row row' : OutboxEvent) (rest : List OutboxEvent) (m : Result Batch) (b : Batch)
      → row'.id ≡ row.id
      → put_row row' m ≡ ok b
      → ((b' : Batch) → m ≡ ok b' → Covers total rest b')
      → Covers total (row ∷ rest) b
  put_row-Covers total row row' rest m b same h ih =
      let (b', e, eq) = put_row-eq_ok row' m b h in let c = ih b' e in ground arith

  publish_rows-Covers :
      (total p f q : ℕ) (rows : List OutboxEvent) (b : Batch)
      → publish_rows max_attempts describe outcome total p f q rows ≡ ok b
      → Covers total rows b
  unfolding publish_rows
  publish_rows-Covers total p f q [] b h = ground arith
  publish_rows-Covers total p f q (row ∷ rest) b h =
      go (fate_of row) refl (λ p' f' q'. publish_rows-Covers total p' f' q' rest)
    where
      go :
          (d : Fate)
          → fate_of row ≡ d
          → ((p' f' q' : ℕ) (b' : Batch)
              → publish_rows max_attempts describe outcome total p' f' q' rest ≡ ok b'
              → Covers total rest b')
          → Covers total (row ∷ rest) b
      go exhausted e ih =
          put_row-Covers total row (exhaust row) rest _ b refl (ground arith) (ih p f (q + 1))
      go (tried sent) e ih =
          put_row-Covers total row row rest _ b refl (ground arith) (ih (p + 1) f q)
      go (tried (broker_down x)) e ih = ground arith
      go (tried (permanent x)) e ih =
          put_row-Covers total row (reject (describe.error x) row) rest _ b refl (ground arith)
            (ih p (f + 1) (q + 1))
      go (tried (unexpected x)) e ih =
          put_row-Covers total row (retry_later (describe.unexpected_error x) row) rest _ b refl
            (ground arith) (ih p (f + 1) q)
      go (tried stopped) e ih = absurd (ground arith)

  -- Every batch, also one that gave up on the broker, has the rows that were claimed, in their order;
  -- and when it gave up, each of them is counted, as published, as failed or as poison.
  pub publish_batch-Covers :
      (rows : List OutboxEvent) (b : Batch)
      → publish_batch max_attempts describe outcome rows ≡ ok b
      → Covers (length rows) rows b
  unfolding publish_batch
  publish_batch-Covers rows b h = publish_rows-Covers (length rows) 0 0 0 rows b h
