-- ===== src/Relay.antt =====
-- `OutboxRelay` of src/workers/outbox_relay.py: one tick of the relay on the batch of rows that it has
-- claimed. The SELECT … FOR UPDATE SKIP LOCKED, the broker and the commit are arguments.
pub mod Publish
pub mod Transaction
pub mod Marks
pub mod Ticks
pub mod Attempts
pub mod Outbox
pub mod Retries
pub mod Worker
use nimbus_commerce_platform.Common.{
  ℕ, zero, suc, ◌+◌, ◌-◌, String, Bool, true, false, ◌&&◌, Option, none, some, List, [], ◌∷◌, ltb,
  leb, ◌==◌, length, if◌then◌else◌,
}
use nimbus_commerce_platform.Errors.{
  Exn, Result, ok, err, ◌>>=◌, infrastructure, database_lock, database_connection,
  cache_unavailable, broker_unavailable, operational_error, cancelled,
}
use nimbus_commerce_platform.Messaging.Envelope.{Json, EventEnvelope}
use nimbus_commerce_platform.Messaging.Producer.{
  Kafka, Message, RecordMetadata, Wire, KafkaProducer, publish,
}
use nimbus_commerce_platform.Payments.Models.{OutboxEvent}

pub record RelayStats : Type 0 where
  pub polls : ℕ
  pub rows_seen : ℕ
  pub rows_published : ℕ
  pub rows_failed : ℕ
  pub rows_skipped_poison : ℕ
  pub ticks : ℕ
  pub last_tick_at : ℕ
  pub last_publish_at : ℕ

-- `_publish_one`; `model_validate` returns `none` where pydantic raises.
unfoldable pub publish_one :
    (Json → Option EventEnvelope)
    → Wire
    → (Message → Kafka RecordMetadata)
    → KafkaProducer
    → OutboxEvent
    → Result (Unit {0})
publish_one model_validate w send producer row = elim (model_validate row.payload) [
  | none ↦ err infrastructure
  | some envelope ↦
      publish w send producer envelope row.topic (some envelope.aggregate_id)
        (some (("outbox_id", w.str_uuid row.id) ∷ ("aggregate_type", row.aggregate_type) ∷ []))
      >>= λ _. ok tt
]

-- The `except` clauses of `_publish_batch`, in their order: BrokerUnavailableError, then any other
-- InfrastructureError, then any other Exception; a cancellation passes through.
pub data Outcome : Type 0 where
  sent : Outcome
  broker_down permanent unexpected : Exn → Outcome
  stopped : Outcome

unfoldable pub classify : Result (Unit {0}) → Outcome
classify (ok _) = sent
classify (err broker_unavailable) = broker_down broker_unavailable
classify (err infrastructure) = permanent infrastructure
classify (err database_lock) = permanent database_lock
classify (err database_connection) = permanent database_connection
classify (err cache_unavailable) = permanent cache_unavailable
classify (err cancelled) = stopped
classify (err e) = unexpected e

-- What becomes of a row in `_publish_batch`.
pub data Fate : Type 0 where
  exhausted : Fate
  tried : Outcome → Fate

-- Rows that have failed too many times are not tried.
abbrev pub fate : ℕ → (OutboxEvent → Outcome) → OutboxEvent → Fate
fate max_attempts outcome row =
    if leb max_attempts row.attempt_count then exhausted else tried (outcome row)

-- `str(exc)[:1024]`, and the text of an unexpected exception, cut likewise.
pub record Describe : Type 0 where
  pub error : Exn → String
  pub unexpected_error : Exn → String

-- What `_publish_batch` writes to a row, by what became of it.
abbrev pub exhaust : OutboxEvent → OutboxEvent
exhaust row = record row { failed = true; last_error = some "max_attempts_exceeded" }

abbrev pub retry_later : String → OutboxEvent → OutboxEvent
retry_later error row = record row {
  attempt_count = row.attempt_count + 1;
  last_error = some error;
}

abbrev pub reject : String → OutboxEvent → OutboxEvent
reject error row = record row {
  attempt_count = row.attempt_count + 1;
  last_error = some error;
  failed = true;
}

-- The four values that `_publish_batch` returns, and the rows as it leaves them.
pub record Batch : Type 0 where
  pub published : ℕ
  pub failed : ℕ
  pub poison : ℕ
  pub fail_fast : Bool
  pub rows : List OutboxEvent

abbrev pub put_row : OutboxEvent → Result Batch → Result Batch
put_row row (ok b) = ok (record b { rows = row ∷ b.rows })
put_row row (err e) = err e

module _ (max_attempts : ℕ) (describe : Describe) (outcome : OutboxEvent → Outcome) where
  -- The loop of `_publish_batch` over the rows that are left; `total` is the length of the batch.
  unfoldable pub publish_rows : ℕ → ℕ → ℕ → ℕ → List OutboxEvent → Result Batch
  publish_rows total published failed poison [] = ok (record {
    published = published;
    failed = failed;
    poison = poison;
    fail_fast = false;
    rows = [];
  })
  publish_rows total published failed poison (row ∷ rest) = elim (fate max_attempts outcome row) [
    | exhausted ↦ put_row (exhaust row) (publish_rows total published failed (poison + 1) rest)
    | tried sent ↦ put_row row (publish_rows total (published + 1) failed poison rest)
    | tried (broker_down e) ↦ ok (record {
      published = published;
      failed = failed + 1 + (total - published - (failed + 1) - poison);
      poison = poison;
      fail_fast = true;
      rows = retry_later (describe.error e) row ∷ rest;
    })
    | tried (permanent e) ↦
        put_row (reject (describe.error e) row)
          (publish_rows total published (failed + 1) (poison + 1) rest)
    | tried (unexpected e) ↦
        put_row (retry_later (describe.unexpected_error e) row)
          (publish_rows total published (failed + 1) poison rest)
    | tried stopped ↦ err cancelled
  ]

  -- `_publish_batch`
  unfoldable pub publish_batch : List OutboxEvent → Result Batch
  unfolding publish_rows
  publish_batch rows = publish_rows (length rows) 0 0 0 rows

-- The loop of `_mark_batch`, with the number of rows that are still to be marked.
unfoldable pub mark_rows : ℕ → ℕ → List OutboxEvent → List OutboxEvent
mark_rows now left [] = []
mark_rows now left (row ∷ rest) = elim row.failed [
  | true ↦ row ∷ mark_rows now left rest
  | false ↦ elim left [
    | zero ↦ row ∷ mark_rows now zero rest
    | suc fewer ↦
        record row { processed = true; processed_at = some now } ∷ mark_rows now fewer rest
  ]
]

-- `_mark_batch` returns early where nothing was published and nothing is poison.
abbrev pub is_unmarked : Batch → Bool
is_unmarked b = b.published == 0 && b.poison == 0

-- `_mark_batch`
unfoldable pub mark_batch : ℕ → Batch → List OutboxEvent
unfolding mark_rows
mark_batch now b = if is_unmarked b then b.rows else mark_rows now b.published b.rows
