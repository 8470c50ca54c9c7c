-- ===== src/Examples/Delivery.antt =====
-- Runs of the relay and of the producer.
use nimbus_commerce_platform.Common.{
  All, ℕ, suc, ◌+◌, ◌≡◌, refl, ◌<◌, true, false, if◌then◌else◌, none, some, List, [], ◌∷◌, ◌==◌,
  arith, count_if,
}
use nimbus_commerce_platform.Errors.{ok, infrastructure, runtime_error}
use nimbus_commerce_platform.Messaging.Envelope.{EventEnvelope, null}
use nimbus_commerce_platform.Messaging.Producer.{
  Kafka, done, Message, RecordMetadata, Wire, KafkaProducer,
}
use nimbus_commerce_platform.Payments.Models.{OutboxEvent}
use nimbus_commerce_platform.Relay.{
  RelayStats, Outcome, sent, permanent, unexpected, fate, Describe, Batch, publish_batch,
  mark_batch,
}
use nimbus_commerce_platform.Relay.Transaction.{Tick, Database, tick, settle_batch}
use nimbus_commerce_platform.Relay.Publish.{ids, Counted, is_sent, publish_batch-Counted}
use nimbus_commerce_platform.Relay.Marks.{mark_batch_misplaced}
use nimbus_commerce_platform.Relay.Attempts.{Counts, tick_attempts_bounded}
use nimbus_commerce_platform.Relay.Ticks.{Committed, tick_committed}
use nimbus_commerce_platform.Relay.Retries.{ticks, ticks_sent}
use nimbus_commerce_platform.Relay.Outbox.{ticks_outbox, ticks_outbox_give_up}

abbrev pub row : ℕ → OutboxEvent
row id = record {
  id = id;
  aggregate_type = "Payment";
  aggregate_id = "1";
  event_type = "payments.payment_captured";
  topic = "payments.events";
  payload = null;
  dedupe_id = "digest";
  processed = false;
  created_at = id;
  processed_at = none;
  attempt_count = 0;
  failed = false;
  last_error = none;
}

abbrev pub describe : Describe
describe = record { error = λ _. "error"; unexpected_error = λ _. "unexpected: error" }

-- Row 1 is sent, row 2 does not deserialize, and the others are sent.
abbrev second_bad : OutboxEvent → Outcome
second_bad r = if r.id == 2 then permanent infrastructure else sent

-- Row 1 meets an unexpected error.
abbrev first_odd : OutboxEvent → Outcome
first_odd r = if r.id == 1 then unexpected runtime_error else sent

abbrev three : List OutboxEvent
three = row 1 ∷ row 2 ∷ row 3 ∷ []

abbrev pub two : List OutboxEvent
two = row 1 ∷ row 2 ∷ []

abbrev batch : Batch
batch = record {
  published = 2;
  failed = 1;
  poison = 1;
  fail_fast = false;
  rows =
      row 1
      ∷ record (row 2) { attempt_count = 1; last_error = some "error"; failed = true }
      ∷ row 3
      ∷ [];
}

abbrev odd_batch : Batch
odd_batch = record {
  published = 1;
  failed = 1;
  poison = 0;
  fail_fast = false;
  rows = record (row 1) { attempt_count = 1; last_error = some "unexpected: error" } ∷ row 2 ∷ [];
}

publish_batch-Counted_example : Counted 5 describe second_bad 0 0 0 three batch
unfolding publish_batch
publish_batch-Counted_example = publish_batch-Counted 5 describe second_bad three batch refl refl

mark_batch_misplaced_example :
    (marked : OutboxEvent) × (others : List OutboxEvent) × (mark_batch 100 odd_batch
      ≡ marked ∷ others)
    × (marked.id ≡ 1)
    × (marked.processed ≡ true)
    × (is_sent (fate 5 first_odd (row 1)) ≡ false)
    × (count_if (λ (r : OutboxEvent). r.processed) others
        < count_if (λ r. is_sent (fate 5 first_odd r)) (row 2 ∷ []))
unfolding publish_batch
mark_batch_misplaced_example =
    mark_batch_misplaced 5 describe first_odd 100 (row 1) (row 2 ∷ []) odd_batch refl refl
      ((refl, refl), ((refl, refl), tt)) refl (omega arith)

abbrev pub no_stats : RelayStats
no_stats = record {
  polls = 0;
  rows_seen = 0;
  rows_published = 0;
  rows_failed = 0;
  rows_skipped_poison = 0;
  ticks = 0;
  last_tick_at = 0;
  last_publish_at = 0;
}

abbrev pub fine : Database
fine = record { flush = ok tt; commit = ok tt }

abbrev ticked : Tick
ticked = tick 5 describe second_bad 100 (ok three) fine no_stats

tick_committed_example :
    (rows : List OutboxEvent) × (ok three ≡ ok rows)
    × Committed 5 describe second_bad 100 rows fine ticked (mark_batch 100 batch)
unfolding tick publish_batch settle_batch
tick_committed_example =
    tick_committed 5 describe second_bad 100 (ok three) fine no_stats (mark_batch 100 batch) refl

tick_attempts_bounded_example : Counts 5 three (mark_batch 100 batch)
unfolding tick publish_batch settle_batch
tick_attempts_bounded_example =
    tick_attempts_bounded 5 describe second_bad 100 three fine no_stats (mark_batch 100 batch)
      (omega arith) refl

abbrev clock : ℕ → ℕ
clock n = 100 + n

ticks_outbox_give_up_example :
    All
      (λ r. r.failed ≡ true)
      (ticks_outbox 5 describe (λ _. unexpected runtime_error) 50 clock 6 no_stats two)
    × (ids (ticks_outbox 5 describe (λ _. unexpected runtime_error) 50 clock 6 no_stats two)
        ≡ ids two)
ticks_outbox_give_up_example =
    ticks_outbox_give_up 5 describe (λ _. unexpected runtime_error) 50 clock runtime_error
      (λ r. refl) 6 no_stats two (omega arith)
      ((refl, omega arith, omega arith), ((refl, omega arith, omega arith), tt))

ticks_sent_example :
    ticks 5 describe second_bad clock (suc 3) no_stats (row 1)
    ≡ record (row 1) { processed = true; processed_at = some 103 }
ticks_sent_example =
    ticks_sent 5 describe second_bad clock 3 no_stats (row 1) refl refl refl (omega arith)

abbrev envelope : EventEnvelope
envelope = record {
  event_id = 3;
  event_type = "payments.payment_captured";
  schema_version = 1;
  aggregate_type = "Payment";
  aggregate_id = "1";
  correlation_id = none;
  causation_id = none;
  occurred_at = "2026-01-01T00:00:00Z";
  payload = null;
}

abbrev wire : Wire
wire = record { to_bytes = λ _. "bytes"; str_uuid = λ _. "uuid"; str_int = λ _. "1" }

-- A broker that puts every message at the same place.
abbrev send : Message → Kafka RecordMetadata
send m = done (record { topic = m.topic; partition = 0; offset = 42 })

abbrev running : KafkaProducer
running = record { started = true; has_producer = true }
