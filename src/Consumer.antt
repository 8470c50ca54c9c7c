-- ===== src/Consumer.antt =====
-- `KafkaConsumer` of src/core/consumer.py and `RedisDedupe` of src/core/dedupe.py: what becomes of one
-- message, and of the records of one poll. The handlers work on a database of any type; a
-- transaction that is rolled back leaves it as it was.
pub mod Redelivery
pub mod Seen
pub mod Worker
use nimbus_commerce_platform.Common.{
  ℕ, ◌+◌, concat, String, Bool, true, false, Option, none, some, List, [], ◌∷◌, str_eq,
  if◌then◌else◌,
}
use nimbus_commerce_platform.Common.Int.{ℤ, pos, pos_part, leb_ℤ}
use nimbus_commerce_platform.Errors.{
  Exn, Result, ok, err, ◌>>◌, value_error, runtime_error, cache_unavailable, is_exception,
}
use nimbus_commerce_platform.Storage.{Keys, Link, ask}
use nimbus_commerce_platform.Breaker.{Breaker, call}
use nimbus_commerce_platform.Messaging.Envelope.{Json, EventEnvelope, content_hash}
use nimbus_commerce_platform.Payments.Lock.{Io}

-- A week, where no ttl is given.
abbrev pub dedupe_ttl_or_default : Option ℤ → ℤ
dedupe_ttl_or_default none = pos 604800
dedupe_ttl_or_default (some ttl) = ttl

abbrev pub dedupe_key : String → String
dedupe_key dedupe_id = concat "dedupe:" dedupe_id

-- An open breaker counts as a new message.
abbrev pub fail_open : Result Bool → Result Bool
fail_open (err cache_unavailable) = ok true
fail_open r = r

module _ (k : Keys) where
  unfoldable pub check_and_record :
      String → Option ℤ → Io → Breaker → k.Store → Result Bool × Breaker × k.Store
  check_and_record dedupe_id ttl_seconds io b s =
      let ttl = dedupe_ttl_or_default ttl_seconds in
      if str_eq dedupe_id ""
      then (err value_error, b, s)
      else (if leb_ℤ ttl (pos 0)
          then (err value_error, b, s)
          else (let (r, b', s') =
                call io.now io.done
                  (ask io.link (λ u. k.set_nx u (dedupe_key dedupe_id) "1" (pos_part ttl))) b s in
              (fail_open r, b', s')))

-- A record that aiokafka returns; a tombstone has no value.
pub record ConsumerRecord : Type 0 where
  pub topic : String
  pub offset : ℕ
  pub value : Option String

-- A record with what its handling meets: the command to Redis, the opening of the session and its
-- commit.
pub record Delivery : Type 0 where
  pub message : ConsumerRecord
  pub io : Io
  pub opened : Result (Unit {0})
  pub commit : Result (Unit {0})

-- What a message can change.
pub record World (k : Keys) (Db : Type 0) : Type 0 where
  pub breaker : Breaker
  pub keys : k.Store
  pub db : Db

abbrev pub Handler : Type 0 → Type 0
Handler Db = EventEnvelope → Db → Result (Unit {0}) × Db

-- `_dedupe` and `_session_factory` are set or not; the handlers are a dict.
pub record KafkaConsumer (Db : Type 0) : Type 0 where
  pub has_dedupe : Bool
  pub has_session_factory : Bool
  pub handlers : String → String → Option (Handler Db)
  -- `EventEnvelope.from_bytes`; `none` where it raises
  pub from_bytes : String → Option EventEnvelope
  pub digest : Json → String

module _ (k : Keys) {Db : Type 0} (c : KafkaConsumer Db) where
  -- The `async with` around the handler: a commit, or a rollback and the exception.
  unfoldable pub in_session :
      Delivery → EventEnvelope → Handler Db → World k Db → Result (Unit {0}) × World k Db
  in_session d envelope handler w = elim d.opened [
    | err e ↦ (err e, w)
    | ok _ ↦
        let (r, db') = handler envelope w.db in
        elim (r >> d.commit) [ err e ↦ (err e, w) | ok _ ↦ (ok tt, record w { db = db' }) ]
  ]

  -- The part of `_handle_message` after the check for duplicates.
  unfoldable pub run_handler :
      Delivery → EventEnvelope → World k Db → Result (Unit {0}) × World k Db
  unfolding in_session
  run_handler d envelope w = elim (c.handlers d.message.topic envelope.event_type) [
    | none ↦ (ok tt, w)
    | some handler ↦
        if c.has_session_factory then in_session d envelope handler w else (err runtime_error, w)
  ]

  unfoldable pub handle_envelope :
      Delivery → EventEnvelope → World k Db → Result (Unit {0}) × World k Db
  unfolding run_handler check_and_record
  handle_envelope d envelope w =
      let (fresh, b', s') =
        check_and_record k (content_hash c.digest envelope) none d.io w.breaker w.keys in
      let w' = record w { breaker = b'; keys = s' } in
      elim fresh [
        | err e ↦ (err e, w')
        | ok false ↦ (ok tt, w')
        | ok true ↦ run_handler d envelope w'
      ]

  unfoldable pub handle_value :
      Delivery → Option String → World k Db → Result (Unit {0}) × World k Db
  unfolding handle_envelope
  handle_value d none w = (ok tt, w)
  handle_value d (some bytes) w = elim (c.from_bytes bytes) [
    | none ↦ (ok tt, w)
    | some envelope ↦ handle_envelope d envelope w
  ]

  -- `_handle_message`
  unfoldable pub handle_message : Delivery → World k Db → Result (Unit {0}) × World k Db
  unfolding handle_value
  handle_message d w =
      if c.has_dedupe then handle_value d d.message.value w else (err runtime_error, w)

  -- The inner loop of `_poll_and_dispatch`, over the records of one partition, with the offset to
  -- commit so far; only an exception that is no `Exception` leaves the loop.
  unfoldable pub dispatch_batch :
      List Delivery → Option ℕ → World k Db → Result (Option ℕ) × World k Db
  unfolding handle_message
  dispatch_batch [] offset w = (ok offset, w)
  dispatch_batch (d ∷ rest) offset w =
      let (r, w') = handle_message d w in
      elim r [
        | ok _ ↦ dispatch_batch rest (some (d.message.offset + 1)) w'
        | err e ↦ elim (is_exception e) [
          | true ↦ dispatch_batch rest offset w'
          | false ↦ (err e, w')
        ]
      ]

  -- The outer loop, over the partitions: the offsets to commit, by partition.
  unfoldable pub dispatch :
      List (ℕ × List Delivery) → World k Db → Result (List (ℕ × ℕ)) × World k Db
  unfolding dispatch_batch
  dispatch [] w = (ok [], w)
  dispatch ((partition, batch) ∷ rest) w =
      let (r, w') = dispatch_batch batch none w in
      elim r [
        | err e ↦ (err e, w')
        | ok offset ↦
            let (offsets, w'') = dispatch rest w' in
            (
              elim offsets [
                | err e ↦ err e
                | ok found ↦ ok (elim offset [ none ↦ found | some o ↦ (partition, o) ∷ found ])
              ],
              w'',
            )
      ]

  -- `_poll_and_dispatch` on what `getmany` returned: the offsets that it asks Kafka to commit, if any.
  -- How that ends, an `Exception` of it aside, is `committed`.
  unfoldable pub poll_and_dispatch :
      List (ℕ × List Delivery) → Result (Unit {0}) → World k Db → Result (List (ℕ × ℕ)) × World k Db
  unfolding dispatch
  poll_and_dispatch records committed w =
      let (r, w') = dispatch records w in
      elim r [
        | err e ↦ (err e, w')
        | ok [] ↦ (ok [], w')
        | ok (first ∷ others) ↦ elim committed [
          | ok _ ↦ (ok (first ∷ others), w')
          | err e ↦ (if is_exception e then ok (first ∷ others) else err e, w')
        ]
      ]
