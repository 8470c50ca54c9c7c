-- ===== src/Consumer/Redelivery.antt =====
-- What the consumer of src/core/consumer.py makes of messages that fail and of messages that come
-- again.
use nimbus_commerce_platform.Common.{
  ℕ, ◌+◌, ◌≡◌, refl, ◌∙◌, ◌≢◌, inl, inr, String, true, false, Option, none, some, List, [], ◌∷◌,
  ◌++◌, arith, str_eq_iff, Bool-cases, All,
}
use nimbus_commerce_platform.Errors.{Exn, ok, err, Result-cases, is_exception}
use nimbus_commerce_platform.Storage.{Keys, answers}
use nimbus_commerce_platform.Breaker.{Breaker, closed, call}
use nimbus_commerce_platform.Messaging.Envelope.{EventEnvelope, content_hash}
use nimbus_commerce_platform.Consumer.{
  Delivery, World, KafkaConsumer, dedupe_key, check_and_record, handle_envelope, in_session,
  run_handler, handle_message, dispatch_batch,
}

module _ (k : Keys) {Db : Type 0} (c : KafkaConsumer Db) (envelope : EventEnvelope) where
  abbrev pub id_of : String
  id_of = content_hash c.digest envelope

  abbrev pub key_of : String
  key_of = dedupe_key id_of

  -- A delivery of the envelope, with Redis answering, to a consumer that is set up.
  pub record Delivers (d : Delivery) (bytes : String) : Type 0 where
    pub ready : c.has_dedupe ≡ true
    pub value : d.message.value ≡ some bytes
    pub parsed : c.from_bytes bytes ≡ some envelope
    pub named : id_of ≢ ""
    pub up : d.io.link ≡ answers

  check_new :
      (d : Delivery) (b : Breaker) (s : k.Store)
      → id_of ≢ ""
      → d.io.link ≡ answers
      → b.state ≡ closed
      → let (r, b', s') = check_and_record k id_of none d.io b s in
        (r ≡ elim (k.get s key_of) [ none ↦ ok true | some _ ↦ ok false ])
        × (b'.state ≡ closed)
        × (k.get s' key_of ≡ elim (k.get s key_of) [ none ↦ some "1" | some v ↦ some v ])
  unfolding check_and_record call
  check_new d b s named up shut =
      let done = k.set_nx_done s key_of "1" 604800 in
      let after = k.get-set_nx s key_of "1" 604800 key_of in
      ground (arith, str_eq_iff id_of "", str_eq_iff key_of key_of, done, after)

  -- A handler that does not get as far as its commit leaves the database alone.
  run_handler-err :
      (d : Delivery) (w w' : World k Db) (e : Exn)
      → run_handler k c d envelope w ≡ (err e, w')
      → w'.db ≡ w.db
  unfolding run_handler in_session
  run_handler-err d w w' e h = ground arith

  handle_known :
      (d : Delivery) (bytes : String) (w : World k Db) (v : String)
      → Delivers d bytes
      → w.breaker.state ≡ closed
      → k.get w.keys key_of ≡ some v
      → let (r, w') = handle_message k c d w in
        (r ≡ ok tt) × (w'.db ≡ w.db) × (w'.breaker.state ≡ closed) × (k.get w'.keys key_of ≡ some v)
  unfolding handle_message handle_envelope
  handle_known d bytes w v dl shut known =
      let (answer, shut', kept) = check_new d w.breaker w.keys dl.named dl.up shut in
      ground (arith, dl.ready, dl.value, dl.parsed)

  handle_new :
      (d : Delivery) (bytes : String) (w : World k Db)
      → Delivers d bytes
      → w.breaker.state ≡ closed
      → k.get w.keys key_of ≡ none
      → let (r, w') = handle_message k c d w in
        (r ≡ (run_handler k c d envelope w).0)
        × (w'.db ≡ (run_handler k c d envelope w).1.db)
        × (w'.breaker.state ≡ closed)
        × (k.get w'.keys key_of ≡ some "1")
  unfolding handle_message handle_envelope run_handler in_session
  handle_new d bytes w dl shut free =
      let (answer, shut', kept) = check_new d w.breaker w.keys dl.named dl.up shut in
      ground (arith, dl.ready, dl.value, dl.parsed)

  -- To a consumer that is set up, with the breaker closed and Redis answering both times, a message
  -- that was not recorded before and whose handling raised has left the database as it was; its
  -- redelivery succeeds, and the database is still as it was.
  pub handle_message_redelivered :
      (d d' : Delivery) (bytes bytes' : String) (w w' : World k Db) (e : Exn)
      → Delivers d bytes
      → Delivers d' bytes'
      → w.breaker.state ≡ closed
      → k.get w.keys key_of ≡ none
      → handle_message k c d w ≡ (err e, w')
      → (w'.db ≡ w.db)
        × ((handle_message k c d' w').0 ≡ ok tt)
        × ((handle_message k c d' w').1.db ≡ w.db)
  handle_message_redelivered d d' bytes bytes' w w' e dl dl' shut free h =
      let (r, same, shut', kept) = handle_new d bytes w dl shut free in
      let back : w'.db ≡ w.db =
        ground (arith, run_handler-err d w (run_handler k c d envelope w).1 e (ground arith)) in
      let (r', same', _, _) = handle_known d' bytes' w' "1" dl' (ground arith) (ground arith) in
      (back, r', ground arith)

  -- One delivery after another, whatever each of them raises.
  abbrev pub handle_all : List Delivery → World k Db → World k Db
  handle_all [] w = w
  handle_all (d ∷ ds) w = handle_all ds (handle_message k c d w).1

  handle_all_known :
      (ds : List Delivery) (w : World k Db) (v : String)
      → All (λ d. (bytes : String) × Delivers d bytes) ds
      → w.breaker.state ≡ closed
      → k.get w.keys key_of ≡ some v
      → (handle_all ds w).db ≡ w.db
  handle_all_known [] w v dls shut known = refl
  handle_all_known (d ∷ ds) w v ((bytes, dl), dls) shut known =
      let (_, same, shut', known') = handle_known d bytes w v dl shut known in
      handle_all_known ds (handle_message k c d w).1 v dls shut' known' ∙ same

  -- Deliveries of one envelope, in any number, to a consumer that is set up, with the breaker
  -- closed, Redis answering and the envelope not recorded before: only the first reaches the
  -- database, which is left as the handler of the first delivery leaves it.
  pub handle_all_once :
      (d : Delivery) (ds : List Delivery) (bytes : String) (w : World k Db)
      → Delivers d bytes
      → All (λ d'. (bytes' : String) × Delivers d' bytes') ds
      → w.breaker.state ≡ closed
      → k.get w.keys key_of ≡ none
      → (handle_all (d ∷ ds) w).db ≡ (run_handler k c d envelope w).1.db
  handle_all_once d ds bytes w dl dls shut free =
      let (_, same, shut', known) = handle_new d bytes w dl shut free in
      handle_all_known ds (handle_message k c d w).1 "1" dls shut' known ∙ same

module _ (k : Keys) {Db : Type 0} (c : KafkaConsumer Db) where
  dispatch_batch-append :
      (ds es : List Delivery) (offset : Option ℕ) (w : World k Db)
      → dispatch_batch k c (ds ++ es) offset w ≡ elim (dispatch_batch k c ds offset w).0 [
        | err e ↦ dispatch_batch k c ds offset w
        | ok o ↦ dispatch_batch k c es o (dispatch_batch k c ds offset w).1
      ]
  unfolding dispatch_batch
  dispatch_batch-append [] es offset w = refl
  dispatch_batch-append (d ∷ ds) es offset w =
      let w' = (handle_message k c d w).1 in
      elim (Result-cases (handle_message k c d w).0) [
        | inl (u, p) ↦ ground (arith, dispatch_batch-append ds es (some (d.message.offset + 1)) w')
        | inr (e, p) ↦ elim (Bool-cases (is_exception e)) [
          | inl q ↦ ground (arith, dispatch_batch-append ds es offset w')
          | inr q ↦ ground arith
        ]
      ]

  -- If the last record of a batch is handled, the offset to commit for the partition is one past
  -- it, whatever the handling of the records before it came to, as long as none was cancelled.
  pub dispatch_batch_passes :
      (ds : List Delivery) (last : Delivery) (offset o : Option ℕ) (w w' w'' : World k Db)
      → dispatch_batch k c ds offset w ≡ (ok o, w')
      → handle_message k c last w' ≡ (ok tt, w'')
      → dispatch_batch k c (ds ++ (last ∷ [])) offset w ≡ (ok (some (last.message.offset + 1)), w'')
  unfolding dispatch_batch
  dispatch_batch_passes ds last offset o w w' w'' h p =
      ground (arith, dispatch_batch-append ds (last ∷ []) offset w)
