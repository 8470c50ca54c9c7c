-- ===== src/Consumer/Worker/Loop.antt =====
-- The loop of the consumer of src/core/consumer.py: when it ends, and with what.
use nimbus_commerce_platform.Common.{
  ℕ, ◌+◌, ◌≤◌, ◌≡◌, refl, ◌⊎◌, inl, inr, Bool, true, false, none, some, List, [], ◌∷◌, ◌++◌, arith,
  length,
}
use nimbus_commerce_platform.Errors.{Result-cases, Exn, Result, ok, err, is_exception}
use nimbus_commerce_platform.Storage.{Keys}
use nimbus_commerce_platform.Consumer.{KafkaConsumer, World}
use nimbus_commerce_platform.Consumer.Worker.{
  Round, Run, poll, after_poll, rest_after, poll_forever, run_forever,
}

module _ (k : Keys) {Db : Type 0} (c : KafkaConsumer Db) where
  abbrev pub has_ended : Run k Db → Bool
  has_ended run = elim run.end_of [ none ↦ false | some _ ↦ true ]

  abbrev end_in : Round → World k Db → Exn → Run k Db
  end_in r w e = record {
    end_of = some (err e);
    world = (poll k c r w).1;
    polls = (poll k c r w).0 ∷ [];
  }

  rest_after-exception :
      (p : Result (List (ℕ × ℕ))) (r : Round) (e : Exn)
      → rest_after k c p r ≡ err e
      → is_exception e ≡ false
  rest_after-exception (ok x) r e h = absurd (ground arith)
  rest_after-exception (err x) r e h = ground arith

  rest_after-asked :
      (p : Result (List (ℕ × ℕ))) (r : Round) (asked : Bool)
      → rest_after k c p r ≡ ok asked
      → r.stop_called ≡ true
      → asked ≡ true
  rest_after-asked (ok x) r asked h s = ground arith
  rest_after-asked (err x) r asked h s = ground arith

  -- A round that begins with the stop event not set leaves the loop with an exception that is no
  -- `Exception`, or goes on.
  round-cases :
      (r : Round) (rest : List Round) (w : World k Db)
      → ((e : Exn) × (is_exception e ≡ false)
          × (poll_forever k c (r ∷ rest) false w ≡ end_in r w e))
        ⊎ ((asked : Bool) × (r.stop_called ≡ true → asked ≡ true)
            × (poll_forever k c (r ∷ rest) false w
                ≡ after_poll k c (poll k c r w).0 (poll_forever k c rest asked (poll k c r w).1)))
  unfolding poll_forever
  round-cases r rest w = elim (Result-cases (rest_after k c (poll k c r w).0 r)) [
    | inr (e, q) ↦ inl (e, rest_after-exception (poll k c r w).0 r e q, ground arith)
    | inl (asked, q) ↦ inr (asked, rest_after-asked (poll k c r w).0 r asked q, ground arith)
  ]

  poll_forever-asked :
      (rs : List Round) (w : World k Db)
      → poll_forever k c rs true w ≡ record { end_of = some (ok tt); world = w; polls = [] }
  unfolding poll_forever
  poll_forever-asked [] w = refl
  poll_forever-asked (r ∷ rest) w = refl

  poll_forever_uncaught :
      (rs : List Round) (asked : Bool) (w : World k Db) (e : Exn)
      → (poll_forever k c rs asked w).end_of ≡ some (err e)
      → is_exception e ≡ false
  unfolding poll_forever
  poll_forever_uncaught rs true w e h = absurd (ground (arith, poll_forever-asked rs w))
  poll_forever_uncaught [] false w e h = absurd (ground arith)
  poll_forever_uncaught (r ∷ rest) false w e h = elim (round-cases r rest w) [
    | inl (x, q, ends) ↦ ground arith
    | inr (asked, a, on) ↦ poll_forever_uncaught rest asked (poll k c r w).1 e (ground arith)
  ]

  -- The loop ends with an `Exception` in one way only, whatever its polls raise: the connection
  -- failed with it, and then there was no poll and nothing has changed.
  pub run_forever_failed :
      (connection : Result (Unit {0})) (asked : Bool) (rs : List Round) (w : World k Db) (e : Exn)
      → (run_forever k c connection asked rs w).end_of ≡ some (err e)
      → is_exception e ≡ true
      → (connection ≡ err e)
        × (run_forever k c connection asked rs w
            ≡ record { end_of = some (err e); world = w; polls = [] })
  unfolding run_forever
  run_forever_failed (err x) asked rs w e h q = (ground arith, ground arith)
  run_forever_failed (ok _) asked rs w e h q =
      let u = poll_forever_uncaught rs asked w e h in absurd (ground arith)

  -- Where `stop` is called during some round of a connected consumer, the loop ends, and no poll
  -- follows that round: there are at most as many polls as rounds up to it.
  pub poll_forever_stops :
      (before : List Round) (r : Round) (after : List Round) (asked : Bool) (w : World k Db)
      → r.stop_called ≡ true
      → (has_ended (poll_forever k c (before ++ r ∷ after) asked w) ≡ true)
        × (length (poll_forever k c (before ++ r ∷ after) asked w).polls ≤ length before + 1)
  poll_forever_stops before r after true w h =
      ground (arith, poll_forever-asked (before ++ r ∷ after) w)
  poll_forever_stops [] r after false w h = elim (round-cases r after w) [
    | inl (e, q, ends) ↦ ground arith
    | inr (asked, a, on) ↦ ground (arith, a h, poll_forever-asked after (poll k c r w).1)
  ]
  poll_forever_stops (b ∷ before) r after false w h = elim (round-cases b (before ++ r ∷ after) w) [
    | inl (e, q, ends) ↦ ground arith
    | inr (asked, a, on) ↦
        ground (arith, poll_forever_stops before r after asked (poll k c b w).1 h)
  ]
