-- ===== src/Relay/Worker/Laps.antt =====
-- The loop of the relay of src/workers/outbox_relay.py over its rounds: when it goes on, when it ends,
-- and what its statistics say.
use nimbus_commerce_platform.Common.{
  ℕ, ◌+◌, ◌≤◌, ◌≡◌, refl, ◌⊎◌, inl, inr, Bool, true, false, ◌&&◌, none, some, List, [], ◌∷◌, ◌++◌,
  arith, length,
}
use nimbus_commerce_platform.Errors.{Result-cases, Exn, ok, err, is_exception, is_survived}
use nimbus_commerce_platform.Relay.{RelayStats, Describe}
use nimbus_commerce_platform.Relay.Transaction.{Tick}
use nimbus_commerce_platform.Relay.Worker.{
  Round, pause_after, Run, tick_of, run_forever, lap_of, after_lap,
}
use nimbus_commerce_platform.Tasks.{Wake, elapsed, stop_set, cancelled_asleep, sleep}

-- The stop event after a round.
abbrev pub asked_in : Round → Bool
asked_in r = elim r.wake [ elapsed ↦ r.stop_called | stop_set ↦ true | cancelled_asleep ↦ true ]

abbrev pub is_undisturbed : Wake → Bool
is_undisturbed cancelled_asleep = false
is_undisturbed _ = true

abbrev pub has_ended : Run → Bool
has_ended r = elim r.end_of [ none ↦ false | some _ ↦ true ]

module _ (max_attempts : ℕ) (describe : Describe) where
  abbrev pub end_in : Tick → Exn → Run
  end_in t e = record { end_of = some (err e); stats = t.stats; laps = lap_of t ∷ [] }

  abbrev pub goes_on : Round → List Round → RelayStats → Run
  goes_on r rest stats = after_lap (lap_of (tick_of max_attempts describe r stats)) (
      run_forever max_attempts describe rest (asked_in r)
        (tick_of max_attempts describe r stats).stats)

  -- The two ways of a round that begins with the stop event not set: the loop is left with an
  -- exception that is no `Exception`, or it goes on.
  pub round-cases :
      (r : Round) (rest : List Round) (stats : RelayStats)
      → ((e : Exn) × (is_exception e ≡ false)
          × (is_survived (tick_of max_attempts describe r stats).result && is_undisturbed r.wake
              ≡ false)
          × (run_forever max_attempts describe (r ∷ rest) false stats
              ≡ end_in (tick_of max_attempts describe r stats) e))
        ⊎ (run_forever max_attempts describe (r ∷ rest) false stats ≡ goes_on r rest stats)
  unfolding run_forever
  round-cases r rest stats =
      elim (Result-cases (pause_after (tick_of max_attempts describe r stats).result)) [
        | inr (e, q) ↦ inl (e, ground arith, ground arith, ground arith)
        | inl (p, q) ↦ elim (Result-cases (sleep r.stop_called r.wake)) [
          | inr (e, q') ↦ inl (e, ground arith, ground arith, ground arith)
          | inl (asked, q') ↦ inr (ground arith)
        ]
      ]

  pub run_forever-asked :
      (rs : List Round) (stats : RelayStats)
      → run_forever max_attempts describe rs true stats
        ≡ record { end_of = some (ok tt); stats = stats; laps = [] }
  unfolding run_forever
  run_forever-asked [] stats = refl
  run_forever-asked (r ∷ rest) stats = refl

  -- Whatever the ticks of the loop raise, the loop never ends with an `Exception`: an exception that
  -- ends it is a cancellation or another that `except Exception` lets through.
  pub run_forever_uncaught :
      (rs : List Round) (asked : Bool) (stats : RelayStats) (e : Exn)
      → (run_forever max_attempts describe rs asked stats).end_of ≡ some (err e)
      → is_exception e ≡ false
  unfolding run_forever
  run_forever_uncaught rs true stats e h = absurd (ground (arith, run_forever-asked rs stats))
  run_forever_uncaught [] false stats e h = absurd (ground arith)
  run_forever_uncaught (r ∷ rest) false stats e h = elim (round-cases r rest stats) [
    | inl (x, q, s, ends) ↦ ground arith
    | inr on ↦
        run_forever_uncaught rest (asked_in r) (tick_of max_attempts describe r stats).stats e
          (ground arith)
  ]

  pub run_forever-[] :
      (stats : RelayStats)
      → run_forever max_attempts describe [] false stats
        ≡ record { end_of = none; stats = stats; laps = [] }
  unfolding run_forever
  run_forever-[] stats = refl

  -- Where `stop` is called while some tick runs, the loop ends, and no tick follows that one: there
  -- are at most as many ticks as rounds up to it.
  pub run_forever_stops :
      (before : List Round) (r : Round) (after : List Round) (asked : Bool) (stats : RelayStats)
      → r.stop_called ≡ true
      → (has_ended (run_forever max_attempts describe (before ++ r ∷ after) asked stats) ≡ true)
        × (length (run_forever max_attempts describe (before ++ r ∷ after) asked stats).laps
            ≤ length before + 1)
  run_forever_stops before r after true stats h =
      ground (arith, run_forever-asked (before ++ r ∷ after) stats)
  run_forever_stops [] r after false stats h = elim (round-cases r after stats) [
    | inl (e, q, s, ends) ↦ ground arith
    | inr on ↦ ground (arith, run_forever-asked after (tick_of max_attempts describe r stats).stats)
  ]
  run_forever_stops (b ∷ before) r after false stats h =
      elim (round-cases b (before ++ r ∷ after) stats) [
        | inl (e, q, s, ends) ↦ ground arith
        | inr on ↦ ground (
          arith,
          run_forever_stops before r after (asked_in b)
              (tick_of max_attempts describe b stats).stats h,
        )
      ]
