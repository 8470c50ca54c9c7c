-- ===== src/Examples/Workers.antt =====
-- Runs of the background workers and of the lifespan around them.
use nimbus_commerce_platform.Common.{ℕ, ◌≤◌, ◌≡◌, refl, true, false, none, some, [], ◌∷◌, length}
use nimbus_commerce_platform.Errors.{ok, err, runtime_error, broker_unavailable, cancelled}
use nimbus_commerce_platform.Messaging.Producer.{kafka_error}
use nimbus_commerce_platform.Relay.{sent}
use nimbus_commerce_platform.Relay.Transaction.{tick}
use nimbus_commerce_platform.Relay.Worker.{Round, run_forever, stop}
use nimbus_commerce_platform.Relay.Worker.Laps.{has_ended, run_forever_stops}
use nimbus_commerce_platform.Relay.Worker.Survival.{IsPlain, run_forever_goes_on}
use nimbus_commerce_platform.Relay.Worker.Stopping.{stop_late}
use nimbus_commerce_platform.Consumer.Worker.{Worker, connected}
use nimbus_commerce_platform.Consumer.Worker as Consumer
use nimbus_commerce_platform.Consumer.Worker.Loop.{run_forever_failed}
use nimbus_commerce_platform.Tasks.{Life, running, elapsed, cancelled_asleep, late}
use nimbus_commerce_platform.Examples.{keys}
use nimbus_commerce_platform.Examples.Delivery.{two, describe, no_stats, fine}
use nimbus_commerce_platform.Examples.Traffic as Traffic
use nimbus_commerce_platform.Examples.Traffic.{counting}

-- A round whose rows are sent, one whose claim fails, and one in which `stop` is called.
abbrev good : Round
good = record {
  now = 100;
  claim = ok two;
  outcome = λ r. sent;
  db = fine;
  stop_called = false;
  wake = elapsed;
}

abbrev broken : Round
broken = record good { claim = err runtime_error }

abbrev last : Round
last = record good { stop_called = true }

abbrev cut_off : Round
cut_off = record good { wake = cancelled_asleep }

good-IsPlain : IsPlain 5 describe good
good-IsPlain = record {
  claim = refl;
  outcome = λ r. refl;
  flush = refl;
  commit = refl;
  wake = refl;
  asked = refl;
}

broken-IsPlain : IsPlain 5 describe broken
broken-IsPlain = record {
  claim = refl;
  outcome = λ r. refl;
  flush = refl;
  commit = refl;
  wake = refl;
  asked = refl;
}

run_forever_goes_on_example :
    ((run_forever 5 describe (broken ∷ good ∷ broken ∷ []) false no_stats).end_of ≡ none)
    × (length (run_forever 5 describe (broken ∷ good ∷ broken ∷ []) false no_stats).laps ≡ 3)
run_forever_goes_on_example =
    run_forever_goes_on 5 describe (broken ∷ good ∷ broken ∷ []) no_stats
      (broken-IsPlain, (good-IsPlain, (broken-IsPlain, tt)))

run_forever_stops_example :
    (has_ended (run_forever 5 describe (broken ∷ last ∷ good ∷ good ∷ []) false no_stats) ≡ true)
    × (length (run_forever 5 describe (broken ∷ last ∷ good ∷ good ∷ []) false no_stats).laps ≤ 2)
run_forever_stops_example =
    run_forever_stops 5 describe (broken ∷ []) last (good ∷ good ∷ []) false no_stats refl

abbrev alive : Life
alive = record { task = some running; stop_event = false }

stop_late_example :
    ((stop late (err cancelled) alive).0 ≡ err cancelled)
    × (((stop late (err cancelled) alive).1).task ≡ none)
unfolding run_forever tick
stop_late_example =
    stop_late 5 describe (cut_off ∷ []) false no_stats (err cancelled) alive running refl refl

run_forever_failed_example :
    (connected kafka_error ≡ err broker_unavailable)
    × (Consumer.run_forever keys counting (connected kafka_error) false [] Traffic.start
        ≡ record { end_of = some (err broker_unavailable); world = Traffic.start; polls = [] })
unfolding Consumer.run_forever
run_forever_failed_example =
    run_forever_failed keys counting (connected kafka_error) false [] Traffic.start
      broker_unavailable refl refl

abbrev idle_consumer : Worker ℕ
idle_consumer = record {
  life = record { task = none; stop_event = false };
  has_client = false;
  consumer = counting;
}
