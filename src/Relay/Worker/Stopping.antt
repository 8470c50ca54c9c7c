-- ===== src/Relay/Worker/Stopping.antt =====
-- How `start` and `stop` of the relay of src/workers/outbox_relay.py meet its loop.
use nimbus_commerce_platform.Common.{ℕ, ◌≡◌, Bool, true, none, some, List, arith}
use nimbus_commerce_platform.Errors.{Result, ok, err}
use nimbus_commerce_platform.Relay.{RelayStats, Describe}
use nimbus_commerce_platform.Relay.Worker.{Round, run_forever, start, stop}
use nimbus_commerce_platform.Relay.Worker.Laps.{run_forever_uncaught}
use nimbus_commerce_platform.Tasks.{Life, Task, is_running, Waited, late}

-- A start of a worker that has been stopped makes a running task whose loop finds the stop event
-- cleared; a second start changes nothing.
pub start-stop :
    (waited : Waited) (ending : Result (Unit {0})) (l : Life) (enabled : Bool)
    → (is_running (start true (stop waited ending l).1) ≡ true)
      × (start enabled (start true (stop waited ending l).1) ≡ start true (stop waited ending l).1)
unfolding start stop
start-stop waited ending l enabled = (ground arith, ground arith)

-- A `stop` whose time runs out suppresses nothing: where the task that it cancels ends as its
-- loop does, the call returns if the loop returned, and raises what the loop raised. The task is
-- forgotten either way.
pub stop_late :
    (max_attempts : ℕ) (describe : Describe) (rs : List Round) (asked : Bool) (stats : RelayStats)
    (ending : Result (Unit {0})) (l : Life) (task : Task)
    → (run_forever max_attempts describe rs asked stats).end_of ≡ some ending
    → l.task ≡ some task
    → (stop late ending l).0 ≡ ending × (((stop late ending l).1).task ≡ none)
unfolding stop
stop_late max_attempts describe rs asked stats (ok _) l task h t = (ground arith, ground arith)
stop_late max_attempts describe rs asked stats (err e) l task h t =
    let u = run_forever_uncaught max_attempts describe rs asked stats e h in
    (ground arith, ground arith)
