-- ===== src/Relay/Worker.antt =====
-- The background task of `OutboxRelay` of src/workers/outbox_relay.py: `start`, `stop` and the loop
-- around the ticks.
pub mod Laps
pub mod Statistics
pub mod Survival
pub mod Stopping
use nimbus_commerce_platform.Common.{
  ℕ, Bool, true, false, ◌||◌, Option, none, some, List, [], ◌∷◌, ltb, if◌then◌else◌,
}
use nimbus_commerce_platform.Errors.{Exn, Result, ok, err, is_exception}
use nimbus_commerce_platform.Payments.Models.{OutboxEvent}
use nimbus_commerce_platform.Relay.{RelayStats, Outcome, Describe}
use nimbus_commerce_platform.Relay.Transaction.{Tick, Database, tick}
use nimbus_commerce_platform.Tasks.{Life, Task, running, is_running, Waited, await_end, Wake, sleep}

-- `start`, where the settings enable the relay or not.
unfoldable pub start : Bool → Life → Life
start enabled l =
    if is_running l
    then l
    else (if enabled then record { task = some running; stop_event = false } else l)

-- `stop`: `waited` and `ending` as in `await_end`.
unfoldable pub stop : Waited → Result (Unit {0}) → Life → Result (Unit {0}) × Life
stop waited ending l = elim l.task [
  | none ↦ (ok tt, l)
  | some task ↦ (await_end waited ending, record { task = none; stop_event = true })
]

-- What one round of the loop meets: the clock, the claim, what becomes of each row, the database,
-- whether `stop` is called while the tick runs, and what ends the sleep.
pub record Round : Type 0 where
  pub now : ℕ
  pub claim : Result (List OutboxEvent)
  pub outcome : OutboxEvent → Outcome
  pub db : Database
  pub stop_called : Bool
  pub wake : Wake

-- How long the loop sleeps: the poll interval, or half of it.
pub data Pause : Type 0 where
  interval half_interval : Pause

-- The sleep after a tick, or the exception that leaves the loop.
abbrev pub pause_after : Result ℕ → Result Pause
pause_after (ok processed) = ok (if ltb 0 processed then half_interval else interval)
pause_after (err e) = if is_exception e then ok interval else err e

-- A tick that the loop ran, and the sleep that it chose.
pub record Lap : Type 0 where
  pub tick : Tick
  pub pause : Result Pause

-- The loop so far: how it ended, if it did, the statistics and the ticks in their order.
pub record Run : Type 0 where
  pub end_of : Option (Result (Unit {0}))
  pub stats : RelayStats
  pub laps : List Lap

abbrev pub lap_of : Tick → Lap
lap_of t = record { tick = t; pause = pause_after t.result }

abbrev pub after_lap : Lap → Run → Run
after_lap lap r = record r { laps = lap ∷ r.laps }

module _ (max_attempts : ℕ) (describe : Describe) where
  abbrev pub tick_of : Round → RelayStats → Tick
  tick_of r stats = tick max_attempts describe r.outcome r.now r.claim r.db stats

  -- `_run_forever` over the rounds that are looked at, with the stop event as it is before them.
  unfoldable pub run_forever : List Round → Bool → RelayStats → Run
  run_forever [] asked stats = record {
    end_of = if asked then some (ok tt) else none;
    stats = stats;
    laps = [];
  }
  run_forever (r ∷ rest) asked stats = elim asked [
    | true ↦ record { end_of = some (ok tt); stats = stats; laps = [] }
    | false ↦
        let t = tick_of r stats in
        let lap = lap_of t in
        elim (pause_after t.result) [
          | err e ↦ record { end_of = some (err e); stats = t.stats; laps = lap ∷ [] }
          | ok _ ↦ elim (sleep r.stop_called r.wake) [
            | err e ↦ record { end_of = some (err e); stats = t.stats; laps = lap ∷ [] }
            | ok asked' ↦ after_lap lap (run_forever rest asked' t.stats)
          ]
        ]
  ]
