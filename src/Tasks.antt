-- ===== src/Tasks.antt =====
-- What the workers of src/workers/outbox_relay.py and src/core/consumer.py use of asyncio: tasks, the
-- event that asks a worker to stop, and the sleep that this event cuts short.
use nimbus_commerce_platform.Common.{Bool, true, false, Option, none, some, if◌then◌else◌}
use nimbus_commerce_platform.Errors.{Result, ok, err, cancelled, is_exception}

-- A task that still runs, or how it ended; a task that was cancelled ended in `err cancelled`.
pub data Task : Type 0 where
  running : Task
  ended : Result (Unit {0}) → Task

-- `self._task` and `self._stop_event`
pub record Life : Type 0 where
  pub task : Option Task
  pub stop_event : Bool

abbrev pub new_life : Life
new_life = record { task = none; stop_event = false }

-- `is_running`
abbrev pub is_running : Life → Bool
is_running l = elim l.task [ some running ↦ true | some (ended r) ↦ false | none ↦ false ]

-- What `asyncio.wait_for` on a task comes to: the end of the task, or a TimeoutError.
pub data Waited : Type 0 where
  in_time : Result (Unit {0}) → Waited
  late : Waited

-- `suppress(Exception)` around an await
abbrev pub suppress : Result (Unit {0}) → Result (Unit {0})
suppress (ok _) = ok tt
suppress (err e) = if is_exception e then ok tt else err e

-- What ends a sleep: its time is over, the stop event is set, or the task is cancelled.
pub data Wake : Type 0 where
  elapsed stop_set cancelled_asleep : Wake

-- `_sleep`, given whether the stop event is set when it begins: whether it is set when it returns.
abbrev pub sleep : Bool → Wake → Result Bool
sleep stop elapsed = ok stop
sleep stop stop_set = ok true
sleep stop cancelled_asleep = err cancelled

-- How `stop` waits for the task: `waited` for its timeout and, where that is over, for a task that
-- it has cancelled and that ends as `ending`.
abbrev pub await_end : Waited → Result (Unit {0}) → Result (Unit {0})
await_end (in_time r) ending = r
await_end late ending = suppress ending
