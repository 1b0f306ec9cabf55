-- ===== src/Examples/Caller.antt =====
-- A caller with an interval of five minutes.
use logger_cpp.Common.{◌+◌, ◌*◌, ◌≤◌, ◌≡◌, refl, true, none, arith}
use logger_cpp.Common.Int.{◌+ℤ◌, ◌-ℤ◌}
use logger_cpp.Schedule.{
  TimeInterval, Time, new_interval, set_time, nanoseconds, milliseconds_until_next, next_timestamp,
  current_timestamp,
}
use logger_cpp.Schedule.Caller.{
  Worker, waiting, due, joining, Caller, new_caller, wait_time, notify_all, WorkerStep, OtherStep,
  Steps, by_worker, by_other, here, next,
}
use logger_cpp.Schedule.Caller.Safety.{IsCoherent, Steps-IsCoherent, calls_after_stop, pending}
use logger_cpp.Schedule.Caller.Ending.{Stopped, stop_returns, worker_ends, own_steps, rank}
use logger_cpp.Schedule.Caller.Lost.{stop_unnoticed}

abbrev five_minutes : TimeInterval
five_minutes = new_interval 300 0

abbrev noon : Time
noon = 43200 * nanoseconds

abbrev initial : Caller
initial = new_caller five_minutes 7

abbrev started : Caller
started = record initial { is_running = true; worker = Worker.acquiring }

abbrev starting : Steps initial started
starting = next here (by_other (OtherStep.starts refl refl))

abbrev stopping : Caller
stopping = record started { stop_requested = true; client = joining; worker = Worker.acquiring }

abbrev to_stopping : Steps initial stopping
unfolding notify_all
to_stopping =
    next (next starting (by_other (OtherStep.requests_stop refl)))
      (by_other (OtherStep.notifies refl))

Steps-IsCoherent_example : IsCoherent stopping
Steps-IsCoherent_example = Steps-IsCoherent five_minutes 7 to_stopping

-- The wait has timed out, and a stop comes before the call.
abbrev just_due : Caller
just_due = record stopping { worker = due }

abbrev last_call : Caller
last_call = record just_due { optional_call_time = none; worker = Worker.calling; calls = 1 }

abbrev calling_once : Steps just_due last_call
calling_once = next here (by_worker (WorkerStep.calls_func refl))

calls_after_stop_example : 1 ≤ just_due.calls + pending due
calls_after_stop_example = calls_after_stop calling_once refl refl

stop_returns_example : (d : Caller) × Stopped stopping d
stop_returns_example = stop_returns five_minutes 7 to_stopping refl

worker_ends_example :
    (own_steps calling_once + rank last_call.worker ≤ 5) × (rank just_due.worker ≤ 5)
worker_ends_example = worker_ends calling_once refl refl

five_minutes_to_wait : wait_time none (set_time five_minutes noon) ≡ 300000
unfolding wait_time set_time milliseconds_until_next next_timestamp current_timestamp ◌+ℤ◌ ◌-ℤ◌
five_minutes_to_wait = refl

stop_unnoticed_example :
    (c : Caller) × Steps initial c
    × (c.client ≡ joining)
    × (c.stop_requested ≡ true)
    × (c.worker ≡ waiting (c.now + wait_time none (set_time five_minutes noon)))
    × ((d : Caller) → ¬ WorkerStep c d)
stop_unnoticed_example = stop_unnoticed five_minutes 7 noon (rw five_minutes_to_wait (omega arith))
