-- ===== src/Schedule/Caller/Lost.antt =====
-- What the threads of a `ScheduledCaller` may miss.
use logger_cpp.Common.{ℕ, ◌+◌, ◌<◌, ◌≡◌, refl, true, false, Bool, some, none, arith}
use logger_cpp.Schedule.{Time, TimeInterval, set_time}
use logger_cpp.Schedule.Caller.{
  Worker, testing, deciding, waiting, woken, due, joining, Caller, new_caller, wait_time,
  notify_all, WorkerStep, OtherStep, Steps, by_worker, by_other, here, next,
}

-- The worker's steps in a wait whose end is still to come.
waiting-blocked :
    (c d : Caller) (deadline : ℕ)
    → c.worker ≡ waiting deadline
    → c.now < deadline
    → ¬ WorkerStep c d
waiting-blocked c d deadline w early st = blocked st w early
  where
    blocked :
        {c d : Caller}
        → WorkerStep c d
        → {deadline : ℕ} → c.worker ≡ waiting deadline
        → c.now < deadline
        → ⊥
    blocked (WorkerStep.locks a b) w early = ground arith
    blocked (WorkerStep.computes t a) w early = ground arith
    blocked (WorkerStep.stops a b) w early = ground arith
    blocked (WorkerStep.goes_on a b) w early = ground arith
    blocked (WorkerStep.sleeps a) w early = ground arith
    blocked (WorkerStep.wakes a b) w early = ground arith
    blocked (WorkerStep.times_out a b e f) w early = ground arith
    blocked (WorkerStep.times_out_stopped a b e f) w early = ground arith
    blocked (WorkerStep.calls_func a) w early = ground arith
    blocked (WorkerStep.func_requests m a) w early = ground arith
    blocked (WorkerStep.func_stops a) w early = ground arith
    blocked (WorkerStep.returns a) w early = ground arith

-- `Stop` asks and notifies while the worker is between its test and its wait.
abbrev missed : TimeInterval → ℕ → Time → Caller
missed i now time =
    let start = new_caller i now in
    record start {
      interval = set_time i time;
      is_running = true;
      stop_requested = true;
      worker = waiting (now + wait_time none (set_time i time));
      client = joining;
    }

-- A notification is lost: for every interval whose next time is not at hand there are steps by which `Stop`
-- has asked the thread to stop and has notified it, and now waits for it, while the worker is in a wait
-- of the full length in which it cannot make a step.
pub stop_unnoticed :
    (i : TimeInterval) (now : ℕ) (time : Time)
    → 0 < wait_time none (set_time i time)
    → (c : Caller) × Steps (new_caller i now) c
      × (c.client ≡ joining)
      × (c.stop_requested ≡ true)
      × (c.worker ≡ waiting (c.now + wait_time none (set_time i time)))
      × ((d : Caller) → ¬ WorkerStep c d)
unfolding notify_all
stop_unnoticed i now time h = (
  missed i now time,
  next
      (next
        (next
          (next
            (next
              (next (next here (by_other (OtherStep.starts refl refl)))
                (by_worker (WorkerStep.locks refl refl)))
              (by_worker (WorkerStep.computes time refl)))
            (by_worker (WorkerStep.goes_on refl refl)))
          (by_other (OtherStep.requests_stop refl)))
        (by_other (OtherStep.notifies refl)))
      (by_worker (WorkerStep.sleeps refl)),
  refl,
  refl,
  refl,
  λ d.
      waiting-blocked (missed i now time) d (now + wait_time none (set_time i time)) refl
        (omega arith),
)

-- The worker has read `_optional_call_time`, and has not yet called.
abbrev pub has_read : Worker → Bool
has_read (testing deadline) = true
has_read (deciding deadline) = true
has_read (waiting deadline) = true
has_read (woken deadline) = true
has_read due = true
has_read _ = false

abbrev pub requested : ℕ → Caller → Caller
requested milliseconds c = record c { optional_call_time = some milliseconds }
