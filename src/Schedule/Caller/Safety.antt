-- ===== src/Schedule/Caller/Safety.antt =====
-- What holds in every state that a `ScheduledCaller` comes to.
use logger_cpp.Common.{ℕ, ◌+◌, ◌≤◌, ◌≡◌, Bool, true, false, not, ◌&&◌, ◌||◌, arith}
use logger_cpp.Schedule.{TimeInterval}
use logger_cpp.Schedule.Caller.{
  Worker, absent, due, ended, Client, joining, requesting, Caller, new_caller, worker_holds,
  client_holds, notify_all, WorkerStep, OtherStep, Step, Steps, by_worker, by_other, here, next,
}

abbrev pub is_absent : Worker → Bool
is_absent absent = true
is_absent _ = false

abbrev pub is_ended : Worker → Bool
is_ended ended = true
is_ended _ = false

-- Between `request_stop` and the return of `Stop`.
abbrev pub is_stopping : Client → Bool
is_stopping requesting = true
is_stopping joining = true
is_stopping _ = false

pub record IsCoherent (c : Caller) : Type 0 where
  -- `Is_running` says whether there is a thread, so that `Start` never puts one over another.
  pub running : c.is_running ≡ not (is_absent c.worker)
  -- The worker and `Call_immediately` are not in `_func` together.
  pub exclusive : (worker_holds c.worker && client_holds c.client) ≡ false
  pub requested : (is_stopping c.client && not (is_absent c.worker || c.stop_requested)) ≡ false
  pub stopped : (is_ended c.worker && not c.stop_requested) ≡ false

new_caller-IsCoherent : (i : TimeInterval) (now : ℕ) → IsCoherent (new_caller i now)
new_caller-IsCoherent i now = ground arith

WorkerStep-IsCoherent : {c d : Caller} → WorkerStep c d → IsCoherent c → IsCoherent d
WorkerStep-IsCoherent (WorkerStep.locks a b) h = ground arith
WorkerStep-IsCoherent (WorkerStep.computes t a) h = ground arith
WorkerStep-IsCoherent (WorkerStep.stops a b) h = ground arith
WorkerStep-IsCoherent (WorkerStep.goes_on a b) h = ground arith
WorkerStep-IsCoherent (WorkerStep.sleeps a) h = ground arith
WorkerStep-IsCoherent (WorkerStep.wakes a b) h = ground arith
WorkerStep-IsCoherent (WorkerStep.times_out a b e f) h = ground arith
WorkerStep-IsCoherent (WorkerStep.times_out_stopped a b e f) h = ground arith
WorkerStep-IsCoherent (WorkerStep.calls_func a) h = ground arith
WorkerStep-IsCoherent (WorkerStep.func_requests m a) h = ground arith
WorkerStep-IsCoherent (WorkerStep.func_stops a) h = ground arith
WorkerStep-IsCoherent (WorkerStep.returns a) h = ground arith

OtherStep-IsCoherent : {c d : Caller} → OtherStep c d → IsCoherent c → IsCoherent d
unfolding notify_all
OtherStep-IsCoherent (OtherStep.starts a b) h = ground arith
OtherStep-IsCoherent (OtherStep.starts_running a b) h = h
OtherStep-IsCoherent (OtherStep.requests_early m a) h = ground arith
OtherStep-IsCoherent (OtherStep.stops_after_call a) h = ground arith
OtherStep-IsCoherent (OtherStep.requests_stop a) h = ground arith
OtherStep-IsCoherent (OtherStep.notifies a) h = ground arith
OtherStep-IsCoherent (OtherStep.joins_nothing a b) h = ground arith
OtherStep-IsCoherent (OtherStep.joins a b) h = ground arith
OtherStep-IsCoherent (OtherStep.calls_immediately a) h = ground arith
OtherStep-IsCoherent (OtherStep.client_locks a b) h = ground arith
OtherStep-IsCoherent (OtherStep.client_returns a) h = ground arith
OtherStep-IsCoherent OtherStep.ticks h = ground arith
OtherStep-IsCoherent (OtherStep.wakes_early a) h = ground arith

Steps-keep-IsCoherent : {c d : Caller} → Steps c d → IsCoherent c → IsCoherent d
Steps-keep-IsCoherent here h = h
Steps-keep-IsCoherent (next p (by_worker st)) h =
    WorkerStep-IsCoherent st (Steps-keep-IsCoherent p h)
Steps-keep-IsCoherent (next p (by_other st)) h = OtherStep-IsCoherent st (Steps-keep-IsCoherent p h)

-- However the worker, the client, the clock and early wake-ups are interleaved: the worker and
-- `Call_immediately` are never in `_func` together, `Is_running` says whether there is a thread, a
-- thread that has returned was told to, and while `Stop` waits for a thread the thread was told to.
pub Steps-IsCoherent :
    (i : TimeInterval) (now : ℕ) {c : Caller} → Steps (new_caller i now) c → IsCoherent c
Steps-IsCoherent i now p = Steps-keep-IsCoherent p (new_caller-IsCoherent i now)

-- How often `Start` makes a thread.
abbrev pub is_start : {c d : Caller} → Step c d → Bool
is_start (by_worker st) = false
is_start (by_other (OtherStep.starts a b)) = true
is_start (by_other st) = false

abbrev pub has_start : {c d : Caller} → Steps c d → Bool
has_start here = false
has_start (next p st) = has_start p || is_start st

-- A call that the worker makes although a stop is requested.
abbrev pub pending : Worker → ℕ
pending due = 1
pending _ = 0

abbrev no_more : Caller → Bool
no_more c = is_absent c.worker || c.stop_requested

-- No thread, or one that was told to stop, stays so without `Start`, and makes no call but one for which it
-- has already ended its wait.
record Bounded (c d : Caller) : Type 0 where
  told : no_more d ≡ true
  few : d.calls + pending d.worker ≤ c.calls + pending c.worker

WorkerStep-Bounded : {c d : Caller} → WorkerStep c d → no_more c ≡ true → Bounded c d
WorkerStep-Bounded (WorkerStep.locks a b) h = ground arith
WorkerStep-Bounded (WorkerStep.computes t a) h = ground arith
WorkerStep-Bounded (WorkerStep.stops a b) h = ground arith
WorkerStep-Bounded (WorkerStep.goes_on a b) h = ground arith
WorkerStep-Bounded (WorkerStep.sleeps a) h = ground arith
WorkerStep-Bounded (WorkerStep.wakes a b) h = ground arith
WorkerStep-Bounded (WorkerStep.times_out a b e f) h = ground arith
WorkerStep-Bounded (WorkerStep.times_out_stopped a b e f) h = ground arith
WorkerStep-Bounded (WorkerStep.calls_func a) h = ground arith
WorkerStep-Bounded (WorkerStep.func_requests m a) h = ground arith
WorkerStep-Bounded (WorkerStep.func_stops a) h = ground arith
WorkerStep-Bounded (WorkerStep.returns a) h = ground arith

OtherStep-Bounded :
    {c d : Caller} (st : OtherStep c d)
    → is_start (by_other st) ≡ false
    → no_more c ≡ true
    → Bounded c d
unfolding notify_all
OtherStep-Bounded (OtherStep.starts a b) no_start h = cc
OtherStep-Bounded (OtherStep.starts_running a b) no_start h = ground arith
OtherStep-Bounded (OtherStep.requests_early m a) no_start h = ground arith
OtherStep-Bounded (OtherStep.stops_after_call a) no_start h = ground arith
OtherStep-Bounded (OtherStep.requests_stop a) no_start h = ground arith
OtherStep-Bounded (OtherStep.notifies a) no_start h = ground arith
OtherStep-Bounded (OtherStep.joins_nothing a b) no_start h = ground arith
OtherStep-Bounded (OtherStep.joins a b) no_start h = ground arith
OtherStep-Bounded (OtherStep.calls_immediately a) no_start h = ground arith
OtherStep-Bounded (OtherStep.client_locks a b) no_start h = ground arith
OtherStep-Bounded (OtherStep.client_returns a) no_start h = ground arith
OtherStep-Bounded OtherStep.ticks no_start h = ground arith
OtherStep-Bounded (OtherStep.wakes_early a) no_start h = ground arith

Step-Bounded : {c d : Caller} (st : Step c d) → is_start st ≡ false → no_more c ≡ true → Bounded c d
Step-Bounded (by_worker st) no_start h = WorkerStep-Bounded st h
Step-Bounded (by_other st) no_start h = OtherStep-Bounded st no_start h

Steps-Bounded :
    {c d : Caller} (p : Steps c d) → has_start p ≡ false → no_more c ≡ true → Bounded c d
Steps-Bounded here no_start h = ground arith
Steps-Bounded (next p st) no_start h =
    let before = Steps-Bounded p (ground arith) h in
    let last = Step-Bounded st (ground arith) before.told in
    record { told = last.told; few = omega (arith, before.few, last.few) }

-- From a state without a thread, or with a stop requested, and until a `Start` makes a thread: the
-- worker begins at most one call more, and none unless its wait had timed out before the stop.
pub calls_after_stop :
    {c d : Caller} (p : Steps c d)
    → has_start p ≡ false
    → (is_absent c.worker || c.stop_requested) ≡ true
    → d.calls ≤ c.calls + pending c.worker
calls_after_stop p no_start h = omega (arith, (Steps-Bounded p no_start h).few)
