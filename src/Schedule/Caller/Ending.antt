-- ===== src/Schedule/Caller/Ending.antt =====
-- `ScheduledCaller::Stop` comes back, and what may hold it up.
use logger_cpp.Common.{ℕ, zero, suc, ◌+◌, ◌≤◌, ◌≡◌, refl, true, false, none, arith}
use logger_cpp.Schedule.{TimeInterval, set_time}
use logger_cpp.Schedule.Caller.{
  Worker, absent, acquiring, computing, testing, deciding, waiting, woken, due, calling, ended,
  free, joining, Caller, new_caller, wait_time, notify_all, WorkerStep, OtherStep, Step, Steps,
  by_worker, by_other, here, next,
}
use logger_cpp.Schedule.Caller.Safety.{pending, IsCoherent, Steps-IsCoherent, is_start, has_start}

Steps-append : {c d e : Caller} → Steps c d → Steps d e → Steps c e
Steps-append p here = p
Steps-append p (next q st) = next (Steps-append p q) st

-- `Stop` has told a thread to end, and waits for it.
record IsJoining (c : Caller) : Type 0 where
  in_stop : c.client ≡ joining
  told : c.stop_requested ≡ true

-- What `Stop` leaves.
pub record Stopped (c d : Caller) : Type 0 where
  pub steps : Steps c d
  pub not_running : d.is_running ≡ false
  pub no_thread : d.worker ≡ absent
  pub returned : d.client ≡ free
  pub same_calls : d.calls ≡ c.calls + pending c.worker

-- One step of the worker brings it nearer.
before :
    {c d : Caller}
    → WorkerStep c d
    → d.calls + pending d.worker ≡ c.calls + pending c.worker
    → (e : Caller) × Stopped d e
    → (e : Caller) × Stopped c e
before {c} st same (e, s) = (
  e,
  record {
    steps = Steps-append (next here (by_worker st)) s.steps;
    not_running = s.not_running;
    no_thread = s.no_thread;
    returned = s.returned;
    same_calls = omega (arith, s.same_calls);
  },
)

from_ended : (c : Caller) → IsJoining c → c.worker ≡ ended → (d : Caller) × Stopped c d
from_ended c h e = (
  record c { is_running = false; worker = absent; client = free },
  record {
    steps = next here (by_other (OtherStep.joins h.in_stop e));
    not_running = refl;
    no_thread = refl;
    returned = refl;
    same_calls = ground arith;
  },
)

from_testing :
    (c : Caller) (deadline : ℕ)
    → IsJoining c
    → c.worker ≡ testing deadline
    → (d : Caller) × Stopped c d
from_testing c deadline h e =
    before (WorkerStep.stops e h.told) (ground arith)
      (from_ended (record c { worker = ended }) (ground arith) refl)

from_woken :
    (c : Caller) (deadline : ℕ)
    → IsJoining c
    → c.worker ≡ woken deadline
    → (d : Caller) × Stopped c d
from_woken c deadline h e =
    before (WorkerStep.wakes e (ground arith)) (ground arith)
      (from_testing (record c { worker = testing deadline }) deadline (ground arith) refl)

from_computing : (c : Caller) → IsJoining c → c.worker ≡ computing → (d : Caller) × Stopped c d
from_computing c h e =
    let interval = set_time c.interval 0 in
    let deadline = c.now + wait_time c.optional_call_time interval in
    before (WorkerStep.computes 0 e) (ground arith) (
      from_testing (record c { interval = interval; worker = testing deadline }) deadline
        (ground arith) refl)

from_acquiring : (c : Caller) → IsJoining c → c.worker ≡ acquiring → (d : Caller) × Stopped c d
from_acquiring c h e =
    before (WorkerStep.locks e (ground arith)) (ground arith)
      (from_computing (record c { worker = computing }) (ground arith) refl)

from_calling : (c : Caller) → IsJoining c → c.worker ≡ calling → (d : Caller) × Stopped c d
from_calling c h e =
    before (WorkerStep.returns e) (ground arith)
      (from_acquiring (record c { worker = acquiring }) (ground arith) refl)

from_due : (c : Caller) → IsJoining c → c.worker ≡ due → (d : Caller) × Stopped c d
from_due c h e = before (WorkerStep.calls_func e) (ground arith) (
    from_calling (record c { optional_call_time = none; worker = calling; calls = c.calls + 1 })
      (ground arith) refl)

-- The clock goes on for as long as the wait lasts.
from_waiting :
    (left : ℕ) (c : Caller) (deadline : ℕ)
    → deadline ≤ c.now + left
    → IsJoining c
    → c.worker ≡ waiting deadline
    → (d : Caller) × Stopped c d
from_waiting zero c deadline late h e =
    before (WorkerStep.times_out_stopped e (omega arith) (ground arith) h.told) (ground arith)
      (from_ended (record c { worker = ended }) (ground arith) refl)
from_waiting (suc left) c deadline late h e =
    let (d, s) =
      from_waiting left (record c { now = c.now + 1 }) deadline (omega arith) (ground arith) e in
    (
      d,
      record {
        steps = Steps-append (next here (by_other OtherStep.ticks)) s.steps;
        not_running = s.not_running;
        no_thread = s.no_thread;
        returned = s.returned;
        same_calls = s.same_calls;
      },
    )

from_deciding :
    (c : Caller) (deadline : ℕ)
    → IsJoining c
    → c.worker ≡ deciding deadline
    → (d : Caller) × Stopped c d
from_deciding c deadline h e = before (WorkerStep.sleeps e) (ground arith) (
    from_waiting deadline (record c { worker = waiting deadline }) deadline (omega arith)
      (ground arith) refl)

from_absent : (c : Caller) → c.client ≡ joining → c.worker ≡ absent → (d : Caller) × Stopped c d
from_absent c h e = (
  record c { is_running = false; client = free },
  record {
    steps = next here (by_other (OtherStep.joins_nothing h e));
    not_running = refl;
    no_thread = e;
    returned = refl;
    same_calls = ground arith;
  },
)

from_joining :
    (w : Worker) (c : Caller)
    → IsCoherent c
    → c.client ≡ joining
    → c.worker ≡ w
    → (d : Caller) × Stopped c d
from_joining absent c h j e = from_absent c j e
from_joining acquiring c h j e = from_acquiring c (ground arith) e
from_joining computing c h j e = from_computing c (ground arith) e
from_joining (testing deadline) c h j e = from_testing c deadline (ground arith) e
from_joining (deciding deadline) c h j e = from_deciding c deadline (ground arith) e
from_joining (waiting deadline) c h j e =
    from_waiting deadline c deadline (omega arith) (ground arith) e
from_joining (woken deadline) c h j e = from_woken c deadline (ground arith) e
from_joining due c h j e = from_due c (ground arith) e
from_joining calling c h j e = from_calling c (ground arith) e
from_joining ended c h j e = from_ended c (ground arith) e

-- No deadlock: in every state of a caller in which `Stop` waits for the thread, with `_func` returning
-- and the clock going on, there are steps to the return of `Stop`. Then the caller is not running and
-- has no thread, and the worker has made no call but one for which its wait had already timed out.
pub stop_returns :
    (i : TimeInterval) (now : ℕ) {c : Caller}
    → Steps (new_caller i now) c
    → c.client ≡ joining
    → (d : Caller) × Stopped c d
stop_returns i now {c} p j = from_joining c.worker c (Steps-IsCoherent i now p) j refl

-- How many steps the worker may still make once it is told to stop, those inside `_func` aside.
abbrev pub rank : Worker → ℕ
rank absent = 0
rank ended = 0
rank (testing deadline) = 1
rank computing = 2
rank (woken deadline) = 2
rank acquiring = 3
rank (waiting deadline) = 3
rank calling = 4
rank (deciding deadline) = 4
rank due = 5

abbrev own_step : {c d : Caller} → Step c d → ℕ
own_step (by_worker (WorkerStep.func_requests m a)) = 0
own_step (by_worker (WorkerStep.func_stops a)) = 0
own_step (by_worker st) = 1
own_step (by_other st) = 0

abbrev pub own_steps : {c d : Caller} → Steps c d → ℕ
own_steps here = 0
own_steps (next p st) = own_steps p + own_step st

record Nearer (c d : Caller) (n : ℕ) : Type 0 where
  told : d.stop_requested ≡ true
  nearer : rank d.worker + n ≤ rank c.worker

WorkerStep-Nearer :
    {c d : Caller} (st : WorkerStep c d)
    → c.stop_requested ≡ true
    → Nearer c d (own_step (by_worker st))
WorkerStep-Nearer (WorkerStep.locks a b) h = ground arith
WorkerStep-Nearer (WorkerStep.computes t a) h = ground arith
WorkerStep-Nearer (WorkerStep.stops a b) h = ground arith
WorkerStep-Nearer (WorkerStep.goes_on a b) h = ground arith
WorkerStep-Nearer (WorkerStep.sleeps a) h = ground arith
WorkerStep-Nearer (WorkerStep.wakes a b) h = ground arith
WorkerStep-Nearer (WorkerStep.times_out a b e f) h = ground arith
WorkerStep-Nearer (WorkerStep.times_out_stopped a b e f) h = ground arith
WorkerStep-Nearer (WorkerStep.calls_func a) h = ground arith
WorkerStep-Nearer (WorkerStep.func_requests m a) h = ground arith
WorkerStep-Nearer (WorkerStep.func_stops a) h = ground arith
WorkerStep-Nearer (WorkerStep.returns a) h = ground arith

OtherStep-Nearer :
    {c d : Caller} (st : OtherStep c d)
    → is_start (by_other st) ≡ false
    → c.stop_requested ≡ true
    → Nearer c d 0
unfolding notify_all
OtherStep-Nearer (OtherStep.starts a b) no_start h = cc
OtherStep-Nearer (OtherStep.starts_running a b) no_start h = ground arith
OtherStep-Nearer (OtherStep.requests_early m a) no_start h = ground arith
OtherStep-Nearer (OtherStep.stops_after_call a) no_start h = ground arith
OtherStep-Nearer (OtherStep.requests_stop a) no_start h = ground arith
OtherStep-Nearer (OtherStep.notifies a) no_start h = ground arith
OtherStep-Nearer (OtherStep.joins_nothing a b) no_start h = ground arith
OtherStep-Nearer (OtherStep.joins a b) no_start h = ground arith
OtherStep-Nearer (OtherStep.calls_immediately a) no_start h = ground arith
OtherStep-Nearer (OtherStep.client_locks a b) no_start h = ground arith
OtherStep-Nearer (OtherStep.client_returns a) no_start h = ground arith
OtherStep-Nearer OtherStep.ticks no_start h = ground arith
OtherStep-Nearer (OtherStep.wakes_early a) no_start h = ground arith

Step-Nearer :
    {c d : Caller} (st : Step c d)
    → is_start st ≡ false
    → c.stop_requested ≡ true
    → Nearer c d (own_step st)
Step-Nearer (by_worker st) no_start h = WorkerStep-Nearer st h
Step-Nearer (by_other st) no_start h = OtherStep-Nearer st no_start h

Steps-Nearer :
    {c d : Caller} (p : Steps c d)
    → has_start p ≡ false
    → c.stop_requested ≡ true
    → Nearer c d (own_steps p)
Steps-Nearer here no_start h = ground arith
Steps-Nearer (next p st) no_start h =
    let before = Steps-Nearer p (ground arith) h in
    let last = Step-Nearer st (ground arith) before.told in
    record { told = last.told; nearer = omega (arith, before.nearer, last.nearer) }

-- Once the thread is told to stop, and until a `Start` makes another: whatever the others do, the
-- worker makes at most as many steps as its place in the loop has left, never more than five, those
-- inside `_func` aside.
pub worker_ends :
    {c d : Caller} (p : Steps c d)
    → has_start p ≡ false
    → c.stop_requested ≡ true
    → (own_steps p + rank d.worker ≤ rank c.worker) × (rank c.worker ≤ 5)
worker_ends {c} p no_start h = (omega (arith, (Steps-Nearer p no_start h).nearer), rank_le c.worker)
  where
    rank_le : (w : Worker) → rank w ≤ 5
    rank_le absent = omega arith
    rank_le ended = omega arith
    rank_le (testing deadline) = omega arith
    rank_le computing = omega arith
    rank_le (woken deadline) = omega arith
    rank_le acquiring = omega arith
    rank_le (waiting deadline) = omega arith
    rank_le calling = omega arith
    rank_le (deciding deadline) = omega arith
    rank_le due = omega arith
