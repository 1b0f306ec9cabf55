-- ===== src/Schedule/Caller.antt =====
-- The class `ScheduledCaller` (Source/SharedLibraries/CommonTools/ScheduleUtils.cpp and
-- include/ScheduleUtils.h): its worker thread and one client thread, a shared access at a time.
pub mod Safety
pub mod Ending
pub mod Lost
use logger_cpp.Common.{ℕ, ◌+◌, ◌≤◌, ◌≡◌, Bool, true, false, Option, none, some}
use logger_cpp.Common.Int.{ℤ, pos_part}
use logger_cpp.Schedule.{
  Time, TimeInterval, set_time, milliseconds_until_next, current_timestamp, next_timestamp,
}

-- Where the worker stands. `due` is the end of a wait that timed out with no stop requested, and
-- `calling` is inside `_func`.
pub data Worker : Type 0 where
  absent : Worker  -- `_thread` is not joinable
  acquiring : Worker  -- head of the loop, before the lock
  computing : Worker  -- holds the mutex, before the first test of `condition`
  testing : (deadline : ℕ) → Worker  -- holds the mutex, before a test of `condition`
  deciding : (deadline : ℕ) → Worker  -- holds the mutex, the test has failed
  waiting : (deadline : ℕ) → Worker  -- in the wait, without the mutex
  woken : (deadline : ℕ) → Worker  -- notified, without the mutex
  due : Worker
  calling : Worker
  ended : Worker  -- the thread has returned

-- Where the client stands: between calls, in `Stop`, or in `Call_immediately`.
pub data Client : Type 0 where
  free requesting joining locking client_calling : Client

-- `stop_requested` is the stop state of the current thread; the mutex is held by whom `Worker` and
-- `Client` say. `now` is the clock in milliseconds; `calls` counts the calls of `_func` by the worker.
pub record Caller : Type 0 where
  pub interval : TimeInterval
  pub optional_call_time : Option ℕ
  pub is_running : Bool
  pub stop_requested : Bool
  pub worker : Worker
  pub client : Client
  pub now : ℕ
  pub calls : ℕ

-- A new caller, and a copy of one: it has the interval of the other alone.
abbrev pub new_caller : TimeInterval → ℕ → Caller
new_caller interval now = record {
  interval = interval;
  optional_call_time = none;
  is_running = false;
  stop_requested = false;
  worker = absent;
  client = free;
  now = now;
  calls = 0;
}

abbrev pub worker_holds : Worker → Bool
worker_holds computing = true
worker_holds (testing deadline) = true
worker_holds (deciding deadline) = true
worker_holds due = true
worker_holds calling = true
worker_holds _ = false

abbrev pub client_holds : Client → Bool
client_holds client_calling = true
client_holds _ = false

-- The milliseconds that the worker waits for: those requested, or those until the next time of the
-- schedule. A wait of a negative time ends at once. Callers with an interval of 0, by which the source would
-- divide, are left out: 0 stands for their time.
unfoldable pub wait_time : Option ℕ → TimeInterval → ℕ
wait_time (some milliseconds) interval = milliseconds
wait_time none interval = elim (milliseconds_until_next interval) [
  | none ↦ 0
  | some milliseconds ↦ pos_part milliseconds
]

-- What the methods of the same names read off the interval.
unfoldable pub previous_scheduled_time : Caller → Option ℤ
previous_scheduled_time c = current_timestamp c.interval

unfoldable pub next_scheduled_time : Caller → Option ℤ
next_scheduled_time c = next_timestamp c.interval

unfoldable pub millis_until_next_call : Caller → Option ℤ
millis_until_next_call c = milliseconds_until_next c.interval

-- `notify_all`: a thread in the wait is woken, and none else.
unfoldable pub notify_all : Worker → Worker
notify_all (waiting deadline) = woken deadline
notify_all computing = computing
notify_all w = w

-- Steps of the worker, and of `_func` while the worker is in it.
pub data WorkerStep (c : Caller) : Caller → Type 0 where
  locks :
      c.worker ≡ acquiring
      → client_holds c.client ≡ false
      → WorkerStep c (record c { worker = computing })
  computes :
      (time : Time)
      → c.worker ≡ computing
      → WorkerStep c (record c {
        interval = set_time c.interval time;
        worker = testing (c.now + wait_time c.optional_call_time (set_time c.interval time));
      })
  stops :
      {deadline : ℕ}
      → c.worker ≡ testing deadline
      → c.stop_requested ≡ true
      → WorkerStep c (record c { worker = ended })
  goes_on :
      {deadline : ℕ}
      → c.worker ≡ testing deadline
      → c.stop_requested ≡ false
      → WorkerStep c (record c { worker = deciding deadline })
  sleeps :
      {deadline : ℕ}
      → c.worker ≡ deciding deadline
      → WorkerStep c (record c { worker = waiting deadline })
  wakes :
      {deadline : ℕ}
      → c.worker ≡ woken deadline
      → client_holds c.client ≡ false
      → WorkerStep c (record c { worker = testing deadline })
  times_out :
      {deadline : ℕ}
      → c.worker ≡ waiting deadline
      → deadline ≤ c.now
      → client_holds c.client ≡ false
      → c.stop_requested ≡ false
      → WorkerStep c (record c { worker = due })
  times_out_stopped :
      {deadline : ℕ}
      → c.worker ≡ waiting deadline
      → deadline ≤ c.now
      → client_holds c.client ≡ false
      → c.stop_requested ≡ true
      → WorkerStep c (record c { worker = ended })
  calls_func :
      c.worker ≡ due
      → WorkerStep c (record c { optional_call_time = none; worker = calling; calls = c.calls + 1 })
  func_requests :
      (milliseconds : ℕ)
      → c.worker ≡ calling
      → WorkerStep c (record c { optional_call_time = some milliseconds })
  func_stops : c.worker ≡ calling → WorkerStep c (record c { stop_requested = true })
  returns : c.worker ≡ calling → WorkerStep c (record c { worker = acquiring })

-- The stop state of a thread that is there.
abbrev stop_state : Worker → Bool → Bool
stop_state absent b = b
stop_state computing b = true
stop_state w b = true

-- Steps of the client, of the clock and of a wait that ends early for no reason.
pub data OtherStep (c : Caller) : Caller → Type 0 where
  starts :
      c.client ≡ free
      → c.is_running ≡ false
      → OtherStep c (record c { is_running = true; stop_requested = false; worker = acquiring })
  starts_running : c.client ≡ free → c.is_running ≡ true → OtherStep c c
  requests_early :
      (milliseconds : ℕ)
      → c.client ≡ free
      → OtherStep c (record c { optional_call_time = some milliseconds })
  stops_after_call :
      c.client ≡ free
      → OtherStep c (record c { stop_requested = stop_state c.worker c.stop_requested })
  requests_stop :
      c.client ≡ free
      → OtherStep c
          (record c { stop_requested = stop_state c.worker c.stop_requested; client = requesting })
  notifies :
      c.client ≡ requesting
      → OtherStep c (record c { worker = notify_all c.worker; client = joining })
  joins_nothing :
      c.client ≡ joining
      → c.worker ≡ absent
      → OtherStep c (record c { is_running = false; client = free })
  joins :
      c.client ≡ joining
      → c.worker ≡ ended
      → OtherStep c (record c { is_running = false; worker = absent; client = free })
  calls_immediately : c.client ≡ free → OtherStep c (record c { client = locking })
  client_locks :
      c.client ≡ locking
      → worker_holds c.worker ≡ false
      → OtherStep c (record c { client = client_calling })
  client_returns : c.client ≡ client_calling → OtherStep c (record c { client = free })
  ticks : OtherStep c (record c { now = c.now + 1 })
  wakes_early :
      {deadline : ℕ}
      → c.worker ≡ waiting deadline
      → OtherStep c (record c { worker = woken deadline })

pub data Step (c : Caller) : Caller → Type 0 where
  by_worker : {d : Caller} → WorkerStep c d → Step c d
  by_other : {d : Caller} → OtherStep c d → Step c d

pub data Steps (c : Caller) : Caller → Type 0 where
  here : Steps c c
  next : {d e : Caller} → Steps c d → Step d e → Steps c e
