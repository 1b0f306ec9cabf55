-- ===== src/Logger/Maintenance/Ending.antt =====
-- When `Logger::Stop` comes back from its wait for the maintenance thread.
use logger_cpp.Common.{Bool, true, false, not, ◌&&◌, ◌≡◌, ◌≢◌, refl, ◌↔◌, arith}
use logger_cpp.Logger.Maintenance.{
  Maintainer, absent, checking, maintaining, waiting, logging, sleeping, ended, Stopper, outside,
  joining, Threads, no_threads, is_absent, stopper_holds, maintainer_holds, ThreadStep, ThreadSteps,
  here, step,
}

abbrev is_joining : Stopper → Bool
is_joining joining = true
is_joining _ = false

record IsGuarded (c : Threads) : Type 0 where
  exclusive : (stopper_holds c.stopper && maintainer_holds c.maintainer) ≡ false
  told : (is_joining c.stopper && not c.stop_requested) ≡ false
  there : (is_joining c.stopper && is_absent c.maintainer) ≡ false

ThreadStep-IsGuarded : {c d : Threads} → ThreadStep c d → IsGuarded c → IsGuarded d
ThreadStep-IsGuarded (ThreadStep.starts a b) h = ground arith
ThreadStep-IsGuarded (ThreadStep.goes_on a b) h = ground arith
ThreadStep-IsGuarded (ThreadStep.ends a b) h = ground arith
ThreadStep-IsGuarded (ThreadStep.logs a) h = ground arith
ThreadStep-IsGuarded (ThreadStep.acquires a b) h = ground arith
ThreadStep-IsGuarded (ThreadStep.logged a) h = ground arith
ThreadStep-IsGuarded (ThreadStep.sleeps a) h = ground arith
ThreadStep-IsGuarded (ThreadStep.wakes a) h = ground arith
ThreadStep-IsGuarded (ThreadStep.stops a b) h = ground arith
ThreadStep-IsGuarded (ThreadStep.joins_nothing a b) h = ground arith
ThreadStep-IsGuarded (ThreadStep.requests_stop a b) h = ground arith
ThreadStep-IsGuarded (ThreadStep.joins a b) h = ground arith

ThreadSteps-IsGuarded : {c d : Threads} → ThreadSteps c d → IsGuarded c → IsGuarded d
ThreadSteps-IsGuarded here h = h
ThreadSteps-IsGuarded (step st p) h = ThreadSteps-IsGuarded p (ThreadStep-IsGuarded st h)

-- `Stop` with the mutex, and the maintenance thread before it.
blocked : {c d : Threads} → c.stopper ≡ joining → c.maintainer ≡ waiting → ThreadStep c d → ⊥
blocked s m (ThreadStep.starts a b) = ground arith
blocked s m (ThreadStep.goes_on a b) = ground arith
blocked s m (ThreadStep.ends a b) = ground arith
blocked s m (ThreadStep.logs a) = ground arith
blocked s m (ThreadStep.acquires a b) = ground arith
blocked s m (ThreadStep.logged a) = ground arith
blocked s m (ThreadStep.sleeps a) = ground arith
blocked s m (ThreadStep.wakes a) = ground arith
blocked s m (ThreadStep.stops a b) = ground arith
blocked s m (ThreadStep.joins_nothing a b) = ground arith
blocked s m (ThreadStep.requests_stop a b) = ground arith
blocked s m (ThreadStep.joins a b) = ground arith

-- `Stop` has come back, with no thread left.
pub record Returned (c d : Threads) : Type 0 where
  pub steps : ThreadSteps c d
  pub is_outside : d.stopper ≡ outside
  pub no_thread : d.maintainer ≡ absent

never : {c d : Threads} → c.stopper ≡ joining → c.maintainer ≡ waiting → Returned c d → ⊥
never s m r = from r.steps s m r.is_outside
  where
    from :
        {c d : Threads}
        → ThreadSteps c d
        → c.stopper ≡ joining
        → c.maintainer ≡ waiting
        → d.stopper ≡ outside
        → ⊥
    from here s m o = ground arith
    from (step st p) s m o = blocked s m st

before :
    {c d : Threads} → ThreadStep c d → (e : Threads) × Returned d e → (e : Threads) × Returned c e
before st (e, r) =
    (e, record { steps = step st r.steps; is_outside = r.is_outside; no_thread = r.no_thread })

from_ended :
    (c : Threads) → c.stopper ≡ joining → c.maintainer ≡ ended → (d : Threads) × Returned c d
from_ended c s m = (
  record c { maintainer = absent; stopper = outside },
  record { steps = step (ThreadStep.joins s m) here; is_outside = refl; no_thread = refl },
)

from_checking :
    (c : Threads)
    → c.stopper ≡ joining
    → c.stop_requested ≡ true
    → c.maintainer ≡ checking
    → (d : Threads) × Returned c d
from_checking c s t m =
    before (ThreadStep.ends m t) (from_ended (record c { maintainer = ended }) s refl)

from_sleeping :
    (c : Threads)
    → c.stopper ≡ joining
    → c.stop_requested ≡ true
    → c.maintainer ≡ sleeping
    → (d : Threads) × Returned c d
from_sleeping c s t m =
    before (ThreadStep.wakes m) (from_checking (record c { maintainer = checking }) s t refl)

from_maintaining :
    (c : Threads)
    → c.stopper ≡ joining
    → c.stop_requested ≡ true
    → c.maintainer ≡ maintaining
    → (d : Threads) × Returned c d
from_maintaining c s t m =
    before (ThreadStep.sleeps m) (from_sleeping (record c { maintainer = sleeping }) s t refl)

from_joining :
    (c : Threads)
    → IsGuarded c
    → c.stopper ≡ joining
    → c.stop_requested ≡ true
    → c.maintainer ≢ waiting
    → (m : Maintainer) → c.maintainer ≡ m
    → (d : Threads) × Returned c d
from_joining c h s t other absent e = absurd (ground arith)
from_joining c h s t other checking e = from_checking c s t e
from_joining c h s t other maintaining e = from_maintaining c s t e
from_joining c h s t other waiting e = absurd (other e)
from_joining c h s t other logging e = absurd (ground arith)
from_joining c h s t other sleeping e = from_sleeping c s t e
from_joining c h s t other ended e = from_ended c s e

-- For every state that the two threads come to and in which `Stop` waits for the maintenance thread: there are steps
-- to the return of `Stop`, with no thread left, exactly when the maintenance thread is not waiting for the mutex in
-- `Log_entry`. Where it is, `Stop` never returns, since it waits with the mutex.
pub stop_returns_iff :
    {c : Threads}
    → ThreadSteps no_threads c
    → c.stopper ≡ joining
    → ((d : Threads) × Returned c d) ↔ (c.maintainer ≢ waiting)
stop_returns_iff {c} p s =
    let h : IsGuarded c = ThreadSteps-IsGuarded p (ground arith) in
    (λ (d, r) m. never s m r, λ other. from_joining c h s (ground arith) other c.maintainer refl)
