-- ===== src/Logger/Maintenance.antt =====
-- The maintenance thread of `Logger` (Source/SharedLibraries/CommonTools/Logger.cpp): a round of it, and its
-- steps beside `Stop`.
pub mod Ending
use logger_cpp.Common.{Bool, true, false, List, [], ◌∷◌, ◌≡◌, if◌then◌else◌}
use logger_cpp.Target.{TargetClass, Outcome, returned, thrown, undefined}
use logger_cpp.Logger.{Address, Slot, State, update}

module _ {W T C : Type 0} (class : TargetClass W T C) where
  -- `target->Perform_maintenance()`.
  unfoldable pub perform_maintenance : Address → State W T → Outcome (State W T)
  perform_maintenance a s = elim (class.maintenance (s.heap a) s.world) [
    | returned (t, w) ↦ returned (record s { heap = update s.heap a t; world = w })
    | thrown what (t, w) ↦ thrown what (record s { heap = update s.heap a t; world = w })
    | undefined ↦ undefined
  ]

  -- The loop of a round. An exception leaves the loop, and the thread.
  unfoldable pub maintain_slots : List Slot → State W T → Outcome (State W T)
  unfolding perform_maintenance
  maintain_slots [] s = returned s
  maintain_slots (slot ∷ slots) s =
      if slot.should_perform_maintenance
      then elim (perform_maintenance slot.target s) [
        | returned s1 ↦ maintain_slots slots s1
        | thrown what s1 ↦ thrown what s1
        | undefined ↦ undefined
      ]
      else maintain_slots slots s

  unfoldable pub maintenance_round : State W T → Outcome (State W T)
  unfolding maintain_slots
  maintenance_round s = maintain_slots s.targets s

-- Where the maintenance thread stands. The methods of targets may log through the same logger.
pub data Maintainer : Type 0 where
  absent : Maintainer  -- `_maintenance_thread` is not joinable
  checking : Maintainer  -- head of the loop
  maintaining : Maintainer  -- inside `Perform_maintenance`
  waiting : Maintainer  -- in `Log_entry`, before the mutex
  logging : Maintainer  -- in `Log_entry`, with the mutex
  sleeping : Maintainer
  ended : Maintainer  -- the thread has returned

-- Where the thread stands that starts and stops the logger: `stopping` is in `Stop` with the mutex, and `joining`
-- in the wait for the maintenance thread, with the mutex too.
pub data Stopper : Type 0 where
  outside stopping joining : Stopper

pub record Threads : Type 0 where
  pub stop_requested : Bool
  pub maintainer : Maintainer
  pub stopper : Stopper

abbrev pub no_threads : Threads
no_threads = record { stop_requested = false; maintainer = absent; stopper = outside }

abbrev pub stopper_holds : Stopper → Bool
stopper_holds outside = false
stopper_holds _ = true

abbrev pub maintainer_holds : Maintainer → Bool
maintainer_holds logging = true
maintainer_holds _ = false

abbrev pub is_absent : Maintainer → Bool
is_absent absent = true
is_absent _ = false

pub data ThreadStep (c : Threads) : Threads → Type 0 where
  starts :
      c.stopper ≡ outside
      → c.maintainer ≡ absent
      → ThreadStep c (record c { stop_requested = false; maintainer = checking })
  goes_on :
      c.maintainer ≡ checking
      → c.stop_requested ≡ false
      → ThreadStep c (record c { maintainer = maintaining })
  ends :
      c.maintainer ≡ checking
      → c.stop_requested ≡ true
      → ThreadStep c (record c { maintainer = ended })
  logs : c.maintainer ≡ maintaining → ThreadStep c (record c { maintainer = waiting })
  acquires :
      c.maintainer ≡ waiting
      → stopper_holds c.stopper ≡ false
      → ThreadStep c (record c { maintainer = logging })
  logged : c.maintainer ≡ logging → ThreadStep c (record c { maintainer = maintaining })
  sleeps : c.maintainer ≡ maintaining → ThreadStep c (record c { maintainer = sleeping })
  wakes : c.maintainer ≡ sleeping → ThreadStep c (record c { maintainer = checking })
  stops :
      c.stopper ≡ outside
      → maintainer_holds c.maintainer ≡ false
      → ThreadStep c (record c { stopper = stopping })
  joins_nothing :
      c.stopper ≡ stopping → c.maintainer ≡ absent → ThreadStep c (record c { stopper = outside })
  requests_stop :
      c.stopper ≡ stopping
      → is_absent c.maintainer ≡ false
      → ThreadStep c (record c { stop_requested = true; stopper = joining })
  joins :
      c.stopper ≡ joining
      → c.maintainer ≡ ended
      → ThreadStep c (record c { maintainer = absent; stopper = outside })

pub data ThreadSteps : Threads → Threads → Type 0 where
  here : {c : Threads} → ThreadSteps c c
  step : {c d e : Threads} → ThreadStep c d → ThreadSteps d e → ThreadSteps c e
