-- ===== src/Examples/Maintenance.antt =====
-- `Logger::Stop` while a target that is maintained logs.
use logger_cpp.Common.{◌≢◌, refl, true, ◌↔◌}
use logger_cpp.Logger.Maintenance.{
  Maintainer, Stopper, Threads, no_threads, ThreadStep, ThreadSteps, here, step,
}
use logger_cpp.Logger.Maintenance.Ending.{Returned, stop_returns_iff}

abbrev stuck : Threads
stuck = record { stop_requested = true; maintainer = Maintainer.waiting; stopper = Stopper.joining }

to_stuck : ThreadSteps no_threads stuck
to_stuck = step (ThreadStep.starts refl refl) (
    step (ThreadStep.goes_on refl refl) (
      step (ThreadStep.stops refl refl)
        (step (ThreadStep.logs refl) (step (ThreadStep.requests_stop refl refl) here))))

stop_returns_iff_example :
    ((d : Threads) × Returned stuck d) ↔ (Maintainer.waiting ≢ Maintainer.waiting)
stop_returns_iff_example = stop_returns_iff to_stuck refl
