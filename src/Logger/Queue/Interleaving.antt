-- ===== src/Logger/Queue/Interleaving.antt =====
-- `Process_logs` of the logging thread in the steps between which the other threads run: it takes the
-- queue with the mutex, and writes what it has taken without it.
use logger_cpp.Common.{◌≡◌, refl, ap, sym, ◌∙◌, true, false, List, [], ◌∷◌, ◌++◌, ◌+◌, ◌-◌}
use logger_cpp.Records.{LogRecord}
use logger_cpp.Target.{TargetClass}
use logger_cpp.Logger.{
  State, Logger, set_logger, logger_write_log, write_records, log_entry, logging_round,
  process_logs,
}
use logger_cpp.Logger.Queue.{
  Event, logged, processed, run, step, queued, log_entry-queued, write_records-set_logger,
  logger_write_log-logger, write_records-logger,
}

-- The logger, and the local variable `tmp_records` of the logging thread.
pub record Threads (W T : Type 0) : Type 0 where
  pub state : State W T
  pub tmp_records : List LogRecord

module _ {W T C : Type 0} (class : TargetClass W T C) where
  -- A step of one of the threads. `missed` is a round without the mutex, or with an empty queue.
  pub data ThreadStep : Threads W T → Threads W T → Type 0 where
    enters :
        (r : LogRecord) (s : State W T) (rs : List LogRecord)
        → ThreadStep
            (record { state = s; tmp_records = rs })
            (record { state = log_entry class r s; tmp_records = rs })
    swaps :
        (s : State W T)
        → ThreadStep
            (record { state = s; tmp_records = [] })
            (record {
              state = set_logger s (queued [] (s.logging_smph - 1) s.logger);
              tmp_records = s.log_records;
            })
    misses :
        (s : State W T)
        → ThreadStep
            (record { state = s; tmp_records = [] })
            (record {
              state = set_logger s (queued s.log_records (s.logging_smph - 1) s.logger);
              tmp_records = [];
            })
    writes :
        (r : LogRecord) (s : State W T) (rs : List LogRecord)
        → ThreadStep
            (record { state = s; tmp_records = r ∷ rs })
            (record { state = logger_write_log class r s; tmp_records = rs })

  pub data ThreadSteps (x : Threads W T) : Threads W T → Type 0 where
    start : ThreadSteps x x
    later : {y z : Threads W T} → ThreadSteps x y → ThreadStep y z → ThreadSteps x z

  -- The state when the logging thread has written what it has taken.
  abbrev pub finish : Threads W T → State W T
  finish x = write_records class x.tmp_records x.state

  -- The calls that the steps come to.
  abbrev events_of_step : {x y : Threads W T} → ThreadStep x y → List Event
  events_of_step (enters r s rs) = logged r ∷ []
  events_of_step (swaps s) = processed true ∷ []
  events_of_step (misses s) = processed false ∷ []
  events_of_step (writes r s rs) = []

  abbrev pub events_of : {x y : Threads W T} → ThreadSteps x y → List Event
  events_of start = []
  events_of (later p st) = events_of p ++ events_of_step st

  write_records-log_entry :
      (rs : List LogRecord) (r : LogRecord) (s : State W T)
      → s.asynchronous_mode ≡ true
      → write_records class rs (log_entry class r s) ≡ log_entry class r (write_records class rs s)
  write_records-log_entry rs r s h =
      let after : Logger → Logger =
        λ l. queued (l.log_records ++ (r ∷ [])) (l.logging_smph + 1) l in
      let same = write_records-logger class rs s in
      ap (write_records class rs) (log_entry-queued class r s h)
      ∙ write_records-set_logger class rs (after s.logger) s (refl, refl)
      ∙ ap (λ l. set_logger (write_records class rs s) (after l)) (sym same)
      ∙ sym (
          log_entry-queued class r (write_records class rs s)
            (ap (λ (l : Logger). l.asynchronous_mode) same ∙ h))

  run-append :
      (es fs : List Event) (s : State W T) → run class (es ++ fs) s ≡ run class fs (run class es s)
  unfolding run
  run-append [] fs s = refl
  run-append (e ∷ es) fs s = run-append es fs (step class e s)

  -- The mode stays as it is.
  ThreadStep-mode :
      {x y : Threads W T}
      → ThreadStep x y
      → x.state.asynchronous_mode ≡ true
      → y.state.asynchronous_mode ≡ true
  ThreadStep-mode (enters r s rs) h =
      ap (λ (t : State W T). t.asynchronous_mode) (log_entry-queued class r s h) ∙ h
  ThreadStep-mode (swaps s) h = h
  ThreadStep-mode (misses s) h = h
  ThreadStep-mode (writes r s rs) h =
      ap (λ (l : Logger). l.asynchronous_mode) (logger_write_log-logger class r s) ∙ h

  ThreadSteps-mode :
      {x y : Threads W T}
      → ThreadSteps x y
      → x.state.asynchronous_mode ≡ true
      → y.state.asynchronous_mode ≡ true
  ThreadSteps-mode start h = h
  ThreadSteps-mode (later p st) h = ThreadStep-mode st (ThreadSteps-mode p h)

  finish-step :
      {x y : Threads W T} (st : ThreadStep x y)
      → x.state.asynchronous_mode ≡ true
      → finish y ≡ run class (events_of_step st) (finish x)
  unfolding run logging_round process_logs write_records
  finish-step (enters r s rs) h = write_records-log_entry rs r s h
  finish-step (swaps s) h = refl
  finish-step (misses s) h = refl
  finish-step (writes r s rs) h = refl

  -- For every class of targets and every asynchronous logger: however the steps of the logging thread
  -- (the swap of the queue with the mutex, a missed round, each write without the mutex) are
  -- interleaved with entries of other threads, the state once the records taken are written is that
  -- after the same entries and rounds as whole calls, in the same order.
  pub finish-run :
      {x y : Threads W T} (p : ThreadSteps x y)
      → x.state.asynchronous_mode ≡ true
      → finish y ≡ run class (events_of p) (finish x)
  unfolding run
  finish-run start h = refl
  finish-run {x} (later p st) h =
      finish-step st (ThreadSteps-mode p h)
      ∙ ap (run class (events_of_step st)) (finish-run p h)
      ∙ sym (run-append (events_of p) (events_of_step st) (finish x))
