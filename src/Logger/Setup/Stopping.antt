-- ===== src/Logger/Setup/Stopping.antt =====
-- `Logger::Stop` and `Logger::Reconfigure` write what is queued.
use logger_cpp.Common.{◌≡◌, refl, ap, sym, ◌∙◌, true, false, List, [], ◌++◌, map}
use logger_cpp.Records.{LogRecord}
use logger_cpp.Target.{TargetClass}
use logger_cpp.Logger.{State, Logger, set_logger, write_records}
use logger_cpp.Logger.Queue.{
  Event, logged, records_of, run, run-settled, run-write_records, queued, write_records-set_logger,
  process_logs-settled,
}
use logger_cpp.Logger.Setup.{stop}

module _ {W T C : Type 0} (class : TargetClass W T C) where
  -- The members when both threads have ended.
  abbrev joined : Logger → Logger
  joined l = record l { logging_thread = false; maintenance_thread = false }

  -- The logger in its other mode.
  abbrev pub synchronous : State W T → State W T
  synchronous s = set_logger s (record s.logger { asynchronous_mode = false })

  stop-write_records :
      (s : State W T)
      → stop class s
        ≡ set_logger
            (write_records class s.log_records s)
            (joined (queued [] s.logging_smph s.logger))
  unfolding stop
  stop-write_records s =
      write_records-set_logger class s.log_records (joined (queued [] s.logging_smph s.logger)) s
        (refl, refl)

  -- For every class of targets, every asynchronous logger with an empty queue and every interleaving of
  -- log entries with rounds of the logging thread, each with the mutex or without it: after `Stop` the
  -- targets and the world are those that the same logger in synchronous mode has after the same
  -- entries, and the queue is empty. No entry is lost, repeated or overtaken.
  pub stop-run :
      (s : State W T) (es : List Event)
      → s.asynchronous_mode ≡ true
      → s.log_records ≡ []
      → let drained = stop class (run class es s) in
        let direct = run class (map logged (records_of es)) (synchronous s) in
        (drained.heap ≡ direct.heap) × (drained.world ≡ direct.world) × (drained.log_records ≡ [])
  stop-run s es h e = (
    ap (λ (t : State W T). t.heap) agree,
    ap (λ (t : State W T). t.world) agree,
    ap (λ (t : State W T). t.log_records) (stop-write_records s'),
  )
    where
      s' : State W T
      s' = run class es s

      rs : List LogRecord
      rs = records_of es

      -- Two states apart from the members.
      outside : State W T → State W T
      outside t = set_logger t s.logger

      agree : outside (stop class s') ≡ outside (run class (map logged rs) (synchronous s))
      agree =
          ap outside (stop-write_records s')
          ∙ ap outside (sym (process_logs-settled class s'))
          ∙ ap outside (run-settled class es s h)
          ∙ ap (λ q. outside (write_records class (q ++ rs) s)) e
          ∙ ap outside (
              sym (
                write_records-set_logger class rs (record s.logger { asynchronous_mode = false }) s
                  (refl, refl)))
          ∙ ap outside (sym (run-write_records class rs (synchronous s) refl))
