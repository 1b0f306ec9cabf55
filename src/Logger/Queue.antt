-- ===== src/Logger/Queue.antt =====
-- The queue of the asynchronous mode: `Log_entry` and `Process_logs` of `Logger` against writing at once.
pub mod Interleaving
use logger_cpp.Common.{
  ℕ, ◌+◌, ◌-◌, ◌≡◌, refl, ap, sym, ◌∙◌, Bool, true, false, List, [], ◌∷◌, ◌++◌, arith, map,
  append_assoc, append-nil, subst,
}
use logger_cpp.Records.{LogRecord}
use logger_cpp.Target.{TargetClass}
use logger_cpp.Logger.{
  Address, State, Logger, set_logger, write_target, write_fallback, deliver, deliver_all, route,
  logger_write_log, write_records, process_logs, log_entry, logging_round,
}

module _ {W T C : Type 0} (class : TargetClass W T C) where
  -- Writing leaves the members of the logger alone.
  pub deliver-logger :
      (r : LogRecord) (a : Address) (s : State W T) → (deliver class r a s).logger ≡ s.logger
  unfolding deliver write_target write_fallback
  deliver-logger r a s = ground arith

  deliver_all-logger :
      (r : LogRecord) (as' : List Address) (s : State W T)
      → (deliver_all class r as' s).logger ≡ s.logger
  unfolding deliver_all
  deliver_all-logger r [] s = refl
  deliver_all-logger r (a ∷ as') s =
      deliver_all-logger r as' (deliver class r a s) ∙ deliver-logger r a s

  pub logger_write_log-logger :
      (r : LogRecord) (s : State W T) → (logger_write_log class r s).logger ≡ s.logger
  unfolding logger_write_log
  logger_write_log-logger r s = deliver_all-logger r (route s.dispatch_keys r) s

  pub write_records-logger :
      (rs : List LogRecord) (s : State W T) → (write_records class rs s).logger ≡ s.logger
  unfolding write_records
  write_records-logger [] s = refl
  write_records-logger (r ∷ rs) s =
      write_records-logger rs (logger_write_log class r s) ∙ logger_write_log-logger r s

  -- It reads of them the routing rules and the fallback target.
  abbrev pub RoutesLike : Logger → Logger → Type 0
  RoutesLike l m = (l.dispatch_keys ≡ m.dispatch_keys) × (l.fallback_target ≡ m.fallback_target)

  deliver-set_logger :
      (r : LogRecord) (a : Address) (l : Logger) (s : State W T)
      → RoutesLike l s.logger
      → deliver class r a (set_logger s l) ≡ set_logger (deliver class r a s) l
  unfolding deliver write_target write_fallback
  deliver-set_logger r a l s h = ground arith

  deliver_all-set_logger :
      (r : LogRecord) (as' : List Address) (l : Logger) (s : State W T)
      → RoutesLike l s.logger
      → deliver_all class r as' (set_logger s l) ≡ set_logger (deliver_all class r as' s) l
  unfolding deliver_all
  deliver_all-set_logger r [] l s h = refl
  deliver_all-set_logger r (a ∷ as') l s h =
      ap (deliver_all class r as') (deliver-set_logger r a l s h)
      ∙ deliver_all-set_logger r as' l (deliver class r a s)
          (subst (RoutesLike l) (sym (deliver-logger r a s)) h)

  logger_write_log-set_logger :
      (r : LogRecord) (l : Logger) (s : State W T)
      → RoutesLike l s.logger
      → logger_write_log class r (set_logger s l) ≡ set_logger (logger_write_log class r s) l
  unfolding logger_write_log
  logger_write_log-set_logger r l s h =
      ap (λ keys. deliver_all class r (route keys r) (set_logger s l)) h.0
      ∙ deliver_all-set_logger r (route s.dispatch_keys r) l s h

  pub write_records-set_logger :
      (rs : List LogRecord) (l : Logger) (s : State W T)
      → RoutesLike l s.logger
      → write_records class rs (set_logger s l) ≡ set_logger (write_records class rs s) l
  unfolding write_records
  write_records-set_logger [] l s h = refl
  write_records-set_logger (r ∷ rs) l s h =
      ap (write_records class rs) (logger_write_log-set_logger r l s h)
      ∙ write_records-set_logger rs l (logger_write_log class r s)
          (subst (RoutesLike l) (sym (logger_write_log-logger r s)) h)

  pub write_records-append :
      (rs ts : List LogRecord) (s : State W T)
      → write_records class (rs ++ ts) s ≡ write_records class ts (write_records class rs s)
  unfolding write_records
  write_records-append [] ts s = refl
  write_records-append (r ∷ rs) ts s = write_records-append rs ts (logger_write_log class r s)

-- What happens to the logger while its thread runs: a record comes in, or the thread ends a wait and
-- makes its round, with the mutex or without it.
pub data Event : Type 0 where
  logged : LogRecord → Event
  processed : Bool → Event

-- The records of the events, in their order.
abbrev pub records_of : List Event → List LogRecord
records_of [] = []
records_of (logged r ∷ es) = r ∷ records_of es
records_of (processed acquired ∷ es) = records_of es

-- The counter of the semaphore after the events.
abbrev pub counter : List Event → ℕ → ℕ
counter [] n = n
counter (logged r ∷ es) n = counter es (n + 1)
counter (processed acquired ∷ es) n = counter es (n - 1)

-- The members with another queue and counter.
abbrev pub queued : List LogRecord → ℕ → Logger → Logger
queued rs n l = record l { log_records = rs; logging_smph = n }

module _ {W T C : Type 0} (class : TargetClass W T C) where
  abbrev pub step : Event → State W T → State W T
  step (logged r) s = log_entry class r s
  step (processed acquired) s = logging_round class acquired s

  pub run : List Event → State W T → State W T
  run [] s = s
  run (e ∷ es) s = run es (step e s)

  -- The records `rs` have been written; the queue is empty and the counter is `n`.
  abbrev pub settled : List LogRecord → ℕ → State W T → State W T
  settled rs n s = set_logger (write_records class rs s) (queued [] n s.logger)

  pub process_logs-settled :
      (s : State W T) → process_logs class true s ≡ settled s.log_records s.logging_smph s
  unfolding process_logs
  process_logs-settled s =
      write_records-set_logger class s.log_records (queued [] s.logging_smph s.logger) s
        (refl, refl)

  process_logs-missed : (s : State W T) → process_logs class false s ≡ s
  unfolding process_logs
  process_logs-missed s = refl

  logging_round-process_logs :
      (acquired : Bool) (s : State W T)
      → logging_round class acquired s
        ≡ process_logs class acquired
            (set_logger s (queued s.log_records (s.logging_smph - 1) s.logger))
  unfolding logging_round
  logging_round-process_logs true s = refl
  logging_round-process_logs false s = refl

  log_entry-queued :
      (r : LogRecord) (s : State W T)
      → s.asynchronous_mode ≡ true
      → log_entry class r s
        ≡ set_logger s (queued (s.log_records ++ (r ∷ [])) (s.logging_smph + 1) s.logger)
  unfolding log_entry
  log_entry-queued r s h = rw h

  settled-queued :
      (rs q : List LogRecord) (m n : ℕ) (s : State W T)
      → settled rs m (set_logger s (queued q n s.logger)) ≡ settled rs m s
  settled-queued rs q m n s =
      ap (λ t. set_logger t (queued [] m s.logger))
        (write_records-set_logger class rs (queued q n s.logger) s (refl, refl))

  settled-settled :
      (rs ts : List LogRecord) (m n : ℕ) (s : State W T)
      → settled ts m (settled rs n s) ≡ settled (rs ++ ts) m s
  settled-settled rs ts m n s =
      let same = sym (write_records-logger class rs s) in
      let routes : RoutesLike class (queued [] n s.logger) (write_records class rs s).logger =
        (ap (λ (l : Logger). l.dispatch_keys) same, ap (λ (l : Logger). l.fallback_target) same) in
      ap (λ t. set_logger t (queued [] m s.logger))
        (write_records-set_logger class ts (queued [] n s.logger) (write_records class rs s) routes
          ∙ ap (λ t. set_logger t (queued [] n s.logger))
              (sym (write_records-append class rs ts s)))

  -- All events, and then the queue processed once more with the mutex.
  pub run-settled :
      (es : List Event) (s : State W T)
      → s.asynchronous_mode ≡ true
      → process_logs class true (run es s)
        ≡ settled (s.log_records ++ records_of es) (counter es s.logging_smph) s
  unfolding run
  run-settled [] s h = rw append-nil (process_logs-settled s)
  run-settled (logged r ∷ es) s h =
      let q : List LogRecord = s.log_records ++ (r ∷ []) in
      let n : ℕ = s.logging_smph + 1 in
      ap (λ t. process_logs class true (run es t)) (log_entry-queued r s h)
      ∙ run-settled es (set_logger s (queued q n s.logger)) h
      ∙ settled-queued (q ++ records_of es) q (counter es n) n s
      ∙ rw append_assoc
  run-settled (processed true ∷ es) s h =
      let n : ℕ = s.logging_smph - 1 in
      ap (λ t. process_logs class true (run es t))
        (logging_round-process_logs true s
          ∙ process_logs-settled (set_logger s (queued s.log_records n s.logger))
          ∙ settled-queued s.log_records s.log_records n n s)
      ∙ run-settled es (settled s.log_records n s) h
      ∙ settled-settled s.log_records (records_of es) (counter es n) n s
  run-settled (processed false ∷ es) s h =
      let n : ℕ = s.logging_smph - 1 in
      let q = s.log_records in
      ap (λ t. process_logs class true (run es t))
        (logging_round-process_logs false s
          ∙ process_logs-missed (set_logger s (queued q n s.logger)))
      ∙ run-settled es (set_logger s (queued q n s.logger)) h
      ∙ settled-queued (q ++ records_of es) q (counter es n) n s

  log_entry_direct :
      (r : LogRecord) (s : State W T)
      → s.asynchronous_mode ≡ false
      → log_entry class r s ≡ logger_write_log class r s
  unfolding log_entry
  log_entry_direct r s h = ground arith

  -- Without the queue every record is written as it comes.
  pub run-write_records :
      (rs : List LogRecord) (s : State W T)
      → s.asynchronous_mode ≡ false
      → run (map logged rs) s ≡ write_records class rs s
  unfolding run write_records
  run-write_records [] s h = refl
  run-write_records (r ∷ rs) s h =
      ap (run (map logged rs)) (log_entry_direct r s h)
      ∙ run-write_records rs (logger_write_log class r s)
          (ap (λ (l : Logger). l.asynchronous_mode) (logger_write_log-logger class r s) ∙ h)
