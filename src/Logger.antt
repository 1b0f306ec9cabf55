-- ===== src/Logger.antt =====
-- The class `Logger` (Source/SharedLibraries/CommonTools/Logger.cpp and include/Logger.h), over the
-- interface of its targets. This file has the state and the way of a record to the targets;
-- `Logger/Setup` configures, starts and stops.
pub mod Routing
pub mod Writing
pub mod Queue
pub mod Setup
pub mod Maintenance
use logger_cpp.Common.{
  ℕ, ◌+◌, ◌-◌, Bool, true, false, not, ◌&&◌, ◌||◌, List, [], ◌∷◌, ◌++◌, Option, none, some, Bytes,
  codes, ◌==◌, leb, if◌then◌else◌,
}
use logger_cpp.Common.Sets.{insert_all, nat_order}
use logger_cpp.Kinds.{LogKindSet, kind_technical, of_kind, any, all, intersect}
use logger_cpp.Records.{
  LogLevel, level_value, level_warning, LogRecord, SourceLocation, TargetResult,
}
use logger_cpp.Schedule.{Time}
use logger_cpp.Target.{TargetClass, write_log}

-- Targets are shared objects: slots and routing rules hold addresses, and a `std::set` of pointers is
-- in the order of the addresses.
abbrev pub Address : Type 0
Address = ℕ

pub record DispatchKey : Type 0 where
  pub level : LogLevel
  pub kinds : LogKindSet
  pub targets : List Address

-- `MaintainedLogTarget`.
pub record Slot : Type 0 where
  pub target : Address
  pub should_perform_maintenance : Bool

-- The members of `Logger`; a thread is there if it is joinable, and the semaphore is its counter.
pub record Logger : Type 0 where
  pub fallback_target : Option Address
  pub use_fallback : Bool
  pub logging_thread : Bool
  pub logging_smph : ℕ
  pub asynchronous_mode : Bool
  pub maintenance_thread : Bool
  pub targets : List Slot
  pub dispatch_keys : List DispatchKey
  pub log_records : List LogRecord

-- A new logger.
abbrev pub new_logger : Logger
new_logger = record {
  fallback_target = none;
  use_fallback = true;
  logging_thread = false;
  logging_smph = 0;
  asynchronous_mode = true;
  maintenance_thread = false;
  targets = [];
  dispatch_keys = [];
  log_records = [];
}

-- A logger with the objects on the heap and the world outside.
pub record State (W T : Type 0) : Type 0 where
  pub logger : Logger
  pub open logger use *
  pub heap : Address → T
  pub allocated : List Address
  pub world : W

-- The filter in the first loop of `Write_log`.
unfoldable pub accepts : DispatchKey → LogRecord → Bool
accepts key r =
    (all key.kinds || (all r.kinds || any (intersect key.kinds r.kinds)))
    && leb (level_value key.level) (level_value r.level)

-- The loop that collects the targets of the rules that accept the record.
unfoldable pub collect : List DispatchKey → LogRecord → List Address → List Address
collect [] r targets = targets
collect (key ∷ keys) r targets =
    collect keys r (if accepts key r then insert_all key.targets targets else targets)

unfoldable pub route : List DispatchKey → LogRecord → List Address
unfolding collect
route keys r = collect keys r []

-- Changes to the members.
abbrev pub set_logger : {W T : Type 0} → State W T → Logger → State W T
set_logger s l = record s { logger = l }

abbrev pub update {ℓ} : {T : Type ℓ} → (Address → T) → Address → T → Address → T
update heap a t b = if a == b then t else heap b

abbrev pub is_some : {A : Type 0} → Option A → Bool
is_some none = false
is_some (some a) = true

module _ {W T C : Type 0} (class : TargetClass W T C) where
  -- `target->Write_log(record)`.
  unfoldable pub write_target : Address → LogRecord → State W T → TargetResult × State W T
  write_target a r s =
      let (res, t, w) = write_log class r (s.heap a) s.world in
      (res, record s { heap = update s.heap a t; world = w })

  abbrev pub write_failure_record : Bytes → Time → LogRecord
  write_failure_record reason now = record {
    level = level_warning;
    kinds = of_kind kind_technical;
    module_name = class.mss_module_name;
    source = class.current_source 689;
    source_entity = codes "logger";
    message = reason;
    timestamp = now;
  }

  -- What a failed write puts on the fallback target: why it failed, and then the record itself with the
  -- name of the target before its entity.
  unfoldable pub write_fallback :
      Address → Address → TargetResult → LogRecord → State W T → State W T
  write_fallback fallback a res r s =
      let (now, w) = class.clock_now s.world in
      let (_, s1) =
        write_target fallback (write_failure_record res.reason now) (record s { world = w }) in
      let entity = class.get_target_name (s1.heap a) ++ (codes "," ++ r.source_entity) in
      (write_target fallback (record r { source_entity = entity }) s1).1

  -- The body of the second loop of `Write_log`.
  unfoldable pub deliver : LogRecord → Address → State W T → State W T
  deliver r a s =
      let (res, s1) = write_target a r s in
      if res.success then s1 else elim s1.fallback_target [
        | none ↦ s1
        | some fallback ↦ write_fallback fallback a res r s1
      ]

  unfoldable pub deliver_all : LogRecord → List Address → State W T → State W T
  unfolding deliver write_target write_fallback
  deliver_all r [] s = s
  deliver_all r (a ∷ targets) s = deliver_all r targets (deliver r a s)

  unfoldable pub logger_write_log : LogRecord → State W T → State W T
  unfolding deliver_all route
  logger_write_log r s = deliver_all r (route s.dispatch_keys r) s

  -- The loop of `Process_logs`.
  unfoldable pub write_records : List LogRecord → State W T → State W T
  unfolding logger_write_log
  write_records [] s = s
  write_records (r ∷ rs) s = write_records rs (logger_write_log r s)

  -- `Process_logs`; `acquired` says whether `try_to_lock` gets the mutex.
  unfoldable pub process_logs : Bool → State W T → State W T
  unfolding write_records
  process_logs true s =
      write_records s.log_records (set_logger s (record s.logger { log_records = [] }))
  process_logs false s = s

  -- One round of `Logging_thread`: the wait for the semaphore, which ends by taking one from a positive
  -- counter or after two seconds, and then `Process_logs`.
  unfoldable pub logging_round : Bool → State W T → State W T
  unfolding process_logs
  logging_round acquired s =
      process_logs acquired (set_logger s (record s.logger { logging_smph = s.logging_smph - 1 }))

  -- `Log_entry` of a record. The mutex is released when it returns.
  unfoldable pub log_entry : LogRecord → State W T → State W T
  unfolding logger_write_log
  log_entry r s =
      if s.asynchronous_mode
      then set_logger s (record s.logger {
        log_records = s.log_records ++ (r ∷ []);
        logging_smph = s.logging_smph + 1;
      })
      else logger_write_log r s

  -- The overload that builds the record, with the time of the call.
  unfoldable pub log_entry_now :
      LogLevel → LogKindSet → Bytes → Bytes → SourceLocation → Bytes → State W T → State W T
  unfolding log_entry
  log_entry_now level kinds message module_name source entity s =
      let (now, w) = class.clock_now s.world in
      let r : LogRecord = record {
        level = level;
        kinds = kinds;
        module_name = module_name;
        source = source;
        source_entity = entity;
        message = message;
        timestamp = now;
      } in
      log_entry r (record s { world = w })
