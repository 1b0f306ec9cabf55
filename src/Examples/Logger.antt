-- ===== src/Examples/Logger.antt =====
-- A logger with two working targets and a broken one.
use logger_cpp.Common.{
  ◌≡◌, refl, true, false, List, [], ◌∷◌, ◌-◌, map, some, codes, ◌==◌, if◌then◌else◌, arith, ◌↔◌,
}
use logger_cpp.Common.Sets.{In, IsRising, nat_order, insert, insert_all}
use logger_cpp.Kinds.{all, any, intersect, of_bits}
use logger_cpp.Records.{LogRecord, SourceLocation, level_info, level_warning, level_debug}
use logger_cpp.Logger.{
  Address, DispatchKey, State, Logger, new_logger, route, accepts, set_logger, log_entry,
  write_records,
}
use logger_cpp.Logger.Routing.{route_lem, WantedBy}
use logger_cpp.Logger.Queue.{Event, logged, processed, records_of, run, queued}
use logger_cpp.Logger.Queue.Interleaving.{
  Threads, ThreadSteps, enters, swaps, start, later, events_of, finish, finish-run,
}
use logger_cpp.Logger.Setup.{stop}
use logger_cpp.Logger.Setup.Stopping.{synchronous, stop-run}
use logger_cpp.Examples.Recorder.{Recorder, Tape, recorders, blank}

abbrev place : SourceLocation
place = record { file_address = 4; file_name = codes "main.cpp"; line = 12 }

abbrev event_record : LogRecord
event_record = record {
  level = level_info;
  kinds = of_bits 4;
  module_name = codes "app";
  source = place;
  source_entity = codes "links";
  message = codes "up";
  timestamp = 1000;
}

abbrev warning_record : LogRecord
warning_record = record event_record { level = level_warning; message = codes "slow" }

abbrev keys : List DispatchKey
keys =
    record { level = level_debug; kinds = of_bits 7; targets = 1 ∷ 3 ∷ [] }
    ∷ (record { level = level_info; kinds = of_bits 4; targets = 1 ∷ 2 ∷ [] }
        ∷ (record { level = level_info; kinds = of_bits 1; targets = 4 ∷ [] } ∷ []))

abbrev names : Address → Recorder
names a = record {
  name = if a == 2 then codes "broken" else if a == 9 then codes "spare" else codes "file";
}

abbrev members : Logger
members = record new_logger { dispatch_keys = keys; fallback_target = some 9 }

abbrev running : State Tape Recorder
running = record {
  logger = members;
  heap = names;
  allocated = 9 ∷ 4 ∷ 3 ∷ 2 ∷ 1 ∷ [];
  world = blank;
}

route_three : route keys event_record ≡ 1 ∷ 2 ∷ 3 ∷ []
unfolding route accepts insert insert_all all any intersect
route_three = refl

route_lem_example :
    ((a : Address) → In a (route keys event_record) ↔ WantedBy a event_record keys)
    × IsRising (route keys event_record)
route_lem_example = route_lem keys event_record (omega arith)

abbrev events : List Event
events = logged event_record ∷ processed true ∷ logged warning_record ∷ processed false ∷ []

stop-run_example :
    let drained = stop recorders (run recorders events running) in
    let direct = run recorders (map logged (records_of events)) (synchronous recorders running) in
    (drained.heap ≡ direct.heap) × (drained.world ≡ direct.world) × (drained.log_records ≡ [])
stop-run_example = stop-run recorders running events refl refl

-- A record comes in between the swap of the queue and the write.
abbrev overlapping :
    (y : Threads Tape Recorder) × ThreadSteps recorders
      (record { state = running; tmp_records = [] })
      y
overlapping =
    let s1 = log_entry recorders event_record running in
    let s2 = set_logger s1 (queued [] (s1.logging_smph - 1) s1.logger) in
    let s3 = log_entry recorders warning_record s2 in
    let p =
      later (later (later start (enters event_record running [])) (swaps s1))
        (enters warning_record s2 s1.log_records) in
    (record { state = s3; tmp_records = s1.log_records }, p)

finish-run_example :
    finish recorders overlapping.0 ≡ run recorders (events_of recorders overlapping.1) running
unfolding write_records
finish-run_example = finish-run recorders overlapping.1 refl
