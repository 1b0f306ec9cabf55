-- ===== src/Logger/Setup.antt =====
-- Configuration and life cycle of `Logger` (Source/SharedLibraries/CommonTools/Logger.cpp).
pub mod Config
pub mod Stopping
pub mod Rules
use logger_cpp.Common.{
  ℕ, ◌+◌, Bool, true, false, not, ◌&&◌, List, [], ◌∷◌, ◌++◌, map, Option, none, some, Bytes, codes,
  ◌==◌, text_eq, if◌then◌else◌,
}
use logger_cpp.Common.Sets.{insert, insert_all, nat_order, text_order}
use logger_cpp.Kinds.{LogKindSet, kind_technical, of_kind, kinds_eq, kinds_to_string}
use logger_cpp.Records.{
  LogLevel, level_value, level_error, level_info, LogRecord, log_level_to_string,
}
use logger_cpp.Schedule.{Time}
use logger_cpp.Target.{TargetClass, system_out_target}
use logger_cpp.Logger.{
  Address, DispatchKey, Slot, State, set_logger, update, write_target, process_logs,
}
use Config.{DispatchEntry, LoggerConfig}

-- The test of `find_if` over the routing rules.
abbrev pub same_key : DispatchKey → LogLevel → LogKindSet → Bool
same_key key level kinds = level_value key.level == level_value level && kinds_eq key.kinds kinds

-- The rule of an entry: looked up, or put at the end; then its targets go in, and a rule that is left
-- with none is erased.
keep_key : DispatchKey → List DispatchKey → List DispatchKey
keep_key key rest = elim key.targets [ [] ↦ rest | _ ↦ key ∷ rest ]

unfoldable pub merge_key :
    LogLevel → LogKindSet → List Address → List DispatchKey → List DispatchKey
unfolding keep_key
merge_key level kinds found [] =
    keep_key (record { level = level; kinds = kinds; targets = insert_all found [] }) []
merge_key level kinds found (key ∷ keys) =
    if same_key key level kinds
    then keep_key (record key { targets = insert_all found key.targets }) keys
    else key ∷ merge_key level kinds found keys

abbrev newline : Bytes
newline = 10 ∷ []

module _ {W T C : Type 0} (class : TargetClass W T C) where
  -- `make_shared`: a new object on the heap.
  unfoldable pub new_object : T → State W T → Address × State W T
  new_object t s =
      let a = class.allocate s.allocated in
      (a, record s { heap = update s.heap a t; allocated = a ∷ s.allocated })

  unfoldable pub initialize_fallback_target : State W T → State W T
  unfolding new_object
  initialize_fallback_target s =
      let s1 = set_logger s (record s.logger { use_fallback = true }) in
      let config = class.base_config (codes "MssFallbackStdOut") [] system_out_target in
      elim (class.new_target (class.config_type config)) [
        | none ↦ s1
        | some t ↦
            let (_, t', w) = class.setup (class.load_config config t) s1.world in
            let (a, s2) = new_object t' (record s1 { world = w }) in
            set_logger s2 (record s2.logger { fallback_target = some a })
      ]

  abbrev pub init_failure_record : Bytes → Time → LogRecord
  init_failure_record what now = record {
    level = level_error;
    kinds = of_kind kind_technical;
    module_name = class.mss_module_name;
    source = class.current_source 558;
    source_entity = codes "logger";
    message = what;
    timestamp = now;
  }

  abbrev init_failure_text : Bytes → Bytes → Bytes
  init_failure_text name what =
      codes "[ERROR] Logger failed to initialize target \""
      ++ (name ++ (codes "\" with error: " ++ (what ++ newline)))

  -- The handler of an exception of `Initialize`.
  unfoldable pub initialize_failed : Address → Bytes → State W T → State W T
  unfolding write_target initialize_fallback_target
  initialize_failed a what s =
      let s1 = record s {
        world = class.cerr (init_failure_text (class.get_target_name (s.heap a)) what) s.world;
      } in
      elim s1.fallback_target [
        | none ↦ initialize_fallback_target s1
        | some fallback ↦
            let s2 = set_logger s1 (record s1.logger { use_fallback = true }) in
            let (now, w) = class.clock_now s2.world in
            (write_target class fallback (init_failure_record what now) (record s2 { world = w })).1
      ]

  unfoldable pub initialize_slot : Slot → State W T → Slot × State W T
  unfolding initialize_failed
  initialize_slot slot s =
      let (thrown, t, w) = class.setup (s.heap slot.target) s.world in
      let s1 = record s { heap = update s.heap slot.target t; world = w } in
      elim thrown [
        | none ↦ (record slot { should_perform_maintenance = true }, s1)
        | some what ↦ (slot, initialize_failed slot.target what s1)
      ]

  unfoldable pub initialize_slots : List Slot → State W T → List Slot × State W T
  unfolding initialize_slot
  initialize_slots [] s = ([], s)
  initialize_slots (slot ∷ slots) s =
      let (slot', s1) = initialize_slot slot s in
      let (slots', s2) = initialize_slots slots s1 in (slot' ∷ slots', s2)

  abbrev needs_fallback : State W T → Bool
  needs_fallback s = s.use_fallback && elim s.fallback_target [ none ↦ true | some _ ↦ false ]

  unfoldable pub initialize : State W T → State W T
  unfolding initialize_slots
  initialize s =
      let s1 = if needs_fallback s then initialize_fallback_target s else s in
      let (slots, s2) = initialize_slots s1.targets s1 in
      set_logger s2 (record s2.logger { targets = slots })

  -- `Start`; the threads run from here on if they did not before.
  unfoldable pub start : State W T → State W T
  unfolding initialize
  start s =
      let s1 = initialize s in
      set_logger s1 (record s1.logger {
        logging_thread = if s1.asynchronous_mode then true else s1.logging_thread;
        maintenance_thread = true;
      })

  -- `Stop`, from the point where both threads have been joined.
  unfoldable pub stop : State W T → State W T
  unfolding process_logs
  stop s =
      process_logs class true
        (set_logger s (record s.logger { logging_thread = false; maintenance_thread = false }))

  -- The first loop of `Configure`.
  unfoldable pub create_target : C → State W T → State W T
  unfolding new_object
  create_target config s = elim (class.new_target (class.config_type config)) [
    | none ↦ s
    | some t ↦
        let (a, s1) = new_object (class.load_config config t) s in
        let slot : Slot = record { target = a; should_perform_maintenance = false } in
        set_logger s1 (record s1.logger { targets = s1.targets ++ (slot ∷ []) })
  ]

  unfoldable pub create_targets : List C → State W T → State W T
  unfolding create_target
  create_targets [] s = s
  create_targets (config ∷ configs) s = create_targets configs (create_target config s)

  -- `find_if` over the slots by the name of the target.
  unfoldable pub find_target : Bytes → (Address → T) → List Slot → Option Address
  find_target name heap [] = none
  find_target name heap (slot ∷ slots) =
      if text_eq (class.get_target_name (heap slot.target)) name
      then some slot.target
      else find_target name heap slots

  abbrev pub missing_target_text : Bytes → DispatchEntry → Bytes
  missing_target_text name entry =
      codes "[ERROR] \""
      ++ (name
          ++ (codes "\" could not be found, check dispatch keys with[level,kinds]=["
              ++ (log_level_to_string entry.level
                  ++ (codes "," ++ (kinds_to_string entry.kinds ++ (codes "]." ++ newline))))))

  -- The loop over the names of an entry: the addresses found, and a message for each name that is not.
  unfoldable pub resolve : DispatchEntry → List Bytes → State W T → List Address × State W T
  unfolding find_target
  resolve entry [] s = ([], s)
  resolve entry (name ∷ names) s = elim (find_target name s.heap s.targets) [
    | none ↦
        resolve entry names
          (record s { world = class.cerr (missing_target_text name entry) s.world })
    | some a ↦ let (found, s1) = resolve entry names s in (a ∷ found, s1)
  ]

  unfoldable pub configure_entry : DispatchEntry → State W T → State W T
  unfolding resolve merge_key
  configure_entry entry s =
      let (found, s1) = resolve entry entry.targets s in
      let keys = merge_key entry.level entry.kinds found s1.dispatch_keys in
      set_logger s1 (record s1.logger { dispatch_keys = keys })

  unfoldable pub configure_entries : List DispatchEntry → State W T → State W T
  unfolding configure_entry
  configure_entries [] s = s
  configure_entries (entry ∷ entries) s = configure_entries entries (configure_entry entry s)

  unfoldable pub configure : LoggerConfig C → State W T → State W T
  unfolding create_targets configure_entries
  configure config s =
      let s1 = set_logger s (record s.logger {
        use_fallback = config.use_fallback;
        asynchronous_mode = config.asynchronous_mode;
      }) in
      configure_entries config.dispatch_config (create_targets config.target_configs s1)

  -- `Add_target` of an object that is on the heap.
  unfoldable pub add_target : Address → State W T → State W T
  unfolding find_target
  add_target a s = elim (find_target (class.get_target_name (s.heap a)) s.heap s.targets) [
    | none ↦
        let slot : Slot = record { target = a; should_perform_maintenance = false } in
        set_logger s (record s.logger { targets = s.targets ++ (slot ∷ []) })
    | some _ ↦ s
  ]

  unfoldable pub target_names : List Address → State W T → List Bytes
  target_names targets s = insert_all (map (λ a. class.get_target_name (s.heap a)) targets) []

  unfoldable pub export_entry : State W T → DispatchKey → DispatchEntry
  unfolding target_names
  export_entry s key = record {
    level = key.level;
    kinds = key.kinds;
    targets = target_names key.targets s;
  }

  unfoldable pub get_config : State W T → LoggerConfig C
  unfolding export_entry
  get_config s = record {
    target_configs = map (λ slot. class.export_config (s.heap slot.target)) s.targets;
    dispatch_config = map (export_entry s) s.dispatch_keys;
    use_fallback = s.use_fallback;
    asynchronous_mode = s.asynchronous_mode;
  }

  -- The members that `Reconfigure` clears.
  abbrev pub clear : LoggerConfig C → State W T → State W T
  clear config s = set_logger s (record s.logger {
    targets = [];
    dispatch_keys = [];
    fallback_target = if config.use_fallback then s.fallback_target else none;
  })

  unfoldable pub reconfigure : LoggerConfig C → State W T → State W T
  unfolding stop start configure
  reconfigure config s =
      let s1 = start (configure config (clear config (stop s))) in
      record s1 {
        world =
            class.mss level_info (codes "logger")
              (codes "Logger configuration updated and reloaded") s1.world;
      }
