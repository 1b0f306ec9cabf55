-- ===== src/Target/File/Rotation.antt =====
-- `Update_filename`, `Setup` and `Maintenance` of `FileTarget` (LogTargetFile.cpp of
-- Source/SharedLibraries/CommonTools). The macros that log inside them go through the logger, and so
-- are a part of the platform here.
pub mod Streams
pub mod Opening
pub mod Faults
pub mod Unscheduled
pub mod Line
use logger_cpp.Common.{
  ℕ, ◌*◌, ◌^◌, Bool, true, false, not, ◌&&◌, ◌||◌, [], ◌∷◌, ◌++◌, Option, none, some, Bytes, codes,
  to_string, if◌then◌else◌, ◌==◌, ltb,
}
use logger_cpp.Common.Int.{ℤ, pos, negsuc}
use logger_cpp.Kinds.{of_kind, kind_technical}
use logger_cpp.Schedule.{Time, TimeInterval, set_time, new_interval, next_timestamp}
use logger_cpp.Records.{LogRecord, level_debug, level_info, level_warning}
use logger_cpp.Target.{Outcome, returned, thrown, undefined}
use logger_cpp.Target.Base.{Platform}
use logger_cpp.Target.File.{
  FileTarget, is_open, formatted_filename, regex_pattern, open_stream, reopen_file, write_file,
}

abbrev pub min_log_filesize : ℕ
min_log_filesize = 10 * 1024 * 1024

-- A time point against a time in seconds.
abbrev pub passed : ℤ → Time → Bool
passed (pos seconds) now = ltb (seconds * 10 ^ 9) now
passed (negsuc seconds) now = true

-- The first test of `Maintenance`; `none` if the interval is not there.
unfoldable pub is_due : FileTarget → Time → Option Bool
is_due t now = if t.log_frequency == 0 then some false else elim t.filename_update_interval [
  | none ↦ none
  | some interval ↦ elim (next_timestamp interval) [
    | none ↦ none
    | some next ↦ some (passed next now)
  ]
]

module _ {W : Type 0} (platform : Platform W) where
  abbrev transfer_record : Bytes → Time → LogRecord
  transfer_record name now = record {
    level = level_debug;
    kinds = of_kind kind_technical;
    module_name = platform.mss_module_name;
    source = platform.current_source 130;
    source_entity = [];
    message = codes "Transferring to new log file " ++ name;
    timestamp = now;
  }

  -- The last line in the old file.
  unfoldable pub announce : Bytes → FileTarget → W → FileTarget × W
  announce name t w = elim t.current_filename [
    | [] ↦ (t, w)
    | _ ↦
        let (now, w1) = platform.clock_now w in
        let (_, t1, w2) = write_file platform (transfer_record name now) t w1 in (t1, w2)
  ]

  -- The interval starts anew from now.
  unfoldable pub restart_interval : FileTarget → W → FileTarget × W
  restart_interval t w = elim t.filename_update_interval [
    | none ↦ (t, w)
    | some interval ↦
        let (now, w1) = platform.clock_now w in
        (record t { filename_update_interval = some (set_time interval now) }, w1)
  ]

  unfoldable pub make_directories : Bytes → W → Option Bytes × W
  make_directories [] w = (none, w)
  make_directories (c ∷ name) w = platform.create_directories (c ∷ name) w

  -- The end of `Update_filename`, from the pattern on.
  unfoldable pub take_filename : Bytes → FileTarget → W → Outcome (FileTarget × W)
  take_filename name t w =
      let pattern = regex_pattern platform t in
      let w1 =
        platform.mss level_debug (codes "file_target") (codes "Log regex pattern: " ++ pattern) w in
      elim (platform.regex_error pattern) [
        | some what ↦ thrown what (t, w1)
        | none ↦ returned (
            restart_interval (record t { current_log_regex = pattern; current_filename = name }) w1)
      ]

  unfoldable pub update_filename : Time → FileTarget → W → Outcome (FileTarget × W)
  update_filename time t w =
      let name = formatted_filename platform t time in
      let (t1, w1) = announce name t w in
      let (error, w2) = make_directories name w1 in
      elim error [
        | some what ↦ thrown (codes "Failed to create directories for log file: " ++ what) (t1, w2)
        | none ↦ take_filename name t1 w2
      ]

  abbrev small_size_text : ℕ → Bytes
  small_size_text size =
      codes "Configured max_filesize_bytes for logger "
      ++ (to_string size
          ++ (codes " bytes is less than minimum acceptable size of "
              ++ (to_string min_log_filesize ++ codes " bytes. Setting to minimum value.")))

  -- The check of the size at the start of `Setup`.
  unfoldable pub check_filesize : FileTarget → W → FileTarget × W
  check_filesize t w =
      if not (t.max_filesize_bytes == 0) && ltb t.max_filesize_bytes min_log_filesize
      then (
        record t { settings = record t.settings { max_filesize_bytes = min_log_filesize } },
        platform.mss level_warning (codes "logger") (small_size_text t.max_filesize_bytes) w,
      )
      else (t, w)

  abbrev cleanup_disabled_text : Bytes
  cleanup_disabled_text =
      codes
        "Log auto cleanup is disabled. Enable by setting log_storage_duration to a non-zero value for "
      ++ codes "FileTargetConfig in the configuration file"

  -- The end of `Setup`: the interval of the names and the worker. Both intervals read the clock.
  unfoldable pub start_cleanup : FileTarget → W → FileTarget × W
  start_cleanup t w =
      let (now, w1) = platform.clock_now w in
      let (_, w2) = platform.clock_now w1 in
      if not (t.log_storage_duration == 0)
      then (
        record t {
          filename_update_interval = some (new_interval (t.log_frequency * 3600) now);
          log_auto_cleanup_worker = true;
        },
        w2,
      )
      else (t, platform.mss level_info (codes "logger") cleanup_disabled_text w)

  abbrev warn_unless : Bool → Bytes → Bytes → W → W
  warn_unless ok text name w =
      if ok then w else platform.mss level_warning (codes "logger") (text ++ name) w

  -- `Setup` after the name is known.
  unfoldable pub open_first : FileTarget → W → FileTarget × W
  open_first t w =
      let (stream, w1) = open_stream platform t.current_filename t.file w in
      start_cleanup (record t { file = stream })
        (warn_unless (is_open stream) (codes "Unable to open file ") t.current_filename w1)

  unfoldable pub setup_file : FileTarget → W → Outcome (FileTarget × W)
  setup_file t w =
      let (t1, w1) = check_filesize t w in
      let (now, w2) = platform.clock_now w1 in
      elim (update_filename now t1 w2) [
        | returned (t3, w3) ↦ returned (open_first t3 w3)
        | thrown what s ↦ thrown what s
        | undefined ↦ undefined
      ]

  -- The second test.
  unfoldable pub is_oversize : FileTarget → W → Bool
  is_oversize t w =
      not (t.max_filesize_bytes == 0)
      && (platform.exists t.current_filename w
          && ltb t.max_filesize_bytes (platform.file_size t.current_filename w))

  unfoldable pub reopen_renamed : FileTarget → W → FileTarget × W
  reopen_renamed t w =
      let (opens, t1, w1) = reopen_file platform t w in
      (t1, warn_unless opens (codes "Unable to reopen file ") t1.current_filename w1)

  unfoldable pub rotate : FileTarget → W → Outcome (FileTarget × W)
  rotate t w =
      let (now, w1) = platform.clock_now w in
      elim (update_filename now t w1) [
        | returned (t2, w2) ↦ returned (reopen_renamed t2 w2)
        | thrown what s ↦ thrown what s
        | undefined ↦ undefined
      ]

  -- The clock is read only if there is a frequency.
  abbrev pub read_clock : FileTarget → W → Time × W
  read_clock t w = if t.log_frequency == 0 then (0, w) else platform.clock_now w

  unfoldable pub maintain_file : FileTarget → W → Outcome (FileTarget × W)
  maintain_file t w =
      let (now, w1) = read_clock t w in
      elim (is_due t now) [
        | none ↦ undefined
        | some due ↦ if due || is_oversize t w1 then rotate t w1 else returned (t, w1)
      ]
