-- ===== src/Target/File.antt =====
-- `FileTarget` (LogTargetFile.cpp and include/LogTargetFile.h of Source/SharedLibraries/CommonTools): its
-- members, its stream, and the names of its files. `Target/File/Rotation` sets it up and maintains it.
pub mod Config
pub mod Rotation
use logger_cpp.Common.{
  ℕ, Bool, true, false, ◌||◌, List, [], ◌∷◌, ◌++◌, Option, none, some, Bytes, codes, to_string,
  if◌then◌else◌, ◌==◌,
}
use logger_cpp.Schedule.{Time, TimeInterval}
use logger_cpp.Records.{LogRecord, TargetResult}
use logger_cpp.Format.{Replacement, replace_each, format_time, format_log_message}
use logger_cpp.Target.{write_log_with}
use logger_cpp.Target.Base.{Platform, TargetConfig, endl}

-- `std::ofstream`: the file that it has open, and its failbit.
pub record Stream : Type 0 where
  pub opened : Option Bytes
  pub failbit : Bool

abbrev pub is_open : Stream → Bool
is_open stream = elim stream.opened [ none ↦ false | some name ↦ true ]

-- The members that the configuration sets, which `FileTargetConfig` has too.
pub record FileSettings : Type 0 where
  pub filepath : Bytes
  pub filename : Bytes
  pub max_filesize_bytes : ℕ
  pub log_frequency : ℕ
  pub log_storage_duration : ℕ
  pub prefix : Bytes
  pub suffix : Bytes
  pub filename_format : Bytes

-- The worker that purges old files runs if there is one; a compiled pattern is its text.
pub record FileTarget : Type 0 where
  pub base : TargetConfig
  pub open base use *
  pub settings : FileSettings
  pub open settings use *
  pub current_filename : Bytes
  pub filename_update_interval : Option TimeInterval
  pub file : Stream
  pub current_log_regex : Bytes
  pub log_auto_cleanup_worker : Bool

abbrev special : ℕ → Bool
special c =
    c == b'.'
    || (c == b'^'
        || (c == b'$'
            || (c == b'*'
                || (c == b'?'
                    || (c == b'('
                        || (c == b')'
                            || (c == b'{'
                                || (c == b'}'
                                    || (c == b'['
                                        || (c == b']'
                                            || (c == b'\\' || (c == b'|' || c == b'-'))))))))))))

-- The loop that puts a backslash before the characters that mean something in a pattern.
unfoldable pub escape_pattern : Bytes → Bytes
escape_pattern [] = []
escape_pattern (c ∷ s) =
    let rest = escape_pattern s in if special c then b'\\' ∷ (c ∷ rest) else c ∷ rest

abbrev pub t_date_pattern : Bytes
t_date_pattern = codes "(\\d{4})\\-(\\d{2})\\-(\\d{2})"

-- The map of the second replacement in `Get_regex_pattern_for_log_files`.
abbrev pub volatile_replacements : List Replacement
volatile_replacements =
    (codes "%%pid", codes "(\\d+)")
    ∷ (codes "%%procname", codes "(.*)")
    ∷ (codes "%%datatime", t_date_pattern ++ codes "\\s(\\d{2}):(\\d{2}):(\\d{2})")
    ∷ (codes "%%date", t_date_pattern)
    ∷ (codes "%%year", codes "(\\d{4})")
    ∷ (codes "%%yr", codes "(\\d{2})")
    ∷ (codes "%%month", codes "(\\d{2})")
    ∷ (codes "%%monstr", codes "([A-Za-z]{3})")
    ∷ (codes "%%day", codes "(\\d{2})")
    ∷ (codes "%%time", codes "(\\d{2}):(\\d{2}).(\\d{3})\\d{4}")
    ∷ (codes "%%hour", codes "(\\d{2})")
    ∷ (codes "%%min", codes "(\\d{2})")
    ∷ (codes "%%sec", codes "(\\d{2})")
    ∷ (codes "%%ms", codes "(\\d{3})")
    ∷ []

-- `close` fails if nothing is open.
unfoldable pub close_stream : Stream → Stream
close_stream stream = elim stream.opened [
  | some _ ↦ record stream { opened = none }
  | none ↦ record stream { failbit = true }
]

module _ {W : Type 0} (platform : Platform W) where
  unfoldable pub non_volatile_replacements : FileTarget → List Replacement
  non_volatile_replacements t =
      (codes "%%path", t.filepath)
      ∷ (codes "%%prefix", t.prefix)
      ∷ (codes "%%filename", t.filename)
      ∷ (codes "%%title", platform.title)
      ∷ (codes "%%suffix", t.suffix)
      ∷ []

  unfoldable pub filename_replacements : FileTarget → List Replacement
  filename_replacements t =
      (codes "%%path", t.filepath)
      ∷ (codes "%%prefix", t.prefix)
      ∷ (codes "%%filename", t.filename)
      ∷ (codes "%%title", platform.title)
      ∷ (codes "%%suffix", t.suffix)
      ∷ (codes "%%pid", to_string platform.pid)
      ∷ (codes "%%procname", platform.process_name)
      ∷ []

  -- The name of the file for a time, as `Update_filename` puts it together.
  unfoldable pub formatted_filename : FileTarget → Time → Bytes
  formatted_filename t time =
      format_time platform.visit
        (replace_each (platform.visit (filename_replacements t)) t.filename_format) time

  -- The pattern of `Get_regex_pattern_for_log_files`.
  unfoldable pub regex_pattern : FileTarget → Bytes
  regex_pattern t = replace_each (platform.visit volatile_replacements) (
      escape_pattern
        (replace_each (platform.visit (non_volatile_replacements t)) t.filename_format))

  -- `open` of a stream that has a file open sets its failbit; one that succeeds clears it.
  unfoldable pub open_stream : Bytes → Stream → W → Stream × W
  open_stream name stream w = elim stream.opened [
    | some _ ↦ (record stream { failbit = true }, w)
    | none ↦
        let (opens, w1) = platform.open_file name w in
        (
          if opens
              then record { opened = some name; failbit = false }
              else record { opened = none; failbit = true },
          w1,
        )
  ]

  -- A stream in a failed state writes nothing.
  unfoldable pub put_stream : Bytes → Stream → W → W
  put_stream text stream w = elim stream.opened [
    | none ↦ w
    | some name ↦ if stream.failbit then w else platform.put name text w
  ]

  unfoldable pub reopen_file : FileTarget → W → Bool × FileTarget × W
  reopen_file t w =
      let (stream, w1) = open_stream t.current_filename (close_stream t.file) w in
      (is_open stream, record t { file = stream }, w1)

  abbrev pub open_failure : FileTarget → Bytes
  open_failure t = codes "Failed to open log file \"" ++ (t.current_filename ++ codes "\"")

  unfoldable pub try_write_file : LogRecord → FileTarget → W → TargetResult × FileTarget × W
  try_write_file r t w =
      let (opens, t1, w1) = if is_open t.file then (true, t, w) else reopen_file t w in
      if opens
      then (
        record { success = true; reason = [] },
        t1,
        put_stream (format_log_message platform.visit t1.format_string r ++ endl) t1.file w1,
      )
      else (record { success = false; reason = open_failure t1 }, t1, w1)

  -- `Write_log` of a file target; `Refresh` is `Reopen_file`.
  unfoldable pub write_file : LogRecord → FileTarget → W → TargetResult × FileTarget × W
  unfolding try_write_file reopen_file
  write_file = write_log_with (λ (t : FileTarget). t.target_name) try_write_file reopen_file
