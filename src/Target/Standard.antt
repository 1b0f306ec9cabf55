-- ===== src/Target/Standard.antt =====
-- `StandardOutputTarget` and `StandardErrorTarget` (LogTargetStandardOutput.cpp and
-- LogTargetStandardError.cpp of Source/SharedLibraries/CommonTools).
use logger_cpp.Common.{ℕ, ◌≡◌, true, [], ◌∷◌, ◌++◌, Option, none, some, Bool, Bytes, codes}
use logger_cpp.StringHelpers.{replace_all}
use logger_cpp.StringHelpers.ReplaceAll.{Replaced}
use logger_cpp.Records.{
  LogLevel, level_debug, level_info, level_warning, level_error, level_critical, level_fatal,
  log_level_count, LogRecord, TargetResult,
}
use logger_cpp.Format.{format_log_message}
use logger_cpp.Target.Base.{Platform, TargetConfig, endl}

-- `\x1b[` and the number of a colour.
abbrev escape : Bytes → Bytes
escape number = 27 ∷ (b'[' ∷ (number ++ codes "m"))

abbrev pub colored_level : Bytes → Bytes
colored_level number = escape number ++ (codes "%%level" ++ escape (codes "0"))

unfoldable pub color_of : LogLevel → Option Bytes
color_of level_debug = some (codes "36")
color_of level_info = some (codes "32")
color_of level_warning = some (codes "33")
color_of level_error = some (codes "31")
color_of level_critical = some (codes "35")
color_of level_fatal = some (codes "34")
color_of log_level_count = none

abbrev text_of_result : Bytes → Option (Bytes × ℕ) → Bytes
text_of_result s none = s
text_of_result s (some (t, count)) = t

-- `Modify_format_on_the_fly` of the standard output; `replace_all` of a text that is not empty ends.
unfoldable pub modify_format_on_the_fly : Bytes → LogRecord → Bytes
unfolding color_of
modify_format_on_the_fly format r = elim (color_of r.level) [
  | none ↦ format
  | some number ↦
      text_of_result format (replace_all format (codes "%%level") (colored_level number))
]

module _ {W : Type 0} (platform : Platform W) where
  abbrev written : TargetResult
  written = record { success = true; reason = [] }

  unfoldable pub try_write_output : LogRecord → TargetConfig → W → TargetResult × TargetConfig × W
  try_write_output r t w =
      let format = modify_format_on_the_fly t.format_string r in
      (written, t, platform.cout (format_log_message platform.visit format r ++ endl) w)

  unfoldable pub try_write_error : LogRecord → TargetConfig → W → TargetResult × TargetConfig × W
  try_write_error r t w =
      (written, t, platform.cerr (format_log_message platform.visit t.format_string r ++ endl) w)

  -- `Refresh` of both.
  abbrev pub refresh_standard : TargetConfig → W → Bool × TargetConfig × W
  refresh_standard t w = (true, t, w)

-- The format `out` is `format` with a colour, if there is one, around each `%%level`.
abbrev pub IsColored : Option Bytes → Bytes → Bytes → Type 0
IsColored none format out = out ≡ format
IsColored (some number) format out =
    (n : ℕ) × Replaced (codes "%%level") (colored_level number) format out n
