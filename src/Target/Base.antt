-- ===== src/Target/Base.antt =====
-- The members that every target has, `TargetConfig` with `Load_config` and `Export_config` (Logger.cpp and
-- include/Logger.h of Source/SharedLibraries/CommonTools), and the platform under the targets.
use logger_cpp.Common.{ℕ, Bool, List, [], ◌∷◌, Option, Bytes, codes, if◌then◌else◌, length, ltb}
use logger_cpp.Schedule.{Time}
use logger_cpp.Records.{LogLevel, SourceLocation}
use logger_cpp.Format.{Replacement}
use logger_cpp.Target.{TargetType}

-- What the targets use of the platform, over the world `W`. A stream that `open_file` opens is at the end of the
-- named file; `put` writes at its end and flushes. The texts of errors are those of the library.
pub record Platform (W : Type 0) : Type 0 where
  -- The order in which the iteration over an unordered map goes through its pairs.
  pub visit : List Replacement → List Replacement
  pub clock_now : W → Time × W
  pub cout : Bytes → W → W
  pub cerr : Bytes → W → W
  pub open_file : Bytes → W → Bool × W
  pub put : Bytes → Bytes → W → W
  pub exists : Bytes → W → Bool
  pub file_size : Bytes → W → ℕ
  -- `create_directories` of the parent path of a file.
  pub create_directories : Bytes → W → Option Bytes × W
  -- What the construction of a `std::regex` throws, if it does.
  pub regex_error : Bytes → Option Bytes
  pub mss : LogLevel → Bytes → Bytes → W → W
  pub title : Bytes
  pub process_name : Bytes
  pub pid : ℕ
  pub trace_path : Bytes
  pub mss_module_name : Bytes
  pub current_source : ℕ → SourceLocation

-- `std::endl`.
abbrev pub endl : Bytes
endl = 10 ∷ []

-- `TargetConfig`, and the members of `Target` with the same names.
pub record TargetConfig : Type 0 where
  pub target_name : Bytes
  pub format_string : Bytes
  pub target_type : TargetType

abbrev pub default_format : Bytes
default_format =
    codes
      "%%monstr %%day %%hour:%%min:%%sec.%%ms [%%source:%%line] [%%level:%%kinds] [%%module:%%entity] %%log"

-- The text, or a default for the empty one.
unfoldable pub text_or : Bytes → Bytes → Bytes
text_or s default = if ltb 0 (length s) then s else default

abbrev pub new_config : Bytes → Bytes → TargetType → TargetConfig
new_config name format type = record {
  target_name = name;
  format_string = text_or format default_format;
  target_type = type;
}

-- `Target::Load_config`, on the members of the target.
unfoldable pub load_base : TargetConfig → TargetConfig → TargetConfig
load_base config t = record {
  target_name = config.target_name;
  format_string = text_or config.format_string t.format_string;
  target_type = config.target_type;
}

unfoldable pub export_base : TargetConfig → TargetConfig
export_base t = new_config t.target_name t.format_string t.target_type
