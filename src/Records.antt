-- ===== src/Records.antt =====
-- `LogLevel`, `LogRecord` and `TargetResult` (include/Logger.h and Logger.cpp of
-- Source/SharedLibraries/CommonTools).
use logger_cpp.Common.{ℕ, Bool, ◌&&◌, Bytes, codes, text_eq, ◌==◌}
use logger_cpp.Kinds.{LogKindSet, kinds_eq}
use logger_cpp.Schedule.{Time}

pub data LogLevel : Type 0 where
  level_debug level_info level_warning level_error level_critical level_fatal : LogLevel
  log_level_count : LogLevel

-- `static_cast<int>(level)`.
abbrev pub level_value : LogLevel → ℕ
level_value level_debug = 0
level_value level_info = 1
level_value level_warning = 2
level_value level_error = 3
level_value level_critical = 4
level_value level_fatal = 5
level_value log_level_count = 6

-- The spelling of the fifth name is the code's.
unfoldable pub log_level_to_string : LogLevel → Bytes
log_level_to_string level_debug = codes "DEBUG"
log_level_to_string level_info = codes "INFO"
log_level_to_string level_warning = codes "WARNING"
log_level_to_string level_error = codes "ERROR"
log_level_to_string level_critical = codes "CRTIICAL"
log_level_to_string level_fatal = codes "FATAL"
log_level_to_string log_level_count = codes "UNKNOWN"

-- What `std::source_location` gives: the text of the file name, the address at which that text stands,
-- and the line.
pub record SourceLocation : Type 0 where
  pub file_address : ℕ
  pub file_name : Bytes
  pub line : ℕ

pub record LogRecord : Type 0 where
  pub level : LogLevel
  pub kinds : LogKindSet
  pub module_name : Bytes
  pub source : SourceLocation
  pub source_entity : Bytes
  pub message : Bytes
  pub timestamp : Time

-- `operator==`. The file names are `const char*`, so their addresses are compared; the time is not.
unfoldable pub record_eq : LogRecord → LogRecord → Bool
record_eq lhs rhs =
    level_value lhs.level == level_value rhs.level
    && (kinds_eq lhs.kinds rhs.kinds
        && (text_eq lhs.module_name rhs.module_name
            && (lhs.source.file_address == rhs.source.file_address
                && (lhs.source.line == rhs.source.line
                    && (text_eq lhs.source_entity rhs.source_entity
                        && text_eq lhs.message rhs.message)))))

pub record TargetResult : Type 0 where
  pub success : Bool
  pub reason : Bytes
