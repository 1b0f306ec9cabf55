-- ===== src/Logger/Setup/Config.antt =====
-- `DispatchEntry` and `LoggerConfig` of Source/SharedLibraries/CommonTools/include/Logger.h, over a type of
-- target configurations.
use logger_cpp.Common.{Bool, List, Bytes}
use logger_cpp.Kinds.{LogKindSet}
use logger_cpp.Records.{LogLevel}

-- The targets are a `std::set` of names.
pub record DispatchEntry : Type 0 where
  pub level : LogLevel
  pub kinds : LogKindSet
  pub targets : List Bytes

pub record LoggerConfig (C : Type 0) : Type 0 where
  pub target_configs : List C
  pub dispatch_config : List DispatchEntry
  pub use_fallback : Bool
  pub asynchronous_mode : Bool
