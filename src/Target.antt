-- ===== src/Target.antt =====
-- The class `Target` of Source/SharedLibraries/CommonTools/include/Logger.h as the logger sees it: its
-- virtual methods as an interface over a type of targets, and its own method `Write_log` (Logger.cpp).
pub mod Base
pub mod Retry
pub mod Standard
pub mod File
use logger_cpp.Common.{
  ℕ, Bool, true, false, List, ◌++◌, Option, none, some, Bytes, codes, if◌then◌else◌,
}
use logger_cpp.Records.{LogRecord, LogLevel, SourceLocation, TargetResult}
use logger_cpp.Schedule.{Time}

pub data TargetType : Type 0 where
  system_out_target system_err_target file_target log_target_count : TargetType

-- What a method that may throw does to `A`: `thrown` has the text of the exception, and `undefined` is
-- the use of an empty `std::optional`.
pub data Outcome (A : Type 0) : Type 0 where
  returned : A → Outcome A
  thrown : Bytes → A → Outcome A
  undefined : Outcome A

unfoldable pub refresh_reason : Bytes → Bytes
refresh_reason name = codes "Failed to refresh log target for \"" ++ (name ++ codes "\"")

module _ {W T : Type 0} (target_name : T → Bytes)
    (try_write_log : LogRecord → T → W → TargetResult × T × W)
    (refresh : T → W → Bool × T × W) where
  abbrev pub refresh_failure : T → TargetResult
  refresh_failure t = record { success = false; reason = refresh_reason (target_name t) }

  -- `Target::Write_log`: a refresh, and a second attempt after a refresh that succeeds.
  abbrev pub write_log_with : LogRecord → T → W → TargetResult × T × W
  write_log_with r t w =
      let (res, t1, w1) = try_write_log r t w in
      let (refreshed, t2, w2) = refresh t1 w1 in
      let again = try_write_log r t2 w2 in
      if res.success
      then (res, t1, w1)
      else if refreshed
      then again
      else (refresh_failure t2, t2, w2)

-- `W` is the world outside (files, standard streams, the clock), `T` the targets and `C` their
-- configurations. A method gets the target and the world and returns them changed. `new_target` is
-- `New_log_target`, and the last six fields are what the logger uses of the platform: the clock, the
-- standard error stream, the `MSS_*` macros (level, entity and message), the address of a new object,
-- the name of the module and the place of a line of Logger.cpp.
pub record TargetClass (W T C : Type 0) : Type 0 where
  pub new_target : TargetType → Option T
  pub base_config : Bytes → Bytes → TargetType → C
  pub config_type : C → TargetType
  pub get_target_name : T → Bytes
  pub load_config : C → T → T
  pub export_config : T → C
  -- `Setup` may throw: `some` is the text of the exception.
  pub setup : T → W → Option Bytes × T × W
  pub maintenance : T → W → Outcome (T × W)
  pub refresh : T → W → Bool × T × W
  pub try_write_log : LogRecord → T → W → TargetResult × T × W
  pub clock_now : W → Time × W
  pub cerr : Bytes → W → W
  pub mss : LogLevel → Bytes → Bytes → W → W
  pub allocate : List ℕ → ℕ
  pub mss_module_name : Bytes
  pub current_source : ℕ → SourceLocation

unfoldable pub write_log :
    {W T C : Type 0} → TargetClass W T C → LogRecord → T → W → TargetResult × T × W
write_log class = write_log_with class.get_target_name class.try_write_log class.refresh
