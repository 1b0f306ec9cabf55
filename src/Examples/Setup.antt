-- ===== src/Examples/Setup.antt =====
-- A configuration with two entries for the same records and a target that is not there.
use logger_cpp.Common.{true, [], ◌∷◌, codes}
use logger_cpp.Kinds.{of_bits}
use logger_cpp.Records.{level_info}
use logger_cpp.Logger.{State, new_logger}
use logger_cpp.Logger.Setup.{configure}
use logger_cpp.Logger.Setup.Config.{LoggerConfig}
use logger_cpp.Logger.Setup.Rules.{IsRouted, configure-IsRouted}
use logger_cpp.Examples.Recorder.{Recorder, Tape, recorders, blank}

abbrev config : LoggerConfig Recorder
config = record {
  target_configs = record { name = codes "file" } ∷ record { name = codes "out" } ∷ [];
  dispatch_config =
      record { level = level_info; kinds = of_bits 4; targets = codes "file" ∷ codes "lost" ∷ [] }
      ∷ record { level = level_info; kinds = of_bits 4; targets = codes "out" ∷ [] }
      ∷ [];
  use_fallback = true;
  asynchronous_mode = true;
}

abbrev start_state : State Tape Recorder
start_state = record {
  logger = new_logger;
  heap = λ a. record { name = [] };
  allocated = [];
  world = blank;
}

configure-IsRouted_example : IsRouted recorders (configure recorders config start_state)
configure-IsRouted_example = configure-IsRouted recorders config start_state (tt, tt)
