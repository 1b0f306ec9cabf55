-- ===== src/Examples/Recorder.antt =====
-- Targets in the manner of `TestTarget` of Tests/UnitTests/Logger_tests.cpp: they keep what they are given.
use logger_cpp.Common.{
  ℕ, suc, ◌+◌, refl, Bool, true, false, List, [], ◌∷◌, ◌++◌, none, some, Bytes, codes, text_eq, not,
  if◌then◌else◌, Bool-cases, inl, inr,
}
use logger_cpp.Records.{LogRecord, TargetResult}
use logger_cpp.Schedule.{Time}
use logger_cpp.Target.{returned, TargetClass, TargetType}
use logger_cpp.Logger.Writing.{Line, line_of, PutsOut}

-- The lines put out, and a clock that goes on when it is read.
pub record Tape : Type 0 where
  pub lines : List Line
  pub clock : Time
  pub errors : List Bytes

pub record Recorder : Type 0 where
  pub name : Bytes

-- A target is broken if its name is the word "broken".
abbrev pub works : Bytes → Bool
works name = not (text_eq name (codes "broken"))

abbrev result_of : Bool → TargetResult
result_of b = record { success = b; reason = [] }

abbrev attempt : LogRecord → Recorder → Tape → TargetResult × Recorder × Tape
attempt r t w =
    if works t.name
    then (result_of true, t, record w { lines = w.lines ++ (line_of t.name r ∷ []) })
    else (result_of false, t, w)

abbrev largest : List ℕ → ℕ
largest [] = 0
largest (a ∷ as') = suc a + largest as'

abbrev pub recorders : TargetClass Tape Recorder Recorder
recorders = record {
  new_target = λ type. some (record { name = [] });
  base_config = λ name format type. record { name = name };
  config_type = λ config. TargetType.system_out_target;
  get_target_name = λ t. t.name;
  load_config = λ config t. config;
  export_config = λ t. t;
  setup = λ t w. (none, t, w);
  maintenance = λ t w. returned (t, w);
  refresh = λ t w. (false, t, w);
  try_write_log = attempt;
  clock_now = λ w. (w.clock, record w { clock = w.clock + 1 });
  cerr = λ text w. record w { errors = w.errors ++ (text ∷ []) };
  mss = λ level entity message w. w;
  allocate = largest;
  mss_module_name = codes "commontools";
  current_source = λ line. record { file_address = 0; file_name = codes "Logger.cpp"; line = line };
}

abbrev pub tape_lines : Tape → List Line
tape_lines w = w.lines

pub recorders-PutsOut : PutsOut recorders works tape_lines
recorders-PutsOut = record {
  tried = λ r t w. elim (Bool-cases (works t.name)) [
    | inl e ↦ rw e (refl, refl, refl)
    | inr e ↦ rw e (refl, refl, refl)
  ];
  not_refreshed = λ t w. (refl, refl, refl);
  clock_silent = λ w. refl;
}

abbrev pub blank : Tape
blank = record { lines = []; clock = 0; errors = [] }
