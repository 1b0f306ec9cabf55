-- ===== src/Examples/Targets.antt =====
-- Targets over a world that keeps the lines put into each file.
use logger_cpp.Common.{
  ℕ, ◌+◌, ◌≡◌, ◌≢◌, refl, true, false, List, [], ◌∷◌, ◌++◌, none, some, Bytes, codes, if◌then◌else◌,
}
use logger_cpp.Kinds.{of_bits}
use logger_cpp.Schedule.{Time}
use logger_cpp.Records.{LogRecord, level_info}
use logger_cpp.Format.{format_log_message}
use logger_cpp.Target.{returned, undefined, file_target}
use logger_cpp.Target.Base.{Platform, endl}
use logger_cpp.Target.File.{FileTarget, try_write_file}
use logger_cpp.Target.File.Config.{
  FileTargetConfig, load_file_config, export_file_config, new_file_target, export-load_file_config,
}
use logger_cpp.Target.File.Rotation.{setup_file, maintain_file}
use logger_cpp.Target.File.Rotation.Streams.{IsSound, After}
use logger_cpp.Target.File.Rotation.Opening.{setup_file-IsSound, setup_file-returned}
use logger_cpp.Target.File.Rotation.Faults.{setup_file-silent}
use logger_cpp.Target.File.Rotation.Unscheduled.{setup-maintain_file}
use logger_cpp.Target.File.Rotation.Line.{try_write_file-line, opened_for}

pub record Disk : Type 0 where
  texts : List (Bytes × Bytes)
  clock : Time

abbrev disk : Disk
disk = record { texts = []; clock = 0 }

abbrev pub platform : Platform Disk
platform = record {
  visit = λ rs. rs;
  clock_now = λ w. (w.clock, record w { clock = w.clock + 1 });
  cout = λ text w. w;
  cerr = λ text w. w;
  open_file = λ name w. (true, w);
  put = λ name text w. record w { texts = w.texts ++ ((name, text) ∷ []) };
  exists = λ name w. true;
  file_size = λ name w. 0;
  create_directories = λ name w. (none, w);
  regex_error = λ pattern. none;
  mss = λ level entity text w. w;
  title = [];
  process_name = codes "app";
  pid = 7;
  trace_path = codes ".";
  mss_module_name = codes "commontools";
  current_source = λ line. record { file_address = 0; file_name = codes "f.cpp"; line = line };
}

abbrev config : FileTargetConfig
config = record {
  base = record {
    target_name = codes "file";
    format_string = codes "%%log";
    target_type = file_target;
  };
  settings = record {
    filepath = codes "logs/";
    filename = codes "app";
    max_filesize_bytes = 0;
    log_frequency = 24;
    log_storage_duration = 0;
    prefix = [];
    suffix = codes ".log";
    filename_format = codes "%%filename%%suffix";
  };
}

abbrev up_record : LogRecord
up_record = record {
  level = level_info;
  kinds = of_bits 4;
  module_name = codes "app";
  source = record { file_address = 4; file_name = codes "main.cpp"; line = 12 };
  source_entity = codes "links";
  message = codes "up";
  timestamp = 1000;
}

-- A new target, and one with its file open.
abbrev fresh : FileTarget
fresh = record (new_file_target platform) { settings = config.settings; base = config.base }

abbrev opened : FileTarget
opened = record fresh {
  current_filename = codes "app.log";
  file = record { opened = some (codes "app.log"); failbit = false };
}

export-load_file_config_example :
    export_file_config platform (load_file_config config (new_file_target platform)) ≡ config
export-load_file_config_example = export-load_file_config platform config (no, no, no, no, refl)
  where
    no : {c : ℕ} {s : Bytes} → (c ∷ s) ≢ []
    no e = absurd (cc e)

setup_file-IsSound_example : After IsSound (setup_file platform fresh disk)
setup_file-IsSound_example = setup_file-IsSound platform fresh disk (refl, refl)

try_write_file-line_example :
    let line = format_log_message platform.visit opened.format_string up_record ++ endl in
    let (res, t1, w1) = try_write_file platform up_record opened disk in
    let (opens, w2) = opened_for platform opened disk in
    (res.success ≡ opens)
    × (w1 ≡ (if opens then platform.put opened.current_filename line w2 else w2))
try_write_file-line_example = try_write_file-line platform up_record opened disk (refl, refl)

-- What the set-ups return.
abbrev set_up :
    (t : FileTarget) → (s : FileTarget × Disk) × (setup_file platform t disk ≡ returned s)
set_up t = setup_file-returned platform (λ name w. refl) (λ pattern. refl) t disk

setup_file-silent_example :
    try_write_file platform up_record (set_up opened).0.0 disk
    ≡ (record { success = true; reason = [] }, (set_up opened).0.0, disk)
setup_file-silent_example =
    setup_file-silent platform opened (set_up opened).0.0 disk (set_up opened).0.1 disk up_record
      refl (set_up opened).1

setup-maintain_file_example : maintain_file platform (set_up fresh).0.0 disk ≡ undefined
setup-maintain_file_example =
    setup-maintain_file platform fresh (set_up fresh).0.0 disk (set_up fresh).0.1 disk
      (refl, refl, refl) (set_up fresh).1
