-- ===== src/Configs/Exposed.antt =====
-- `GetExposedMembers` of the configuration classes (include/Logger.h and include/LogTargetFile.h of
-- Source/SharedLibraries/CommonTools), and their default constructors.
use logger_cpp.Common.{ℕ, Bool, true, List, [], Bytes, codes}
use logger_cpp.Kinds.{LogKindSet, of_bits}
use logger_cpp.Records.{LogLevel, level_info}
use logger_cpp.Target.{TargetType, log_target_count}
use logger_cpp.Target.Base.{Platform, TargetConfig, new_config}
use logger_cpp.Target.File.{FileSettings}
use logger_cpp.Target.File.Config.{FileTargetConfig, new_file_config}
use logger_cpp.Logger.Setup.Config.{DispatchEntry, LoggerConfig}
use logger_cpp.Serializer.Members.{Member}

-- The members of each class, by their JSON names.
abbrev pub bits_member : Member LogKindSet ℕ
bits_member = record { name = codes "bits"; get = λ s. s.bits; set = λ v s. of_bits v }

abbrev pub level_member : Member DispatchEntry LogLevel
level_member = record {
  name = codes "level";
  get = λ e. e.level;
  set = λ v e. record e { level = v };
}

abbrev pub kinds_member : Member DispatchEntry LogKindSet
kinds_member = record {
  name = codes "kinds";
  get = λ e. e.kinds;
  set = λ v e. record e { kinds = v };
}

abbrev pub entry_targets_member : Member DispatchEntry (List Bytes)
entry_targets_member = record {
  name = codes "targets";
  get = λ e. e.targets;
  set = λ v e. record e { targets = v };
}

-- Those of `TargetConfig`, in a class that has one.
module _ {C : Type 0} (get_base : C → TargetConfig) (set_base : TargetConfig → C → C) where
  abbrev pub target_name_member : Member C Bytes
  target_name_member = record {
    name = codes "target_name";
    get = λ c. (get_base c).target_name;
    set = λ v c. set_base (record (get_base c) { target_name = v }) c;
  }

  abbrev pub format_string_member : Member C Bytes
  format_string_member = record {
    name = codes "format_string";
    get = λ c. (get_base c).format_string;
    set = λ v c. set_base (record (get_base c) { format_string = v }) c;
  }

  abbrev pub target_type_member : Member C TargetType
  target_type_member = record {
    name = codes "target_type";
    get = λ c. (get_base c).target_type;
    set = λ v c. set_base (record (get_base c) { target_type = v }) c;
  }

abbrev pub set_base : TargetConfig → FileTargetConfig → FileTargetConfig
set_base b c = record c { base = b }

-- A member of the settings of a file.
abbrev pub setting :
    {T : Type 0}
    → Bytes
    → (FileSettings → T)
    → (T → FileSettings → FileSettings)
    → Member FileTargetConfig T
setting name get set = record {
  name = name;
  get = λ c. get c.settings;
  set = λ v c. record c { settings = set v c.settings };
}

abbrev pub filepath_member : Member FileTargetConfig Bytes
filepath_member = setting (codes "filepath") (λ s. s.filepath) (λ v s. record s { filepath = v })

abbrev pub filename_member : Member FileTargetConfig Bytes
filename_member = setting (codes "filename") (λ s. s.filename) (λ v s. record s { filename = v })

abbrev pub max_filesize_bytes_member : Member FileTargetConfig ℕ
max_filesize_bytes_member =
    setting (codes "max_filesize_bytes") (λ s. s.max_filesize_bytes)
      (λ v s. record s { max_filesize_bytes = v })

abbrev pub log_frequency_member : Member FileTargetConfig ℕ
log_frequency_member =
    setting (codes "log_frequency") (λ s. s.log_frequency) (λ v s. record s { log_frequency = v })

abbrev pub prefix_member : Member FileTargetConfig Bytes
prefix_member = setting (codes "prefix") (λ s. s.prefix) (λ v s. record s { prefix = v })

abbrev pub suffix_member : Member FileTargetConfig Bytes
suffix_member = setting (codes "suffix") (λ s. s.suffix) (λ v s. record s { suffix = v })

abbrev pub filename_format_member : Member FileTargetConfig Bytes
filename_format_member =
    setting (codes "filename_format") (λ s. s.filename_format)
      (λ v s. record s { filename_format = v })

abbrev pub log_storage_duration_member : Member FileTargetConfig ℕ
log_storage_duration_member =
    setting (codes "log_storage_duration") (λ s. s.log_storage_duration)
      (λ v s. record s { log_storage_duration = v })

-- A configuration of a target is an object of the class or of the class derived from it.
pub data ConfigObject : Type 0 where
  plain_config : TargetConfig → ConfigObject
  file_config : FileTargetConfig → ConfigObject

abbrev pub targets_member : Member (LoggerConfig ConfigObject) (List ConfigObject)
targets_member = record {
  name = codes "targets";
  get = λ c. c.target_configs;
  set = λ v c. record c { target_configs = v };
}

abbrev pub dispatch_member : Member (LoggerConfig ConfigObject) (List DispatchEntry)
dispatch_member = record {
  name = codes "dispatch";
  get = λ c. c.dispatch_config;
  set = λ v c. record c { dispatch_config = v };
}

abbrev pub use_fallback_member : Member (LoggerConfig ConfigObject) Bool
use_fallback_member = record {
  name = codes "use_fallback";
  get = λ c. c.use_fallback;
  set = λ v c. record c { use_fallback = v };
}

abbrev pub asynchronous_mode_member : Member (LoggerConfig ConfigObject) Bool
asynchronous_mode_member = record {
  name = codes "asynchronous_mode";
  get = λ c. c.asynchronous_mode;
  set = λ v c. record c { asynchronous_mode = v };
}

-- What the default constructors make.
abbrev pub default_entry : DispatchEntry
default_entry = record { level = level_info; kinds = of_bits 0; targets = [] }

abbrev pub default_target_config : TargetConfig
default_target_config = new_config (codes "unnamed") [] log_target_count

abbrev default_settings : FileSettings
default_settings = record {
  filepath = [];
  filename = [];
  max_filesize_bytes = 0;
  log_frequency = 24;
  log_storage_duration = 30;
  prefix = [];
  suffix = [];
  filename_format = [];
}

abbrev pub default_file_config : {W : Type 0} → Platform W → FileTargetConfig
default_file_config platform = new_file_config platform (codes "undefined") [] default_settings

abbrev pub default_logger_config : LoggerConfig ConfigObject
default_logger_config = record {
  target_configs = [];
  dispatch_config = [];
  use_fallback = true;
  asynchronous_mode = true;
}
