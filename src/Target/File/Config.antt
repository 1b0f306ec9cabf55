-- ===== src/Target/File/Config.antt =====
-- `FileTargetConfig`, `Load_config` and `Export_config` of `FileTarget` (LogTargetFile.cpp and
-- include/LogTargetFile.h of Source/SharedLibraries/CommonTools).
use logger_cpp.Common.{◌≡◌, ◌≢◌, refl, ap, sym, ◌∙◌, false, [], ◌∷◌, none, Bytes, codes, arith}
use logger_cpp.Target.{file_target, log_target_count}
use logger_cpp.Target.Base.{
  Platform, TargetConfig, new_config, text_or, load_base, export_base, default_format,
}
use logger_cpp.Target.File.{FileSettings, FileTarget}

pub record FileTargetConfig : Type 0 where
  pub base : TargetConfig
  pub open base use *
  pub settings : FileSettings
  pub open settings use *

abbrev default_filename_format : Bytes
default_filename_format =
    codes "%%path%%prefix%%filename%%title_%%date_%%hour-%%min-%%sec-%%ms_%%procname_%%pid%%suffix"

-- A setting of the configuration, or the target's where the configuration leaves it empty; the path
-- and the numbers are always those of the configuration.
unfoldable pub load_file_config : FileTargetConfig → FileTarget → FileTarget
load_file_config config t = record t {
  base = load_base config.base t.base;
  settings = record {
    filepath = config.filepath;
    filename = text_or config.filename t.filename;
    max_filesize_bytes = config.max_filesize_bytes;
    log_frequency = config.log_frequency;
    log_storage_duration = config.log_storage_duration;
    prefix = text_or config.prefix t.prefix;
    suffix = text_or config.suffix t.suffix;
    filename_format = text_or config.filename_format t.filename_format;
  };
}

module _ {W : Type 0} (platform : Platform W) where
  -- The constructor, which leaves the initial values where an argument is empty.
  unfoldable pub new_file_config : Bytes → Bytes → FileSettings → FileTargetConfig
  new_file_config name format s = record {
    base = new_config name format file_target;
    settings = record s {
      filepath = text_or s.filepath platform.trace_path;
      suffix = text_or s.suffix (codes ".log");
      filename_format = text_or s.filename_format default_filename_format;
    };
  }

  unfoldable pub export_file_config : FileTarget → FileTargetConfig
  unfolding new_file_config
  export_file_config t =
      let base = export_base t.base in
      new_file_config base.target_name base.format_string t.settings

  -- A file target as `New_log_target` makes it. `_target_type` and `_log_storage_duration` have no value
  -- until the configuration is loaded; the ones here stand for any.
  abbrev pub new_file_target : FileTarget
  new_file_target = record {
    base = record {
      target_name = [];
      format_string = default_format;
      target_type = log_target_count;
    };
    settings = record {
      filepath = platform.trace_path;
      filename = [];
      max_filesize_bytes = 0;
      log_frequency = 24;
      log_storage_duration = 0;
      prefix = [];
      suffix = codes ".log";
      filename_format = default_filename_format;
    };
    current_filename = [];
    filename_update_interval = none;
    file = record { opened = none; failbit = false };
    current_log_regex = [];
    log_auto_cleanup_worker = false;
  }

  -- The texts that a configuration needs for its values to be taken as they are.
  abbrev pub IsComplete : FileTargetConfig → Type 0
  IsComplete c =
      (c.format_string ≢ [])
      × (c.filepath ≢ [])
      × (c.suffix ≢ [])
      × (c.filename_format ≢ [])
      × (c.target_type ≡ file_target)

  text_or-nonempty : (s default : Bytes) → s ≢ [] → text_or s default ≡ s
  unfolding text_or
  text_or-nonempty [] default ne = absurd (ne refl)
  text_or-nonempty (c ∷ s) default ne = ground arith

  text_or-nil : (s : Bytes) → text_or s [] ≡ s
  unfolding text_or
  text_or-nil [] = refl
  text_or-nil (c ∷ s) = ground arith

  text_or_twice : (s default : Bytes) → s ≢ [] → text_or (text_or s default) default ≡ s
  text_or_twice s default ne =
      ap (λ t. text_or t default) (text_or-nonempty s default ne) ∙ text_or-nonempty s default ne

  -- For every file configuration whose format, path, suffix and format of names are not empty: loaded
  -- into a new target and exported, it comes back as it was, the empty filename and prefix included.
  pub export-load_file_config :
      (c : FileTargetConfig)
      → IsComplete c
      → export_file_config (load_file_config c new_file_target) ≡ c
  unfolding export_file_config load_file_config load_base export_base
  export-load_file_config c (nf, np, ns, nn, ty) = λ i. record {
    base = record {
      target_name = c.target_name;
      format_string =
          (ap (λ t. text_or t default_format) (text_or_twice c.format_string default_format nf)
              ∙ text_or-nonempty c.format_string default_format nf)
            i;
      target_type = sym ty i;
    };
    settings = record {
      filepath = text_or-nonempty c.filepath platform.trace_path np i;
      filename = text_or-nil c.filename i;
      max_filesize_bytes = c.max_filesize_bytes;
      log_frequency = c.log_frequency;
      log_storage_duration = c.log_storage_duration;
      prefix = text_or-nil c.prefix i;
      suffix = text_or_twice c.suffix (codes ".log") ns i;
      filename_format = text_or_twice c.filename_format default_filename_format nn i;
    };
  }
