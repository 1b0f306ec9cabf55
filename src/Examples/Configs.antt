-- ===== src/Examples/Configs.antt =====
-- Configurations as JSON.
use logger_cpp.Common.{true, false, [], ◌∷◌, ◌≡◌, refl, codes, arith, inl}
use logger_cpp.Common.Sets.{text_order}
use logger_cpp.Kinds.{of_bits}
use logger_cpp.Records.{level_debug}
use logger_cpp.Target.{system_out_target, file_target}
use logger_cpp.Target.Base.{TargetConfig}
use logger_cpp.Target.File.{FileSettings}
use logger_cpp.Target.File.Config.{FileTargetConfig}
use logger_cpp.Logger.Setup.Config.{DispatchEntry, LoggerConfig}
use logger_cpp.Serializer.{ok, undefined, Conforms}
use logger_cpp.Configs.Comparison.{logger_config_eq-longer}
use logger_cpp.Configs.{logger_config_eq, logger_json}
use logger_cpp.Configs.Exposed.{ConfigObject, plain_config, file_config, default_logger_config}
use logger_cpp.Configs.Schemas.{logger_schema}
use logger_cpp.Configs.RoundTrip.{deserialize-serialize, IsStorable}
use logger_cpp.Configs.Errors.{deserialize-undefined, unknown_type}
use logger_cpp.Examples.Trees.{
  Tree, trees, trees_laws, null_tree, text_tree, number_tree, boolean_tree, array_tree, object_tree,
  nil, cons, end, pair,
}
use logger_cpp.Examples.Targets.{platform}

abbrev console : TargetConfig
console = record {
  target_name = codes "MssStdOut";
  format_string = codes "%%log";
  target_type = system_out_target;
}

abbrev settings : FileSettings
settings = record {
  filepath = codes "/var/log/";
  filename = codes "trace";
  max_filesize_bytes = 1000;
  log_frequency = 24;
  log_storage_duration = 30;
  prefix = [];
  suffix = codes ".log";
  filename_format = codes "%%path%%filename%%suffix";
}

abbrev trace : FileTargetConfig
trace = record {
  base = record console { target_name = codes "MssTraceFile"; target_type = file_target };
  settings = settings;
}

abbrev entry : DispatchEntry
entry = record {
  level = level_debug;
  kinds = of_bits 7;
  targets = codes "MssStdOut" ∷ (codes "MssTraceFile" ∷ []);
}

abbrev config : LoggerConfig ConfigObject
config = record {
  target_configs = plain_config console ∷ (file_config trace ∷ []);
  dispatch_config = entry ∷ [];
  use_fallback = true;
  asynchronous_mode = false;
}

abbrev config-IsStorable : IsStorable config
config-IsStorable = record {
  matched = (inl refl, (refl, tt));
  rising = (((refl, tt), (tt, tt)), tt);
}

deserialize-serialize_example :
    (j : Tree) × ((logger_json trees platform).serialize config null_tree ≡ ok j)
    × ((d : LoggerConfig ConfigObject) → (logger_json trees platform).deserialize j d ≡ ok config)
deserialize-serialize_example =
    deserialize-serialize trees trees_laws platform config null_tree config-IsStorable (inl refl)

-- A target of the type 7.
abbrev unmade : Tree
unmade = object_tree (pair (codes "target_type") (number_tree 7) end)

abbrev with_unmade : Tree
with_unmade = object_tree (
    pair (codes "targets") (array_tree (cons unmade nil)) (
      pair (codes "dispatch") (array_tree nil) (
        pair (codes "use_fallback") (boolean_tree true)
          (pair (codes "asynchronous_mode") (boolean_tree true) end))))

with_unmade-Conforms : Conforms trees logger_schema with_unmade
with_unmade-Conforms = (
  refl,
  (
    λ v h e. ground arith,
    (λ v h e. ground arith, (λ v h e. ground arith, (λ v h e. ground arith, tt))),
  ),
  (refl, (refl, (refl, (refl, tt)))),
)

deserialize-undefined_example :
    (logger_json trees platform).deserialize with_unmade default_logger_config ≡ undefined
deserialize-undefined_example =
    deserialize-undefined trees trees_laws platform with_unmade (array_tree (cons unmade nil))
      unmade [] default_logger_config with_unmade-Conforms refl refl
      (unknown_type (number_tree 7) 7 refl refl refl (omega arith))

-- The settings without a storage duration.
abbrev undated : Tree
undated = object_tree (
    pair (codes "target_name") (text_tree (codes "MssTraceFile")) (
      pair (codes "format_string") (text_tree (codes "%%log")) (
        pair (codes "target_type") (number_tree 2) (
          pair (codes "filepath") (text_tree (codes "/var/log/")) (
            pair (codes "filename") (text_tree (codes "trace")) (
              pair (codes "max_filesize_bytes") (number_tree 1000) (
                pair (codes "log_frequency") (number_tree 24) (
                  pair (codes "prefix") (text_tree []) (
                    pair (codes "suffix") (text_tree (codes ".log")) (
                      pair (codes "filename_format") (text_tree (codes "%%path%%filename%%suffix"))
                        end))))))))))

-- A configuration with other values, and what is read into it.
abbrev other : FileTargetConfig
other = record {
  base = console;
  settings = record settings { filename = codes "old"; log_storage_duration = 7 };
}

abbrev read_other : FileTargetConfig
read_other = record trace { settings = record settings { log_storage_duration = 7 } }

logger_config_eq-longer_example :
    let longer = record config {
      target_configs = plain_config console ∷ (file_config trace ∷ (plain_config console ∷ []));
    } in
    (logger_config_eq config longer ≡ ok true) × (logger_config_eq longer config ≡ undefined)
logger_config_eq-longer_example = logger_config_eq-longer config (plain_config console) []
