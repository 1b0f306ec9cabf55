-- ===== src/Configs/Schemas.antt =====
-- `Get_schema` of the configuration classes (Logger.cpp and LogTargetFile.cpp of
-- Source/SharedLibraries/CommonTools), and the enumerations as numbers.
use logger_cpp.Common.{
  ℕ, List, [], ◌∷◌, ◌++◌, Option, none, some, Bytes, codes, text_eq, ◌==◌, if◌then◌else◌,
}
use logger_cpp.Records.{
  LogLevel, level_debug, level_info, level_warning, level_error, level_critical, level_fatal,
  log_level_count,
}
use logger_cpp.Target.{
  TargetType, system_out_target, system_err_target, file_target, log_target_count,
}
use logger_cpp.Serializer.{
  JsonType, json_object, json_array, json_string, json_number, json_boolean, Schema,
}

-- The schemas.
abbrev pub entry_schema : Schema
entry_schema = record {
  properties =
      (codes "level", json_number)
      ∷ ((codes "kinds", json_object) ∷ ((codes "targets", json_array) ∷ []));
  required = codes "level" ∷ (codes "kinds" ∷ (codes "targets" ∷ []));
}

abbrev pub target_schema : Schema
target_schema = record {
  properties =
      (codes "target_name", json_string)
      ∷ ((codes "format_string", json_string) ∷ ((codes "target_type", json_number) ∷ []));
  required = codes "target_name" ∷ (codes "format_string" ∷ (codes "target_type" ∷ []));
}

abbrev pub logger_schema : Schema
logger_schema = record {
  properties =
      (codes "targets", json_array)
      ∷ ((codes "dispatch", json_array)
          ∷ ((codes "use_fallback", json_boolean)
              ∷ ((codes "asynchronous_mode", json_boolean) ∷ [])));
  required =
      codes "targets"
      ∷ (codes "dispatch" ∷ (codes "use_fallback" ∷ (codes "asynchronous_mode" ∷ [])));
}

abbrev pub derived_schema : Schema
derived_schema = record {
  properties =
      (codes "filepath", json_string)
      ∷ ((codes "filename", json_string)
          ∷ ((codes "max_filesize_bytes", json_number)
              ∷ ((codes "log_frequency", json_number)
                  ∷ ((codes "log_storage_duration", json_number)
                      ∷ ((codes "prefix", json_string)
                          ∷ ((codes "suffix", json_string)
                              ∷ ((codes "filename_format", json_string) ∷ [])))))));
  required =
      codes "filepath"
      ∷ (codes "filename"
          ∷ (codes "max_filesize_bytes"
              ∷ (codes "log_frequency"
                  ∷ (codes "prefix" ∷ (codes "suffix" ∷ (codes "filename_format" ∷ []))))));
}

-- `json::update`: each pair of the second object is put into the first.
abbrev pub update_property : Bytes × JsonType → List (Bytes × JsonType) → List (Bytes × JsonType)
update_property q [] = q ∷ []
update_property q (p ∷ ps) = if text_eq p.0 q.0 then q ∷ ps else p ∷ update_property q ps

abbrev pub update_properties :
    List (Bytes × JsonType) → List (Bytes × JsonType) → List (Bytes × JsonType)
update_properties ps [] = ps
update_properties ps (q ∷ qs) = update_properties (update_property q ps) qs

-- `FileTargetConfig::Get_schema` extends the schema of the base class.
abbrev pub file_schema : Schema
file_schema = record {
  properties = update_properties target_schema.properties derived_schema.properties;
  required = target_schema.required ++ derived_schema.required;
}

-- The enumerations by their numbers.
abbrev pub level_named : ℕ → Option LogLevel
level_named n =
    if n == 0
    then some level_debug
    else if n == 1
    then some level_info
    else if n == 2
    then some level_warning
    else if n == 3
    then some level_error
    else if n == 4
    then some level_critical
    else if n == 5
    then some level_fatal
    else if n == 6
    then some log_level_count
    else none

abbrev pub type_value : TargetType → ℕ
type_value system_out_target = 0
type_value system_err_target = 1
type_value file_target = 2
type_value log_target_count = 3

abbrev pub type_named : ℕ → Option TargetType
type_named n =
    if n == 0
    then some system_out_target
    else if n == 1
    then some system_err_target
    else if n == 2
    then some file_target
    else if n == 3
    then some log_target_count
    else none
