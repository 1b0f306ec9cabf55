-- ===== src/Configs.antt =====
-- The configuration classes as JSON: `LogKindSet`, `DispatchEntry`, `TargetConfig`, `LoggerConfig` (Logger.cpp and
-- include/Logger.h of Source/SharedLibraries/CommonTools) and `FileTargetConfig` (LogTargetFile.cpp).
pub mod Exposed
pub mod Schemas
pub mod Faithful
pub mod Entries
pub mod Objects
pub mod RoundTrip
pub mod Errors
pub mod Missing
pub mod Comparison
use logger_cpp.Common.{
  ℕ, Bool, true, false, List, [], ◌∷◌, ◌++◌, Option, none, some, Bytes, codes, text_eq, ◌==◌, ◌&&◌,
  not, length, if◌then◌else◌,
}
use logger_cpp.Kinds.{LogKindSet, of_bits, kinds_eq}
use logger_cpp.Records.{
  LogLevel, level_debug, level_info, level_warning, level_error, level_critical, level_fatal,
  log_level_count, level_value,
}
use logger_cpp.Target.{
  TargetType, system_out_target, system_err_target, file_target, log_target_count,
}
use logger_cpp.Target.Base.{Platform, TargetConfig, new_config}
use logger_cpp.Target.File.{FileSettings}
use logger_cpp.Target.File.Config.{FileTargetConfig, new_file_config}
use logger_cpp.Logger.Setup.Config.{DispatchEntry, LoggerConfig}
use logger_cpp.Serializer.{
  Result, ok, error, undefined, ◌>>=◌, JsonType, json_object, json_array, json_string, json_number,
  json_boolean, Schema, JsonLibrary,
}
use logger_cpp.Serializer.Members.{
  Member, Field, field, Serializable, text_branch, number_branch, bool_branch, enum_branch,
  value_branch, values_branch, pointers_branch, texts_branch, validated, unvalidated,
}
use Exposed.{
  ConfigObject, plain_config, file_config, bits_member, level_member, kinds_member,
  entry_targets_member, target_name_member, format_string_member, target_type_member, set_base,
  filepath_member, filename_member, max_filesize_bytes_member, log_frequency_member, prefix_member,
  suffix_member, filename_format_member, log_storage_duration_member, targets_member,
  dispatch_member, use_fallback_member, asynchronous_mode_member, default_entry,
  default_target_config, default_file_config,
}
use Schemas.{
  entry_schema, target_schema, logger_schema, file_schema, level_named, type_value, type_named,
}

module _ (J : JsonLibrary) where
  open J use {Json, has_type, contains, get_member, get_number}

  abbrev pub kinds_fields : List (Field J LogKindSet)
  kinds_fields = field J bits_member (number_branch J) ∷ []

  abbrev pub kinds_json : Serializable J LogKindSet
  kinds_json = unvalidated J kinds_fields

  abbrev pub entry_fields : List (Field J DispatchEntry)
  entry_fields =
      field J level_member (enum_branch J level_value level_named)
      ∷ (field J kinds_member (value_branch J kinds_json)
          ∷ (field J entry_targets_member (texts_branch J) ∷ []))

  abbrev pub entry_json : Serializable J DispatchEntry
  entry_json = validated J entry_schema entry_fields

  abbrev pub base_fields :
      {C : Type 0} → (C → TargetConfig) → (TargetConfig → C → C) → List (Field J C)
  base_fields get set =
      field J (target_name_member get set) (text_branch J)
      ∷ (field J (format_string_member get set) (text_branch J)
          ∷ (field J (target_type_member get set) (enum_branch J type_value type_named) ∷ []))

  abbrev pub target_json : Serializable J TargetConfig
  target_json = validated J target_schema (base_fields (λ c. c) (λ b c. b))

  abbrev pub file_fields : List (Field J FileTargetConfig)
  file_fields =
      base_fields (λ c. c.base) set_base
      ++ (field J filepath_member (text_branch J)
          ∷ (field J filename_member (text_branch J)
              ∷ (field J max_filesize_bytes_member (number_branch J)
                  ∷ (field J log_frequency_member (number_branch J)
                      ∷ (field J prefix_member (text_branch J)
                          ∷ (field J suffix_member (text_branch J)
                              ∷ (field J filename_format_member (text_branch J)
                                  ∷ (field J log_storage_duration_member (number_branch J)
                                      ∷ []))))))))

  abbrev pub file_json : Serializable J FileTargetConfig
  file_json = validated J file_schema file_fields

  -- `Serialize` and `Deserialize` of a configuration of a target are virtual.
  unfoldable pub serialize_object : ConfigObject → Json → Result Json
  serialize_object (plain_config c) j = target_json.serialize c j
  serialize_object (file_config c) j = file_json.serialize c j

  unfoldable pub deserialize_object : Json → ConfigObject → Result ConfigObject
  deserialize_object j (plain_config c) = target_json.deserialize j c >>= λ c'. ok (plain_config c')
  deserialize_object j (file_config c) = file_json.deserialize j c >>= λ c'. ok (file_config c')

  abbrev pub object_json : Serializable J ConfigObject
  object_json = record { serialize = serialize_object; deserialize = deserialize_object }

  module _ {W : Type 0} (platform : Platform W) where
    -- The classes by the number of the type.
    unfoldable pub allocate : ℕ → Option ConfigObject
    allocate n =
        if n == 0
        then some (plain_config default_target_config)
        else if n == 1
        then some (plain_config default_target_config)
        else if n == 2
        then some (file_config (default_file_config platform))
        else none

    -- `AllocateFromJSON`. A key that is missing in a constant object is undefined behaviour.
    unfoldable pub allocate_from_json : Json → Result (Option ConfigObject)
    unfolding allocate
    allocate_from_json j =
        if has_type json_object j && not (contains (codes "target_type") j)
        then undefined
        else (do type ← get_member (codes "target_type") j; n ← get_number type; ok (allocate n))

    abbrev pub logger_fields : List (Field J (LoggerConfig ConfigObject))
    logger_fields =
        field J targets_member (pointers_branch J object_json allocate_from_json)
        ∷ (field J dispatch_member (values_branch J entry_json default_entry)
            ∷ (field J use_fallback_member (bool_branch J)
                ∷ (field J asynchronous_mode_member (bool_branch J) ∷ [])))

    abbrev pub logger_json : Serializable J (LoggerConfig ConfigObject)
    logger_json = validated J logger_schema logger_fields

-- Two sets of names are equal.
abbrev pub texts_eq : List Bytes → List Bytes → Bool
texts_eq [] [] = true
texts_eq [] (t ∷ ts) = false
texts_eq (s ∷ ss) [] = false
texts_eq (s ∷ ss) (t ∷ ts) = text_eq s t && texts_eq ss ts

-- `operator==` of entries and of configurations of targets.
unfoldable pub entry_eq : DispatchEntry → DispatchEntry → Bool
entry_eq lhs rhs =
    kinds_eq lhs.kinds rhs.kinds
    && (level_value lhs.level == level_value rhs.level && texts_eq lhs.targets rhs.targets)

unfoldable pub target_config_eq : TargetConfig → TargetConfig → Bool
target_config_eq lhs rhs =
    text_eq lhs.target_name rhs.target_name
    && (text_eq lhs.format_string rhs.format_string
        && type_value lhs.target_type == type_value rhs.target_type)

-- What the comparison reads of an object, which may be of the derived class.
abbrev pub base_of : ConfigObject → TargetConfig
base_of (plain_config c) = c
base_of (file_config c) = c.base

-- `std::equal` over the range on the left: reading past the end of the one on the right is undefined.
unfoldable pub equal : {A : Type 0} → (A → A → Bool) → List A → List A → Result Bool
equal eq [] bs = ok true
equal eq (a ∷ as') [] = undefined
equal eq (a ∷ as') (b ∷ bs) = let rest = equal eq as' bs in if eq a b then rest else ok false

abbrev pub bool_eq : Bool → Bool → Bool
bool_eq true b = b
bool_eq false b = not b

unfoldable pub logger_config_eq :
    LoggerConfig ConfigObject → LoggerConfig ConfigObject → Result Bool
unfolding equal entry_eq target_config_eq
logger_config_eq lhs rhs =
    if bool_eq lhs.asynchronous_mode rhs.asynchronous_mode
      && (bool_eq lhs.use_fallback rhs.use_fallback
          && length lhs.dispatch_config == length rhs.dispatch_config)
    then (do
      same ← equal entry_eq lhs.dispatch_config rhs.dispatch_config
      let targets =
          equal (λ a b. target_config_eq (base_of a) (base_of b)) lhs.target_configs
            rhs.target_configs
      if same then targets else ok false)
    else ok false
