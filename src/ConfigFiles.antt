-- ===== src/ConfigFiles.antt =====
-- `Save_config`, `Load_config`, `Backup_config` and `Get_default_config` of `Logger`
-- (Source/SharedLibraries/CommonTools/Logger.cpp), over the file system and the text form of JSON values.
pub mod Restored
pub mod Faults
pub mod Backup
use logger_cpp.Common.{
  ℕ, zero, suc, ◌+◌, Bool, true, false, not, List, [], ◌∷◌, ◌++◌, Option, none, some, Bytes, codes,
  to_string, if◌then◌else◌,
}
use logger_cpp.Kinds.{all_set}
use logger_cpp.Records.{level_debug, level_info}
use logger_cpp.Target.{TargetClass, system_out_target}
use logger_cpp.Target.Base.{Platform, new_config, endl}
use logger_cpp.Target.File.{FileSettings}
use logger_cpp.Target.File.Config.{new_file_config}
use logger_cpp.Logger.{State}
use logger_cpp.Logger.Setup.{configure, get_config}
use logger_cpp.Logger.Setup.Config.{LoggerConfig}
use logger_cpp.Serializer.{Result, ok, error, undefined, JsonLibrary}
use logger_cpp.Serializer.Members.{Field}
use logger_cpp.Configs.{logger_json, logger_fields}
use logger_cpp.Configs.Exposed.{ConfigObject, plain_config, file_config, default_logger_config}

-- What a call comes to: it returns, or throws a text, with the world as it then is; undefined behaviour; or
-- a loop that has used up its fuel.
pub data Ran (W A : Type 0) : Type 0 where
  returns : A → W → Ran W A
  throws : Bytes → W → Ran W A
  crashes : Ran W A
  spins : Ran W A

-- The files and the console. `read_file` is the contents of a file that can be opened, `write_file` opens a file
-- for output and, where that succeeds, puts the text in place of its contents; `rename` may throw.
-- `parse` and `dump` are those of nlohmann::json, the latter with an indentation of 3.
pub record Files (W Json : Type 0) : Type 0 where
  pub exists : Bytes → W → Bool
  pub read_file : Bytes → W → Option Bytes
  pub write_file : Bytes → Bytes → W → Bool × W
  pub rename : Bytes → Bytes → W → Ran W (Unit {0})
  pub cout : Bytes → W → W
  pub parse : Bytes → Result Json
  pub dump : Json → Result Bytes

-- The names that `Backup_config` tries.
abbrev pub corrupted : Bytes → Bytes
corrupted filename = filename ++ codes ".corrupted"

unfoldable pub backup_name : Bytes → ℕ → Bytes
backup_name filename zero = corrupted filename
backup_name filename (suc idx) = corrupted filename ++ to_string idx

-- A target of the default configuration with no settings of its own.
abbrev no_settings : FileSettings
no_settings = record {
  filepath = [];
  filename = [];
  max_filesize_bytes = 0;
  log_frequency = 24;
  log_storage_duration = 30;
  prefix = [];
  suffix = [];
  filename_format = [];
}

unfoldable pub default_config : {W : Type 0} → Platform W → LoggerConfig ConfigObject
default_config platform = record default_logger_config {
  target_configs =
      plain_config (new_config (codes "MssStdOut") [] system_out_target)
      ∷ (file_config (new_file_config platform (codes "MssTraceFile") [] no_settings) ∷ []);
  dispatch_config =
      record {
        level = level_debug;
        kinds = all_set;
        targets = codes "MssStdOut" ∷ (codes "MssTraceFile" ∷ []);
      }
      ∷ [];
}

module _ (J : JsonLibrary) {W T : Type 0} (class : TargetClass W T ConfigObject)
    (platform : Platform W) (files : Files W J.Json) where
  open J use {Json, null, set_member}

  -- The loop of `Backup_config` over the names; `none` stands for the fuel running out.
  unfoldable pub find_name : ℕ → ℕ → Bytes → W → Option Bytes
  find_name zero idx filename w = none
  find_name (suc fuel) idx filename w =
      let rest = find_name fuel (suc idx) filename w in
      if files.exists (backup_name filename idx) w then rest else some (backup_name filename idx)

  unfoldable pub backup_config : ℕ → Bytes → W → Ran W Bytes
  unfolding find_name
  backup_config fuel filename w = elim (find_name fuel 0 filename w) [
    | none ↦ spins
    | some backup ↦ elim (files.rename filename backup w) [
      | returns _ w' ↦ returns backup w'
      | throws what w' ↦ throws what w'
      | crashes ↦ crashes
      | spins ↦ spins
    ]
  ]

  -- The members that are in the serializer when one of them throws.
  unfoldable pub written_before : {C : Type 0} → List (Field J C) → C → Json → Json
  written_before [] c j = j
  written_before (f ∷ fs) c j = elim (f.write c) [
    | ok v ↦ elim (set_member f.name v j) [
      | ok j' ↦ written_before fs c j'
      | error what ↦ j
      | undefined ↦ j
    ]
    | error what ↦ j
    | undefined ↦ j
  ]

  abbrev pub warning : Bytes → Bytes → Bytes → Bytes
  warning doing what filename =
      codes "[WARNING] "
      ++ (doing
          ++ (codes " with error: \""
              ++ (what ++ (codes "\". Renaming \"" ++ (filename ++ codes "\" to \"")))))

  -- A warning to the console in the middle of which the file is renamed; `next` goes on after it.
  unfoldable pub after_backup : Bytes → (W → Ran W (State W T)) → Ran W Bytes → Ran W (State W T)
  after_backup after next (returns name w) =
      next (files.cout (name ++ (codes "\", " ++ (after ++ endl))) w)
  after_backup after next (throws what w) = throws what w
  after_backup after next crashes = crashes
  after_backup after next spins = spins

  unfoldable pub warn_and_backup :
      Bytes → Bytes → Bytes → Bytes → ℕ → (W → Ran W (State W T)) → W → Ran W (State W T)
  unfolding backup_config after_backup
  warn_and_backup doing what after filename fuel next w =
      after_backup after next
        (backup_config fuel filename (files.cout (warning doing what filename) w))

  abbrev pub with_world : State W T → W → State W T
  with_world s w = record s { world = w }

  -- The end of `Save_config`.
  unfoldable pub put_contents : Bytes → Bytes → State W T → W → Ran W (State W T)
  put_contents filename contents s w =
      let (opened, w') = files.write_file filename contents w in
      let failed =
        codes "[WARNING] Save_config could not open config file \""
        ++ (filename ++ (codes "\"" ++ endl)) in
      let saved = codes "Logger configuration saved to " ++ filename in
      let w'' =
        if opened then class.mss level_info (codes "logger") saved w' else files.cout failed w' in
      returns (with_world s w'') w''

  -- A serialization whose exception leaves `Save_config`.
  abbrev pub or_throw : Result Json → (Json → W → Ran W (State W T)) → W → Ran W (State W T)
  or_throw (ok j) next w = next j w
  or_throw (error what) next w = throws what w
  or_throw undefined next w = crashes

  abbrev pub serialize_default : Json → Result Json
  serialize_default j = (logger_json J platform).serialize (default_config platform) j

  -- `Save_config` behind the call of `dump`. Where that throws, the text stays empty.
  unfoldable pub put_dumped : Bytes → ℕ → State W T → Json → Result Bytes → W → Ran W (State W T)
  unfolding warn_and_backup put_contents
  put_dumped filename fuel s j (ok contents) w = put_contents filename contents s w
  put_dumped filename fuel s j (error what) w =
      warn_and_backup (codes "Save_config could not create JSON config") what
        (codes "saving default config") filename fuel
        (or_throw (serialize_default j) (λ j' w'. put_contents filename [] s w')) w
  put_dumped filename fuel s j undefined w = crashes

  abbrev pub dump_and_put : Bytes → ℕ → State W T → Json → W → Ran W (State W T)
  dump_and_put filename fuel s j w = put_dumped filename fuel s j (files.dump j) w

  -- `Save_config` behind the first call of `Serialize`.
  unfoldable pub save_serialized : Bytes → ℕ → State W T → Result Json → Ran W (State W T)
  unfolding put_dumped written_before
  save_serialized filename fuel s (ok j) = dump_and_put filename fuel s j s.world
  save_serialized filename fuel s (error what) =
      let partial = written_before (logger_fields J platform) (get_config class s) null in
      warn_and_backup (codes "Save_config could not serialize config") what
        (codes "saving default config") filename fuel
        (or_throw (serialize_default partial) (dump_and_put filename fuel s)) s.world
  save_serialized filename fuel s undefined = crashes

  -- `Save_config`; the fuel is for `Backup_config`.
  unfoldable pub save_config : ℕ → Bytes → State W T → Ran W (State W T)
  unfolding save_serialized
  save_config fuel filename s =
      save_serialized filename fuel s ((logger_json J platform).serialize (get_config class s) null)

  abbrev pub configured : LoggerConfig ConfigObject → State W T → Ran W (State W T)
  configured config s = let s' = configure class config s in returns s' s'.world

  -- A message, and the default configuration.
  unfoldable pub use_default : Bytes → State W T → W → Ran W (State W T)
  use_default message s w =
      configured (default_config platform) (with_world s (files.cout (message ++ endl) w))

  abbrev pub loaded_text : Bytes → Bytes
  loaded_text filename =
      codes "[INFO] Load_config successfully loaded config file \""
      ++ (filename ++ (codes "\"" ++ endl))

  abbrev pub deserialize_parsed : Result Json → Result (LoggerConfig ConfigObject)
  deserialize_parsed (ok j) = (logger_json J platform).deserialize j default_logger_config
  deserialize_parsed (error what) = error what
  deserialize_parsed undefined = undefined

  -- The `try` of `Load_config` behind the calls of `parse` and `Deserialize`.
  unfoldable pub load_read :
      ℕ → Bytes → State W T → Result (LoggerConfig ConfigObject) → Ran W (State W T)
  unfolding warn_and_backup
  load_read fuel filename s (ok config) =
      let s' = configure class config s in
      let w = files.cout (loaded_text filename) s'.world in returns (with_world s' w) w
  load_read fuel filename s (error what) =
      warn_and_backup (codes "Load_config could not deserialize config file") what
        (codes "configuring using default config") filename fuel
        (λ w. configured (default_config platform) (with_world s w)) s.world
  load_read fuel filename s undefined = crashes

  unfoldable pub load_contents : ℕ → Bytes → Bytes → State W T → Ran W (State W T)
  unfolding load_read
  load_contents fuel filename contents s =
      load_read fuel filename s (deserialize_parsed (files.parse contents))

  -- `Load_config`; `save_global` is `Save_config` of the global logger, which is called on a missing file.
  unfoldable pub load_config :
      (Bytes → State W T → Ran W (State W T)) → ℕ → Bytes → State W T → Ran W (State W T)
  unfolding load_contents use_default
  load_config save_global fuel filename s =
      if not (files.exists filename s.world)
      then elim (use_default
          (codes "[WARNING] Load_config \""
            ++ (filename ++ codes "\" was not found, configuring using default config"))
          s s.world) [
            | returns s' w ↦ save_global filename s'
            | throws what w ↦ throws what w
            | crashes ↦ crashes
            | spins ↦ spins
          ]
      else elim (files.read_file filename s.world) [
        | none ↦
            use_default
              (codes "[WARNING] Load_config could not open config file \""
                ++ (filename ++ codes "\", configuring using default config"))
              s s.world
        | some [] ↦
            use_default
              (codes "[WARNING] Load_config found empty config file \""
                ++ (filename ++ codes "\", configuring using default config"))
              s s.world
        | some (c ∷ contents) ↦ load_contents fuel filename (c ∷ contents) s
      ]
