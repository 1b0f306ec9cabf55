-- ===== src/ConfigFiles/Faults.antt =====
-- `Save_config` where the text form of the configuration cannot be made.
use logger_cpp.Common.{
  ℕ, true, [], ◌++◌, ◌≡◌, refl, ap, ◌∙◌, some, Bytes, codes, if◌then◌else◌, inl, inr,
}
use logger_cpp.Records.{level_info}
use logger_cpp.Target.{TargetClass}
use logger_cpp.Target.Base.{Platform, endl}
use logger_cpp.Target.File.Config.{new_file_config}
use logger_cpp.Logger.{State}
use logger_cpp.Logger.Setup.{get_config}
use logger_cpp.Serializer.{ok, error, JsonLibrary, JsonLaws}
use logger_cpp.Configs.{logger_json}
use logger_cpp.Configs.Exposed.{ConfigObject}
use logger_cpp.Configs.Objects.{IsMatched}
use logger_cpp.Configs.RoundTrip.{IsStorable, logger-Carried}
use logger_cpp.ConfigFiles.{
  Files, returns, save_config, save_serialized, put_dumped, put_contents, with_world, warning,
  warn_and_backup, after_backup, backup_config, or_throw, serialize_default, default_config,
}
use logger_cpp.ConfigFiles.Restored.{FileLaws, get_config-IsStorable}

default_config-IsStorable :
    {W : Type 0} (platform : Platform W) → IsStorable (default_config platform)
unfolding default_config new_file_config
default_config-IsStorable platform = record {
  matched = (inl refl, (refl, tt));
  rising = (((refl, tt), (tt, tt)), tt);
}

module _ (J : JsonLibrary) {W T : Type 0} (class : TargetClass W T ConfigObject)
    (files : Files W J.Json) (laws : JsonLaws J) (platform : Platform W) where
  -- The warning about an exception of `dump`, up to the name of the renamed file and behind it.
  abbrev pub dump_warning : Bytes → Bytes → Bytes
  dump_warning what filename =
      warning J class platform files (codes "Save_config could not create JSON config") what
        filename

  abbrev pub behind_backup : Bytes → Bytes
  behind_backup name = name ++ (codes "\", " ++ (codes "saving default config" ++ endl))

  module _ (filename : Bytes) (file_laws : FileLaws J class files filename) where
    -- Where `dump` throws on the configuration, as for a text that is not valid UTF-8, and the old file could be
    -- renamed: `Save_config` announces the default configuration, and returns with an empty file.
    pub save_config-empties :
        (fuel : ℕ) (s : State W T) (what name : Bytes) (w : W)
        → ((t : T) → IsMatched (class.export_config t))
        → ((j : J.Json)
            → (logger_json J platform).serialize (get_config class s) J.null ≡ ok j
            → files.dump j ≡ error what)
        → backup_config J class platform files fuel filename
            (files.cout (dump_warning what filename) s.world)
          ≡ returns name w
        → (files.write_file filename [] (files.cout (behind_backup name) w)).0 ≡ true
        → (w' : W) × (save_config J class platform files fuel filename s
            ≡ returns (with_world J class platform files s w') w')
          × (files.read_file filename w' ≡ some [])
    unfolding save_config save_serialized put_dumped put_contents warn_and_backup after_backup
    save_config-empties fuel s what name w matched dumps backed opens =
        let c = get_config class s in
        let (j, carried) =
          logger-Carried J laws platform c J.null (get_config-IsStorable class s matched)
            (inl refl) in
        let (d, default) =
          logger-Carried J laws platform (default_config platform) j
            (default_config-IsStorable platform) (inr carried.is_object) in
        let saved = codes "Logger configuration saved to " ++ filename in
        let w2 = files.cout (behind_backup name) w in
        let w3 = (files.write_file filename [] w2).1 in
        let put = λ (j' : J.Json) (v : W). put_contents J class platform files filename [] s v in
        (
          class.mss level_info (codes "logger") saved w3,
          ap (save_serialized J class platform files filename fuel s) carried.serialized
              ∙ ap (λ r. put_dumped J class platform files filename fuel s j r s.world)
                  (dumps j carried.serialized)
              ∙ ap
                  (after_backup J class platform files (codes "saving default config") (λ v.
                    or_throw J class platform files (serialize_default J class platform files j) put
                      v))
                  backed
              ∙ (ap (λ r. or_throw J class platform files r put w2) default.serialized
                  ∙ rw (opens, if◌then◌else◌) refl),
          file_laws.logged_elsewhere level_info (codes "logger") saved w3
              ∙ file_laws.written [] w2 opens,
        )
