-- ===== src/ConfigFiles/Restored.antt =====
-- A configuration that `Save_config` has put into a file is what `Load_config` configures a logger with.
use logger_cpp.Common.{
  ℕ, true, List, [], ◌∷◌, ◌++◌, ◌≡◌, ◌≢◌, refl, ap, ◌∙◌, some, Bytes, codes, All, map,
  if◌then◌else◌, inl,
}
use logger_cpp.Common.Sets.{IsRising, text_order, insert_all-IsRising}
use logger_cpp.Records.{LogLevel, level_info}
use logger_cpp.Target.{TargetClass}
use logger_cpp.Target.Base.{Platform}
use logger_cpp.Logger.{State, Slot, DispatchKey}
use logger_cpp.Logger.Setup.{configure, get_config, export_entry, target_names}
use logger_cpp.Logger.Setup.Config.{DispatchEntry, LoggerConfig}
use logger_cpp.Serializer.{ok, JsonLibrary, JsonLaws}
use logger_cpp.Configs.{logger_json}
use logger_cpp.Configs.Exposed.{ConfigObject, default_logger_config}
use logger_cpp.Configs.Objects.{IsMatched}
use logger_cpp.Configs.RoundTrip.{IsStorable, deserialize-serialize}
use logger_cpp.ConfigFiles.{
  Files, Ran, returns, save_config, load_config, load_contents, put_dumped, put_contents,
  save_serialized, load_read, deserialize_parsed, with_world, loaded_text,
}

module _ {W T : Type 0} (class : TargetClass W T ConfigObject) where
  exported-IsRising :
      (s : State W T) (keys : List DispatchKey)
      → All (λ (e : DispatchEntry). IsRising e.targets) (map (export_entry class s) keys)
  unfolding export_entry target_names
  exported-IsRising s [] = tt
  exported-IsRising s (key ∷ keys) = (
    insert_all-IsRising (map (λ a. class.get_target_name (s.heap a)) key.targets) [] tt,
    exported-IsRising s keys,
  )

  exported-IsMatched :
      (s : State W T) (slots : List Slot)
      → ((t : T) → IsMatched (class.export_config t))
      → All IsMatched (map (λ slot. class.export_config (s.heap slot.target)) slots)
  exported-IsMatched s [] h = tt
  exported-IsMatched s (slot ∷ slots) h = (h (s.heap slot.target), exported-IsMatched s slots h)

  pub get_config-IsStorable :
      (s : State W T)
      → ((t : T) → IsMatched (class.export_config t))
      → IsStorable (get_config class s)
  unfolding get_config
  get_config-IsStorable s h = record {
    matched = exported-IsMatched s s.targets h;
    rising = exported-IsRising s s.dispatch_keys;
  }

module _ (J : JsonLibrary) {W T : Type 0} (class : TargetClass W T ConfigObject)
    (files : Files W J.Json) where
  -- The documented behaviour of the files and of the text form, for a file that no message is logged to.
  pub record FileLaws (filename : Bytes) : Type 0 where
    pub written :
        (text : Bytes) (w : W)
        → (files.write_file filename text w).0 ≡ true
        → files.read_file filename (files.write_file filename text w).1 ≡ some text
    pub readable-exists :
        (text : Bytes) (w : W)
        → files.read_file filename w ≡ some text
        → files.exists filename w ≡ true
    pub logged_elsewhere :
        (level : LogLevel) (entity message : Bytes) (w : W)
        → files.read_file filename (class.mss level entity message w) ≡ files.read_file filename w
    pub parse-dump : (j : J.Json) (text : Bytes) → files.dump j ≡ ok text → files.parse text ≡ ok j
    pub dump_nonempty : (j : J.Json) → files.dump j ≢ ok []

  module _ (laws : JsonLaws J) (platform : Platform W) (filename : Bytes)
      (file_laws : FileLaws filename) where
    load_config-saved :
        (save_global : Bytes → State W T → Ran W (State W T)) (fuel : ℕ) (j : J.Json) (text : Bytes)
        (c : LoggerConfig ConfigObject) (t : State W T)
        → files.dump j ≡ ok text
        → files.read_file filename t.world ≡ some text
        → (logger_json J platform).deserialize j default_logger_config ≡ ok c
        → load_config J class platform files save_global fuel filename t ≡ (
            let t' = configure class c t in
            let w = files.cout (loaded_text J class platform files filename) t'.world in
            returns (with_world J class platform files t' w) w)
    unfolding load_config load_contents load_read
    load_config-saved save_global fuel j [] c t dumped held read =
        absurd (file_laws.dump_nonempty j dumped)
    load_config-saved save_global fuel j (b ∷ text) c t dumped held read =
        rw (file_laws.readable-exists (b ∷ text) t.world held, if◌then◌else◌)
          (rw held (
            ap
              (λ r.
                load_read J class platform files fuel filename t
                  (deserialize_parsed J class platform files r))
              (file_laws.parse-dump j (b ∷ text) dumped)
            ∙ ap (load_read J class platform files fuel filename t) read))

    -- For every JSON library, file system and class of targets with the documented behaviour, whose targets export
    -- configurations of the class that their type names: where the configuration of a logger has a
    -- text form and the file can be opened, `Save_config` writes it, and `Load_config` of the file by any logger
    -- then configures that logger with the configuration of the first.
    pub load_config-save_config :
        (save_global : Bytes → State W T → Ran W (State W T)) (fuel fuel' : ℕ) (s : State W T)
        (text : Bytes)
        → ((t : T) → IsMatched (class.export_config t))
        → ((j : J.Json)
            → (logger_json J platform).serialize (get_config class s) J.null ≡ ok j
            → files.dump j ≡ ok text)
        → (files.write_file filename text s.world).0 ≡ true
        → (w : W) × (save_config J class platform files fuel filename s
            ≡ returns (with_world J class platform files s w) w)
          × ((t : State W T)
              → load_config J class platform files save_global fuel' filename
                  (with_world J class platform files t w)
                ≡ (let t' =
                      configure class
                        (get_config class s)
                        (with_world J class platform files t w) in
                    let w' = files.cout (loaded_text J class platform files filename) t'.world in
                    returns (with_world J class platform files t' w') w'))
    unfolding save_config save_serialized put_dumped put_contents
    load_config-save_config save_global fuel fuel' s text matched dumps opens =
        let c = get_config class s in
        let (j, serialized, deserialized) =
          deserialize-serialize J laws platform c J.null (get_config-IsStorable class s matched)
            (inl refl) in
        let dumped = dumps j serialized in
        let saved = codes "Logger configuration saved to " ++ filename in
        let w' = (files.write_file filename text s.world).1 in
        let w = class.mss level_info (codes "logger") saved w' in
        let held : files.read_file filename w ≡ some text =
          file_laws.logged_elsewhere level_info (codes "logger") saved w'
          ∙ file_laws.written text s.world opens in
        (
          w,
          ap (save_serialized J class platform files filename fuel s) serialized
              ∙ ap (λ r. put_dumped J class platform files filename fuel s j r s.world) dumped
              ∙ rw (opens, if◌then◌else◌) refl,
          λ t.
              load_config-saved save_global fuel' j text c (with_world J class platform files t w)
                dumped held (deserialized default_logger_config),
        )
