-- ===== src/Configs/RoundTrip.antt =====
-- `LoggerConfig` (Source/SharedLibraries/CommonTools/Logger.cpp) comes back from JSON.
use logger_cpp.Common.{List, [], ◌∷◌, ◌≡◌, refl, All}
use logger_cpp.Common.Sets.{IsRising, text_order}
use logger_cpp.Target.Base.{Platform}
use logger_cpp.Logger.Setup.Config.{DispatchEntry, LoggerConfig}
use logger_cpp.Serializer.{ok, json_array, json_boolean, JsonLibrary, JsonLaws, IsContainer}
use logger_cpp.Serializer.Members.{field, bool_branch, values_branch, pointers_branch, read_pointer}
use logger_cpp.Serializer.Carried.{Plan, Carried, validated-Carried, ComesBack}
use logger_cpp.Configs.{entry_json, object_json, allocate_from_json, logger_json}
use logger_cpp.Configs.Exposed.{
  ConfigObject, targets_member, dispatch_member, use_fallback_member, asynchronous_mode_member,
  default_entry,
}
use logger_cpp.Configs.Schemas.{logger_schema}
use logger_cpp.Configs.Faithful.{Faithful, plan, Faithful-IsWritable, bool-Faithful, items-Faithful}
use logger_cpp.Configs.Entries.{entry-ComesBack}
use logger_cpp.Configs.Objects.{IsMatched, object-ComesBack}

-- The sets of names are in order, and each target's object is of the class that its type names.
pub record IsStorable (c : LoggerConfig ConfigObject) : Type 0 where
  pub matched : All IsMatched c.target_configs
  pub rising : All (λ (e : DispatchEntry). IsRising e.targets) c.dispatch_config

All-ComesBack :
    {T : Type 0} (P Q : T → Type 0) (xs : List T) → ((x : T) → P x → Q x) → All P xs → All Q xs
All-ComesBack P Q [] f _ = tt
All-ComesBack P Q (x ∷ xs) f (h, hs) = (f x h, All-ComesBack P Q xs f hs)

module _ (J : JsonLibrary) (laws : JsonLaws J) {W : Type 0} (platform : Platform W) where
  open J use {Json, null}

  targets-Faithful :
      (os : List ConfigObject)
      → All IsMatched os
      → Faithful J laws
          (pointers_branch J (object_json J) (allocate_from_json J platform))
          json_array
          os
  targets-Faithful os matched =
      let write = λ (o : ConfigObject). (object_json J).serialize o null in
      let read = read_pointer J (object_json J) (allocate_from_json J platform) in
      let (v, w, typed, r) = items-Faithful J laws write read os (
        All-ComesBack IsMatched (ComesBack J write read) os (object-ComesBack J laws platform)
          matched) in
      (v, w, typed, λ old. r)

  dispatch-Faithful :
      (es : List DispatchEntry)
      → All (λ (e : DispatchEntry). IsRising e.targets) es
      → Faithful J laws (values_branch J (entry_json J) default_entry) json_array es
  dispatch-Faithful es rising =
      let write = λ (e : DispatchEntry). (entry_json J).serialize e null in
      let read = λ (j : Json). (entry_json J).deserialize j default_entry in
      let (v, w, typed, r) = items-Faithful J laws write read es (
        All-ComesBack (λ (e : DispatchEntry). IsRising e.targets) (ComesBack J write read) es
          (entry-ComesBack J laws) rising) in
      (v, w, typed, λ old. r)

  abbrev pub targets_plan : Plan J (LoggerConfig ConfigObject)
  targets_plan =
      plan J laws targets_member (pointers_branch J (object_json J) (allocate_from_json J platform))
        json_array

  abbrev pub other_plans : List (Plan J (LoggerConfig ConfigObject))
  other_plans =
      plan J laws dispatch_member (values_branch J (entry_json J) default_entry) json_array
      ∷ (plan J laws use_fallback_member (bool_branch J) json_boolean
          ∷ (plan J laws asynchronous_mode_member (bool_branch J) json_boolean ∷ []))

  pub logger-Carried :
      (c : LoggerConfig ConfigObject) (start : Json)
      → IsStorable c
      → IsContainer J start
      → (j : Json) × Carried J (logger_json J platform) (targets_plan ∷ other_plans) c start j
  unfolding field
  logger-Carried c start storable container =
      validated-Carried J laws targets_plan other_plans
        ((refl, (refl, (refl, tt))), ((refl, (refl, tt)), ((refl, tt), (tt, tt)))) c
        (
          Faithful-IsWritable J laws targets_member
              (pointers_branch J (object_json J) (allocate_from_json J platform)) json_array c
              (targets-Faithful c.target_configs storable.matched),
          (
            Faithful-IsWritable J laws dispatch_member
                (values_branch J (entry_json J) default_entry) json_array c
                (dispatch-Faithful c.dispatch_config storable.rising),
            (
              Faithful-IsWritable J laws use_fallback_member (bool_branch J) json_boolean c
                  (bool-Faithful J laws c.use_fallback),
              (
                Faithful-IsWritable J laws asynchronous_mode_member (bool_branch J) json_boolean c
                    (bool-Faithful J laws c.asynchronous_mode),
                tt,
              ),
            ),
          ),
        )
        logger_schema start
        (
          (refl, (refl, (refl, (refl, tt)))),
          (
            (json_array, refl),
            ((json_array, refl), ((json_boolean, refl), ((json_boolean, refl), tt))),
          ),
        )
        container

  -- For every JSON library with the documented behaviour and every configuration of a logger, its sets of names in
  -- order and each target's object of the class that its type names: `Serialize` onto null or any object gives a
  -- JSON value that passes its validation, and `Deserialize` of that value into any configuration passes and
  -- gives the configuration back.
  pub deserialize-serialize :
      (c : LoggerConfig ConfigObject) (start : Json)
      → IsStorable c
      → IsContainer J start
      → (j : Json) × ((logger_json J platform).serialize c start ≡ ok j)
        × ((d : LoggerConfig ConfigObject) → (logger_json J platform).deserialize j d ≡ ok c)
  deserialize-serialize c start storable container =
      let (j, carried) = logger-Carried c start storable container in
      (j, carried.serialized, carried.deserialized)
