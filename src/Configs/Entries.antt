-- ===== src/Configs/Entries.antt =====
-- `LogKindSet` and `DispatchEntry` (Logger.cpp) come back from JSON.
use logger_cpp.Common.{List, [], ◌∷◌, refl, inl}
use logger_cpp.Common.Sets.{IsRising, text_order}
use logger_cpp.Kinds.{LogKindSet}
use logger_cpp.Records.{level_value}
use logger_cpp.Logger.Setup.Config.{DispatchEntry}
use logger_cpp.Serializer.{json_object, json_array, json_number, JsonLibrary, JsonLaws}
use logger_cpp.Serializer.Members.{field, number_branch, enum_branch, value_branch, texts_branch}
use logger_cpp.Serializer.Carried.{Plan, Carried, validated-Carried, unvalidated-Carried, ComesBack}
use logger_cpp.Configs.{kinds_json, entry_json}
use logger_cpp.Configs.Exposed.{
  bits_member, level_member, kinds_member, entry_targets_member, default_entry,
}
use logger_cpp.Configs.Schemas.{level_named, entry_schema}
use logger_cpp.Configs.Faithful.{
  Faithful, plan, Faithful-IsWritable, number-Faithful, enum-Faithful, texts-Faithful,
  value-Faithful, level_named-level_value,
}

module _ (J : JsonLibrary) (laws : JsonLaws J) where
  open J use {Json, null}

  abbrev bits_plan : Plan J LogKindSet
  bits_plan = plan J laws bits_member (number_branch J) json_number

  kinds-Faithful : (k : LogKindSet) → Faithful J laws (value_branch J (kinds_json J)) json_object k
  kinds-Faithful k =
      let writable =
        Faithful-IsWritable J laws bits_member (number_branch J) json_number k
          (number-Faithful J laws k.bits) in
      value-Faithful J laws (kinds_json J) bits_plan [] k (λ d. refl)
        (unvalidated-Carried J laws bits_plan [] (tt, tt) k (writable, tt))

  abbrev level_plan : Plan J DispatchEntry
  level_plan = plan J laws level_member (enum_branch J level_value level_named) json_number

  abbrev rest_plans : List (Plan J DispatchEntry)
  rest_plans =
      plan J laws kinds_member (value_branch J (kinds_json J)) json_object
      ∷ (plan J laws entry_targets_member (texts_branch J) json_array ∷ [])

  entry-Carried :
      (e : DispatchEntry)
      → IsRising e.targets
      → (j : Json) × Carried J (entry_json J) (level_plan ∷ rest_plans) e null j
  unfolding field
  entry-Carried e rising =
      validated-Carried J laws level_plan rest_plans ((refl, (refl, tt)), ((refl, tt), (tt, tt))) e
        (
          Faithful-IsWritable J laws level_member (enum_branch J level_value level_named)
              json_number e
              (enum-Faithful J laws level_value level_named e.level
                (level_named-level_value e.level)),
          (
            Faithful-IsWritable J laws kinds_member (value_branch J (kinds_json J)) json_object e
                (kinds-Faithful e.kinds),
            (
              Faithful-IsWritable J laws entry_targets_member (texts_branch J) json_array e
                  (texts-Faithful J laws e.targets rising),
              tt,
            ),
          ),
        )
        entry_schema null
        (
          (refl, (refl, (refl, tt))),
          ((json_number, refl), ((json_object, refl), ((json_array, refl), tt))),
        )
        (inl refl)

  pub entry-ComesBack :
      (e : DispatchEntry)
      → IsRising e.targets
      → ComesBack J
          (λ e. (entry_json J).serialize e null)
          (λ j. (entry_json J).deserialize j default_entry)
          e
  entry-ComesBack e rising =
      let (j, c) = entry-Carried e rising in (j, c.serialized, c.deserialized default_entry)
