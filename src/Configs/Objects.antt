-- ===== src/Configs/Objects.antt =====
-- `TargetConfig` (Logger.cpp) and `FileTargetConfig` (LogTargetFile.cpp) come back from JSON, each through
-- the object that `AllocateFromJSON` makes for its type.
use logger_cpp.Common.{
  ℕ, List, [], ◌∷◌, ◌++◌, ◌≡◌, refl, sym, ap, ◌∙◌, ◌⊎◌, inl, inr, Bytes, codes, true, Option, some,
  arith, if◌then◌else◌,
}
use logger_cpp.Target.{TargetType, system_out_target, system_err_target, file_target}
use logger_cpp.Target.Base.{Platform, TargetConfig}
use logger_cpp.Target.File.Config.{FileTargetConfig}
use logger_cpp.Serializer.{
  Result, ok, ◌>>=◌, ok_injective, json_string, json_number, JsonLibrary, JsonLaws,
}
use logger_cpp.Serializer.Members.{
  Member, field, get_value, Serializable, allocated, text_branch, number_branch, enum_branch,
  read_pointer,
}
use logger_cpp.Serializer.Carried.{
  Plan, Carried, validated-Carried, ComesBack, Distinct, IsWritable, Holds,
}
use logger_cpp.Configs.{
  target_json, file_json, serialize_object, deserialize_object, object_json, allocate,
  allocate_from_json,
}
use logger_cpp.Configs.Exposed.{
  ConfigObject, plain_config, file_config, set_base, target_name_member, format_string_member,
  target_type_member, filepath_member, filename_member, max_filesize_bytes_member,
  log_frequency_member, prefix_member, suffix_member, filename_format_member,
  log_storage_duration_member, default_target_config, default_file_config,
}
use logger_cpp.Configs.Schemas.{type_value, type_named, target_schema, file_schema}
use logger_cpp.Configs.Faithful.{
  plan, Faithful-IsWritable, text-Faithful, number-Faithful, enum-Faithful, type_named-type_value,
}

-- An object is of the class that its type names.
abbrev pub IsMatched : ConfigObject → Type 0
IsMatched (plain_config c) =
    (c.target_type ≡ system_out_target) ⊎ (c.target_type ≡ system_err_target)
IsMatched (file_config c) = c.base.target_type ≡ file_target

module _ (J : JsonLibrary) (laws : JsonLaws J) where
  open J use {Json, null, contains, get_member, get_number, of_number, has_type}

  module _ {C : Type 0} where
    abbrev text_plan : Member C Bytes → Plan J C
    text_plan m = plan J laws m (text_branch J) json_string

    abbrev number_plan : Member C ℕ → Plan J C
    number_plan m = plan J laws m (number_branch J) json_number

    abbrev type_plan : Member C TargetType → Plan J C
    type_plan m = plan J laws m (enum_branch J type_value type_named) json_number

    text_plan-IsWritable : (m : Member C Bytes) (c : C) → IsWritable J c (text_plan m)
    text_plan-IsWritable m c =
        Faithful-IsWritable J laws m (text_branch J) json_string c (text-Faithful J laws (m.get c))

    number_plan-IsWritable : (m : Member C ℕ) (c : C) → IsWritable J c (number_plan m)
    number_plan-IsWritable m c =
        Faithful-IsWritable J laws m (number_branch J) json_number c
          (number-Faithful J laws (m.get c))

    type_plan-IsWritable : (m : Member C TargetType) (c : C) → IsWritable J c (type_plan m)
    type_plan-IsWritable m c =
        Faithful-IsWritable J laws m (enum_branch J type_value type_named) json_number c
          (enum-Faithful J laws type_value type_named (m.get c) (type_named-type_value (m.get c)))

    -- The plans of the members of `TargetConfig`, the first aside.
    abbrev base_rest : (C → TargetConfig) → (TargetConfig → C → C) → List (Plan J C)
    base_rest get set =
        text_plan (format_string_member get set) ∷ (type_plan (target_type_member get set) ∷ [])

  abbrev whole : TargetConfig → TargetConfig
  whole c = c

  abbrev replaced : TargetConfig → TargetConfig → TargetConfig
  replaced b c = b

  plain-Carried :
      (c : TargetConfig)
      → (j : Json) × Carried J
          (target_json J)
          (text_plan (target_name_member whole replaced) ∷ base_rest whole replaced)
          c
          null
          j
  unfolding field
  plain-Carried c =
      validated-Carried J laws (text_plan (target_name_member whole replaced))
        (base_rest whole replaced) ((refl, (refl, tt)), ((refl, tt), (tt, tt))) c
        (
          text_plan-IsWritable (target_name_member whole replaced) c,
          (
            text_plan-IsWritable (format_string_member whole replaced) c,
            (type_plan-IsWritable (target_type_member whole replaced) c, tt),
          ),
        )
        target_schema null
        (
          (refl, (refl, (refl, tt))),
          ((json_string, refl), ((json_string, refl), ((json_number, refl), tt))),
        )
        (inl refl)

  abbrev file_base : FileTargetConfig → TargetConfig
  file_base c = c.base

  abbrev setting_plans : List (Plan J FileTargetConfig)
  setting_plans =
      text_plan filepath_member
      ∷ (text_plan filename_member
          ∷ (number_plan max_filesize_bytes_member
              ∷ (number_plan log_frequency_member
                  ∷ (text_plan prefix_member
                      ∷ (text_plan suffix_member
                          ∷ (text_plan filename_format_member
                              ∷ (number_plan log_storage_duration_member ∷ [])))))))

  abbrev file_rest : List (Plan J FileTargetConfig)
  file_rest = base_rest file_base set_base ++ setting_plans

  file-Distinct : Distinct J (text_plan (target_name_member file_base set_base) ∷ file_rest)
  unfolding field
  file-Distinct = (
    (refl, (refl, (refl, (refl, (refl, (refl, (refl, (refl, (refl, (refl, tt)))))))))),
    (
      (refl, (refl, (refl, (refl, (refl, (refl, (refl, (refl, (refl, tt))))))))),
      (
        (refl, (refl, (refl, (refl, (refl, (refl, (refl, (refl, tt)))))))),
        (
          (refl, (refl, (refl, (refl, (refl, (refl, (refl, tt))))))),
          (
            (refl, (refl, (refl, (refl, (refl, (refl, tt)))))),
            (
              (refl, (refl, (refl, (refl, (refl, tt))))),
              (
                (refl, (refl, (refl, (refl, tt)))),
                ((refl, (refl, (refl, tt))), ((refl, (refl, tt)), ((refl, tt), (tt, tt)))),
              ),
            ),
          ),
        ),
      ),
    ),
  )

  file-Carried :
      (c : FileTargetConfig)
      → (j : Json) × Carried J
          (file_json J)
          (text_plan (target_name_member file_base set_base) ∷ file_rest)
          c
          null
          j
  unfolding field
  file-Carried c =
      validated-Carried J laws (text_plan (target_name_member file_base set_base)) file_rest
        file-Distinct c
        (
          text_plan-IsWritable (target_name_member file_base set_base) c,
          (
            text_plan-IsWritable (format_string_member file_base set_base) c,
            (
              type_plan-IsWritable (target_type_member file_base set_base) c,
              (
                text_plan-IsWritable filepath_member c,
                (
                  text_plan-IsWritable filename_member c,
                  (
                    number_plan-IsWritable max_filesize_bytes_member c,
                    (
                      number_plan-IsWritable log_frequency_member c,
                      (
                        text_plan-IsWritable prefix_member c,
                        (
                          text_plan-IsWritable suffix_member c,
                          (
                            text_plan-IsWritable filename_format_member c,
                            (number_plan-IsWritable log_storage_duration_member c, tt),
                          ),
                        ),
                      ),
                    ),
                  ),
                ),
              ),
            ),
          ),
        )
        file_schema null
        (
          (
            refl,
            (refl, (refl, (refl, (refl, (refl, (refl, (refl, (refl, (refl, (refl, tt)))))))))),
          ),
          (
            (json_string, refl),
            (
              (json_string, refl),
              (
                (json_number, refl),
                (
                  (json_string, refl),
                  (
                    (json_string, refl),
                    (
                      (json_number, refl),
                      (
                        (json_number, refl),
                        ((json_string, refl), ((json_string, refl), ((json_string, refl), tt))),
                      ),
                    ),
                  ),
                ),
              ),
            ),
          ),
        )
        (inl refl)

  -- The number under the key of the type.
  type_plan-number :
      {C : Type 0} (m : Member C TargetType) (c : C) (j : Json)
      → Holds J c j (type_plan m)
      → get_member m.name j ≡ ok (of_number (type_value (m.get c)))
  unfolding field get_value
  type_plan-number m c j (v, has, value, stands) = value ∙ ap ok (sym (ok_injective stands.written))

  module _ {W : Type 0} (platform : Platform W) where
    allocate_from_json-number :
        (j : Json) (n : ℕ)
        → contains (codes "target_type") j ≡ true
        → get_member (codes "target_type") j ≡ ok (of_number n)
        → allocate_from_json J platform j ≡ ok (allocate J platform n)
    unfolding allocate_from_json
    allocate_from_json-number j n has value =
        rw (has, if◌then◌else◌)
          (rw (value, ◌>>=◌) (rw (laws.get_number-of_number n, ◌>>=◌) (ground arith)))

    -- An object comes back through a pointer of its own.
    Carried-ComesBack :
        {C : Type 0} (make : C → ConfigObject) (s : Serializable J C) (new : C) (n : ℕ) (c : C)
        (j : Json)
        → serialize_object J (make c) null ≡ ok j
        → ((d : C) → deserialize_object J j (make d) ≡ ok (make c))
        → contains (codes "target_type") j ≡ true
        → get_member (codes "target_type") j ≡ ok (of_number n)
        → allocate J platform n ≡ some (make new)
        → ComesBack J
            (λ o. (object_json J).serialize o null)
            (read_pointer J (object_json J) (allocate_from_json J platform))
            (make c)
    unfolding read_pointer
    Carried-ComesBack make s new n c j serialized deserialized has value e = (
      j,
      serialized,
      ap (λ (r : Result (Option ConfigObject)). allocated J r >>= λ o. deserialize_object J j o)
            (allocate_from_json-number j n has value ∙ ap ok e)
          ∙ deserialized new,
    )

    plain_type :
        (t : TargetType)
        → (t ≡ system_out_target) ⊎ (t ≡ system_err_target)
        → allocate J platform (type_value t) ≡ some (plain_config default_target_config)
    unfolding allocate
    plain_type t (inl e) = rw e refl
    plain_type t (inr e) = rw e refl

    pub object-ComesBack :
        (o : ConfigObject)
        → IsMatched o
        → ComesBack J
            (λ o. (object_json J).serialize o null)
            (read_pointer J (object_json J) (allocate_from_json J platform))
            o
    unfolding serialize_object deserialize_object allocate field
    object-ComesBack (plain_config c) matched =
        let (j, carried) = plain-Carried c in
        let held = carried.holds.1.1.0 in
        Carried-ComesBack plain_config (target_json J) default_target_config
          (type_value c.target_type) c j carried.serialized
          (λ d. ap (λ r. r >>= λ c'. ok (plain_config c')) (carried.deserialized d)) held.1
          (type_plan-number (target_type_member whole replaced) c j held)
          (plain_type c.target_type matched)
    object-ComesBack (file_config c) matched =
        let (j, carried) = file-Carried c in
        let held = carried.holds.1.1.0 in
        Carried-ComesBack file_config (file_json J) (default_file_config platform)
          (type_value c.base.target_type) c j carried.serialized
          (λ d. ap (λ r. r >>= λ c'. ok (file_config c')) (carried.deserialized d)) held.1
          (type_plan-number (target_type_member file_base set_base) c j held)
          (ap (λ t. allocate J platform (type_value t)) matched)
