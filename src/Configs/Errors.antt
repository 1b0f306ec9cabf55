-- ===== src/Configs/Errors.antt =====
-- What the reading of a configuration does with values that are not as they should be.
use logger_cpp.Common.{
  ℕ, true, false, List, ◌∷◌, ◌++◌, ◌≡◌, refl, ap, ◌∙◌, Bytes, codes, ◌≤◌, none, arith,
  if◌then◌else◌, Bool-cases, inl, inr,
}
use logger_cpp.Target.Base.{Platform}
use logger_cpp.Logger.Setup.Config.{LoggerConfig}
use logger_cpp.Serializer.{
  Result, ok, error, undefined, ◌>>=◌, json_object, Schema, JsonLibrary, JsonLaws, Conforms,
}
use logger_cpp.Serializer.Members.{
  Field, field, read_member, read_members, validate_with, validated, rethrow, read_items,
  read_pointer,
}
use logger_cpp.Serializer.Carried.{validate_with-ok}
use logger_cpp.Configs.{logger_json, logger_fields, allocate, allocate_from_json, object_json}
use logger_cpp.Configs.Exposed.{ConfigObject}
use logger_cpp.Configs.Schemas.{logger_schema}

module _ (J : JsonLibrary) (laws : JsonLaws J) where
  open J use {Json, null, has_type, contains, get_member, get_number, elements, validate}

  -- For every class whose reading is validated: a value that does not conform to the schema changes no
  -- object; the text of the exception is that of the validator behind the prefix of this code.
  deserialize-fails :
      {T : Type 0} (schema : Schema) (fields : List (Field J T)) (j : Json) (d : T)
      → ¬ Conforms J schema j
      → (reason : Bytes) × (validate schema j ≡ error reason)
        × ((validated J schema fields).deserialize j d
            ≡ error (codes "[WARNING] validation failed: " ++ reason))
  unfolding validated validate_with
  deserialize-fails schema fields j d bad =
      let (reason, e) = laws.validate-fails schema j bad in
      (
        reason,
        e,
        ap
            (λ (r : Result (Unit {0})). rethrow J (
              (elim r [
                | ok _ ↦ ok tt
                | error what ↦ error (codes "[WARNING] validation failed: " ++ what)
                | undefined ↦ undefined
              ])
              >>= λ _. read_members J fields j d))
            e,
      )

  -- An element of `targets` for which `AllocateFromJSON` makes no object: an object without the key of the
  -- type, or with a number that names no type that can be made.
  pub data IsUnmade (e : Json) : Type 0 where
    no_type : has_type json_object e ≡ true → contains (codes "target_type") e ≡ false → IsUnmade e
    unknown_type :
        (v : Json) (n : ℕ)
        → contains (codes "target_type") e ≡ true
        → get_member (codes "target_type") e ≡ ok v
        → get_number v ≡ ok n
        → 3 ≤ n
        → IsUnmade e

  module _ {W : Type 0} (platform : Platform W) where
    allocate-none : (n : ℕ) → 3 ≤ n → allocate J platform n ≡ none
    unfolding allocate
    allocate-none n h = ground arith

    read_pointer-undefined :
        (e : Json)
        → IsUnmade e
        → read_pointer J (object_json J) (allocate_from_json J platform) e ≡ undefined
    unfolding read_pointer allocate_from_json
    read_pointer-undefined e (no_type o missing) = rw o (rw missing refl)
    read_pointer-undefined e (unknown_type v n has value number large) =
        rw has (elim (Bool-cases (has_type json_object e)) [
          | inl o ↦ rw o (rw (value, ◌>>=◌) (rw (number, ◌>>=◌) (rw (allocate-none n large) refl)))
          | inr o ↦ rw o (rw (value, ◌>>=◌) (rw (number, ◌>>=◌) (rw (allocate-none n large) refl)))
        ])

    -- For every value that conforms to the schema of `LoggerConfig` and whose first target has no type, or
    -- one that cannot be made: `Deserialize` goes through a null pointer, or a key that is not there, before
    -- it validates the target. No exception tells of it.
    pub deserialize-undefined :
        (j ts e : Json) (es : List Json) (d : LoggerConfig ConfigObject)
        → Conforms J logger_schema j
        → get_member (codes "targets") j ≡ ok ts
        → elements ts ≡ e ∷ es
        → IsUnmade e
        → (logger_json J platform).deserialize j d ≡ undefined
    unfolding validated read_members read_member field read_items
    deserialize-undefined j ts e es d conforms targets first unmade =
        let has : contains (codes "targets") j ≡ true = conforms.2.0 in
        let valid =
          validate_with-ok J logger_schema j (laws.validate-Conforms logger_schema j conforms) in
        ap (λ r. rethrow J (r >>= λ _. read_members J (logger_fields J platform) j d)) valid
        ∙ rw (has, if◌then◌else◌)
            (rw (targets, ◌>>=◌) (rw first (rw (read_pointer-undefined e unmade, ◌>>=◌) refl)))
