-- ===== src/Serializer.antt =====
-- Source/SharedLibraries/CommonTools/include/SerializerJSON.h: the conversion of objects to JSON values and
-- back, over the library for these values (nlohmann::json, and the validator for schemas).
pub mod Members
pub mod Carried
use logger_cpp.Common.{ℕ, Bool, true, false, List, ◌≡◌, refl, ◌⊎◌, Bytes, text_eq, All}

-- What code that may throw a `std::exception` comes to: a value, the text of the exception, or
-- undefined behaviour.
pub data Result (A : Type 0) : Type 0 where
  ok : A → Result A
  error : Bytes → Result A
  undefined : Result A

infixl 5 ◌>>=◌
abbrev pub ◌>>=◌ : {A B : Type 0} → Result A → (A → Result B) → Result B
ok a >>= f = f a
error what >>= f = error what
undefined >>= f = undefined

pub ok_injective : {A : Type 0} {a b : A} → ok a ≡ ok b → a ≡ b
ok_injective e = cc

-- A chain that succeeds has succeeded in both parts.
pub bind_ok :
    {A B : Type 0} (next : A → Result B) {b : B} (first : Result A)
    → (first >>= next) ≡ ok b
    → (a : A) × ((next a ≡ ok b) × (first ≡ ok a))
bind_ok next (ok a) e = (a, (e, refl))
bind_ok next (error what) e = cc
bind_ok next undefined e = cc

pub data JsonType : Type 0 where
  json_object json_array json_string json_number json_boolean : JsonType

-- The schemas of this repository: an object with properties of given types, some of them required.
pub record Schema : Type 0 where
  pub properties : List (Bytes × JsonType)
  pub required : List Bytes

-- `set_member` and `get_member` are `operator[]` with a key, on the left of an assignment and as a value; the
-- `get_…` functions are `get<T>()`; `elements` is what a loop over a value goes through.
-- `validate` is `json_validator::validate` after `set_root_schema`.
pub record JsonLibrary : Type 1 where
  pub Json : Type 0
  pub null : Json
  pub has_type : JsonType → Json → Bool
  pub contains : Bytes → Json → Bool
  pub set_member : Bytes → Json → Json → Result Json
  pub get_member : Bytes → Json → Result Json
  pub array : List Json → Json
  pub elements : Json → List Json
  pub of_text : Bytes → Json
  pub get_text : Json → Result Bytes
  pub of_number : ℕ → Json
  pub get_number : Json → Result ℕ
  pub of_bool : Bool → Json
  pub get_bool : Json → Result Bool
  pub validate : Schema → Json → Result (Unit {0})

module _ (J : JsonLibrary) where
  open J use {
    Json, null, has_type, contains, set_member, get_member, array, elements, of_text, get_text,
    of_number, get_number, of_bool, get_bool, validate,
  }

  -- An object that has the required members, and members of the right types.
  abbrev pub Conforms : Schema → Json → Type 0
  Conforms schema j =
      (has_type json_object j ≡ true)
      × All
          (λ (property : Bytes × JsonType).
            (v : Json)
            → contains property.0 j ≡ true
            → get_member property.0 j ≡ ok v
            → has_type property.1 v ≡ true)
          schema.properties
      × All (λ key. contains key j ≡ true) schema.required

  -- A value to which members can be added.
  abbrev pub IsContainer : Json → Type 0
  IsContainer j = (j ≡ null) ⊎ (has_type json_object j ≡ true)

  -- `j'` is `j` with the value `v` at the key `k`.
  pub record IsSetAt (k : Bytes) (v j j' : Json) : Type 0 where
    pub is_object : has_type json_object j' ≡ true
    pub has_key : contains k j' ≡ true
    pub value : get_member k j' ≡ ok v
    pub other_keys : (k' : Bytes) → text_eq k k' ≡ false → contains k' j' ≡ contains k' j
    pub other_values :
        (k' : Bytes)
        → text_eq k k' ≡ false
        → contains k' j ≡ true
        → get_member k' j' ≡ get_member k' j

  -- The documented behaviour that the code relies on.
  pub record JsonLaws : Type 0 where
    pub set_member-IsSetAt :
        (k : Bytes) (v j : Json)
        → IsContainer j
        → (j' : Json) × (set_member k v j ≡ ok j') × IsSetAt k v j j'
    pub get_text-of_text : (s : Bytes) → get_text (of_text s) ≡ ok s
    pub get_number-of_number : (n : ℕ) → get_number (of_number n) ≡ ok n
    pub get_bool-of_bool : (b : Bool) → get_bool (of_bool b) ≡ ok b
    pub elements-array : (js : List Json) → elements (array js) ≡ js
    pub of_text_type : (s : Bytes) → has_type json_string (of_text s) ≡ true
    pub of_number_type : (n : ℕ) → has_type json_number (of_number n) ≡ true
    pub of_bool_type : (b : Bool) → has_type json_boolean (of_bool b) ≡ true
    pub array_type : (js : List Json) → has_type json_array (array js) ≡ true
    pub validate-Conforms :
        (schema : Schema) (j : Json) → Conforms schema j → validate schema j ≡ ok tt
    pub validate-fails :
        (schema : Schema) (j : Json)
        → ¬ Conforms schema j
        → (reason : Bytes) × (validate schema j ≡ error reason)
