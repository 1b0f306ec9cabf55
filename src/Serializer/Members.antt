-- ===== src/Serializer/Members.antt =====
-- The operators `<<` and `>>` of `JSONSerializer` (include/SerializerJSON.h of
-- Source/SharedLibraries/CommonTools) on members, objects, collections and pointers.
use logger_cpp.Common.{
  ℕ, Bool, List, [], ◌∷◌, ◌++◌, Bytes, codes, if◌then◌else◌, Option, none, some,
}
use logger_cpp.Common.Sets.{insert, text_order}
use logger_cpp.Serializer.{Result, ok, error, undefined, ◌>>=◌, Schema, JsonLibrary}

-- `Member`, whose instance may be missing. The filters are those that `member` puts in.
pub record Member (Class T : Type 0) : Type 0 where
  pub name : Bytes
  pub get : Class → T
  pub set : T → Class → Class

unfoldable pub get_value : {Class T : Type 0} → Member Class T → Option Class → Result T
get_value m none = error (codes "no instance")
get_value m (some instance') = ok (m.get instance')

unfoldable pub set_value : {Class T : Type 0} → Member Class T → T → Option Class → Result Class
set_value m value none = error (codes "no instance")
set_value m value (some instance') = ok (m.set value instance')

module _ (J : JsonLibrary) where
  open J use {
    Json, null, has_type, contains, set_member, get_member, array, elements, of_text, get_text,
    of_number, get_number, of_bool, get_bool, validate,
  }

  -- The branch of the two operators for a type: what is stored under the name of a member, and the
  -- value that is set, given the old one.
  pub record Branch (T : Type 0) : Type 0 where
    pub write : T → Result Json
    pub read : Json → T → Result T

  -- A member with the branch for its type.
  pub record Field (Class : Type 0) : Type 0 where
    pub name : Bytes
    pub write : Class → Result Json
    pub read : Json → Class → Result Class

  unfoldable pub field : {Class T : Type 0} → Member Class T → Branch T → Field Class
  unfolding get_value set_value
  field m branch = record {
    name = m.name;
    write = λ c. get_value m (some c) >>= branch.write;
    read = λ j c. do
      old ← get_value m (some c)
      v ← branch.read j old
      set_value m v (some c);
  }

  -- `operator>>` of a member: a key that is not there leaves the member as it is.
  unfoldable pub read_member : {Class : Type 0} → Field Class → Json → Class → Result Class
  read_member f j c = if contains f.name j then (get_member f.name j >>= λ v. f.read v c) else ok c

  -- `operator<<` and `operator>>` of an object: each member in turn.
  unfoldable pub write_members : {Class : Type 0} → List (Field Class) → Class → Json → Result Json
  write_members [] c j = ok j
  write_members (f ∷ fs) c j = do v ← f.write c; j' ← set_member f.name v j; write_members fs c j'

  unfoldable pub read_members : {Class : Type 0} → List (Field Class) → Json → Class → Result Class
  unfolding read_member
  read_members [] j c = ok c
  read_members (f ∷ fs) j c = do c' ← read_member f j c; read_members fs j c'

  -- Strings, numbers and enumerations, booleans.
  abbrev pub text_branch : Branch Bytes
  text_branch = record { write = λ s. ok (of_text s); read = λ j old. get_text j }

  abbrev pub number_branch : Branch ℕ
  number_branch = record { write = λ n. ok (of_number n); read = λ j old. get_number j }

  abbrev pub bool_branch : Branch Bool
  bool_branch = record { write = λ b. ok (of_bool b); read = λ j old. get_bool j }

  -- An enumeration is its number. A number that names no enumerator is undefined behaviour here.
  abbrev of_option : {T : Type 0} → Option T → Result T
  of_option none = undefined
  of_option (some v) = ok v

  abbrev pub enum_branch : {T : Type 0} → (T → ℕ) → (ℕ → Option T) → Branch T
  enum_branch number named = record {
    write = λ v. ok (of_number (number v));
    read = λ j old. get_number j >>= λ n. of_option (named n);
  }

  -- A serializable value: `Serialize` and `Deserialize` on a serializer of its own.
  pub record Serializable (T : Type 0) : Type 0 where
    pub serialize : T → Json → Result Json
    pub deserialize : Json → T → Result T

  abbrev pub value_branch : {T : Type 0} → Serializable T → Branch T
  value_branch s = record { write = λ v. s.serialize v null; read = s.deserialize }

  -- `operator<<` of a collection: each item by a serializer of its own.
  unfoldable pub write_items : {T : Type 0} → (T → Result Json) → List T → Result (List Json)
  write_items write [] = ok []
  write_items write (x ∷ xs) = do j ← write x; js ← write_items write xs; ok (j ∷ js)

  -- The loops of `operator>>` over the elements, with `push_back` or `insert` into the new range.
  unfoldable pub read_items :
      {T : Type 0} → (Json → Result T) → List Json → List T → Result (List T)
  read_items read [] new_range = ok new_range
  read_items read (j ∷ js) new_range = do x ← read j; read_items read js (new_range ++ x ∷ [])

  unfoldable pub read_inserted : List Json → List Bytes → Result (List Bytes)
  read_inserted [] new_range = ok new_range
  read_inserted (j ∷ js) new_range = do x ← get_text j; read_inserted js (insert x new_range)

  -- A vector of serializable values, each read into a new one.
  abbrev pub values_branch : {T : Type 0} → Serializable T → T → Branch (List T)
  values_branch s new = record {
    write = λ xs. write_items (λ x. s.serialize x null) xs >>= λ js. ok (array js);
    read = λ j old. read_items (λ e. s.deserialize e new) (elements j) [];
  }

  -- A vector of shared pointers to serializable values, each allocated by `AllocateFromJSON`: a null pointer
  -- is then used. Pointers that are written are not null.
  abbrev pub allocated : {T : Type 0} → Result (Option T) → Result T
  allocated (ok none) = undefined
  allocated (ok (some v)) = ok v
  allocated (error what) = error what
  allocated undefined = undefined

  unfoldable pub read_pointer :
      {T : Type 0} → Serializable T → (Json → Result (Option T)) → Json → Result T
  read_pointer s allocate_from_json j = do
    new_value ← allocated (allocate_from_json j)
    s.deserialize j new_value

  abbrev pub pointers_branch :
      {T : Type 0} → Serializable T → (Json → Result (Option T)) → Branch (List T)
  pointers_branch s allocate_from_json = record {
    write = λ xs. write_items (λ x. s.serialize x null) xs >>= λ js. ok (array js);
    read = λ j old. read_items (read_pointer s allocate_from_json) (elements j) [];
  }

  -- A set of strings.
  abbrev pub texts_branch : Branch (List Bytes)
  texts_branch = record {
    write = λ xs. write_items (λ s. ok (of_text s)) xs >>= λ js. ok (array js);
    read = λ j old. read_inserted (elements j) [];
  }

  -- `catch (const std::exception& e) { throw std::runtime_error(std::string(e.what())); }`.
  abbrev pub rethrow : {A : Type 0} → Result A → Result A
  rethrow (ok a) = ok a
  rethrow (error what) = error what
  rethrow undefined = undefined

  -- The `Validate` of a configuration with a schema.
  unfoldable pub validate_with : Schema → Json → Result (Unit {0})
  validate_with schema j = elim (validate schema j) [
    | ok _ ↦ ok tt
    | error what ↦ error (codes "[WARNING] validation failed: " ++ what)
    | undefined ↦ undefined
  ]

  -- `Serialize` and `Deserialize` of a configuration: it validates what it has written, and what it is
  -- about to read.
  unfoldable pub validated : {T : Type 0} → Schema → List (Field T) → Serializable T
  unfolding write_members read_members validate_with
  validated schema fields = record {
    serialize =
        λ c j. rethrow (do j' ← write_members fields c j; valid ← validate_with schema j'; ok j');
    deserialize = λ j c. rethrow (do valid ← validate_with schema j; read_members fields j c);
  }

  -- Those of `LogKindSet`, without a schema.
  unfoldable pub unvalidated : {T : Type 0} → List (Field T) → Serializable T
  unfolding write_members read_members
  unvalidated fields = record {
    serialize = write_members fields;
    deserialize = read_members fields;
  }
