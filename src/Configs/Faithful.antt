-- ===== src/Configs/Faithful.antt =====
-- What the branches for the types of members write is read as the same value.
use logger_cpp.Common.{
  ℕ, Bool, true, false, List, [], ◌∷◌, ◌++◌, ◌≡◌, refl, sym, ap, ◌∙◌, subst, inl, inr, Bytes, All,
  Option, some, Bool-cases, append_assoc, append-nil,
}
use logger_cpp.Common.Sets.{insert, text_order, text_ltb, IsRising}
use logger_cpp.Records.{
  LogLevel, level_debug, level_info, level_warning, level_error, level_critical, level_fatal,
  log_level_count, level_value,
}
use logger_cpp.Target.{
  TargetType, system_out_target, system_err_target, file_target, log_target_count,
}
use logger_cpp.Serializer.{
  Result, ok, ◌>>=◌, JsonType, json_object, json_array, json_string, json_number, json_boolean,
  JsonLibrary, JsonLaws,
}
use logger_cpp.Serializer.Members.{
  Member, Branch, field, get_value, set_value, text_branch, number_branch, bool_branch, enum_branch,
  value_branch, texts_branch, write_items, read_inserted, read_items, Serializable,
}
use logger_cpp.Serializer.Carried.{
  Plan, IsWritable, Carried, transfer_all, ComesBack, read_items-write_items,
}
use logger_cpp.Configs.Schemas.{level_named, type_value, type_named}

pub level_named-level_value : (l : LogLevel) → level_named (level_value l) ≡ some l
level_named-level_value level_debug = refl
level_named-level_value level_info = refl
level_named-level_value level_warning = refl
level_named-level_value level_error = refl
level_named-level_value level_critical = refl
level_named-level_value level_fatal = refl
level_named-level_value log_level_count = refl

pub type_named-type_value : (t : TargetType) → type_named (type_value t) ≡ some t
type_named-type_value system_out_target = refl
type_named-type_value system_err_target = refl
type_named-type_value file_target = refl
type_named-type_value log_target_count = refl

-- Insertion of a text that comes last.
pub insert-last :
    (s : Bytes) (front : List Bytes)
    → All (λ t. text_ltb t s ≡ true) front
    → insert s front ≡ front ++ s ∷ []
unfolding insert
insert-last s [] _ = refl
insert-last s (t ∷ ts) (h, hs) =
    let back : text_ltb s t ≡ false = elim (Bool-cases (text_ltb s t)) [
      | inl e ↦ absurd (never e)
      | inr e ↦ e
    ] in
    rw back (rw h (ap (◌∷◌ t) (insert-last s ts hs)))
  where
    never : text_ltb s t ≡ true → ⊥
    never e = let loop = text_order.transitive t s t h e in cc (loop, text_order.irreflexive t)

pub rising-last :
    (s : Bytes) (front back : List Bytes)
    → IsRising (front ++ s ∷ back)
    → All (λ t. text_ltb t s ≡ true) front
rising-last s [] back h = tt
rising-last s (t ∷ ts) back (h, hs) = (middle ts h, rising-last s ts back hs)
  where
    middle :
        (us : List Bytes) → All (λ u. text_ltb t u ≡ true) (us ++ s ∷ back) → text_ltb t s ≡ true
    middle [] (here, rest) = here
    middle (u ∷ us) (skip, rest) = middle us rest

module _ (J : JsonLibrary) (laws : JsonLaws J) where
  open J use {
    Json, null, has_type, elements, array, of_text, get_text, of_number, get_number, of_bool,
    get_bool,
  }

  -- The branch for a type writes a value that it reads as `x`, whatever the old value.
  abbrev pub Faithful : {T : Type 0} → Branch J T → JsonType → T → Type 0
  Faithful {T} b type x =
      (v : Json) × (b.write x ≡ ok v) × (has_type type v ≡ true) × ((old : T) → b.read v old ≡ ok x)

  pub text-Faithful : (s : Bytes) → Faithful (text_branch J) json_string s
  text-Faithful s = (of_text s, refl, laws.of_text_type s, λ old. laws.get_text-of_text s)

  pub number-Faithful : (n : ℕ) → Faithful (number_branch J) json_number n
  number-Faithful n = (of_number n, refl, laws.of_number_type n, λ old. laws.get_number-of_number n)

  pub bool-Faithful : (b : Bool) → Faithful (bool_branch J) json_boolean b
  bool-Faithful b = (of_bool b, refl, laws.of_bool_type b, λ old. laws.get_bool-of_bool b)

  pub enum-Faithful :
      {T : Type 0} (number : T → ℕ) (named : ℕ → Option T) (x : T)
      → named (number x) ≡ some x
      → Faithful (enum_branch J number named) json_number x
  enum-Faithful number named x e = (
    of_number (number x),
    refl,
    laws.of_number_type (number x),
    λ old. rw (laws.get_number-of_number (number x), ◌>>=◌) (rw e refl),
  )

  -- A member with its branch, as a plan.
  abbrev pub plan : {C T : Type 0} → Member C T → Branch J T → JsonType → Plan J C
  plan m b type = record { member = field J m b; type = type; transfer = λ c d. m.set (m.get c) d }

  pub Faithful-IsWritable :
      {C T : Type 0} (m : Member C T) (b : Branch J T) (type : JsonType) (c : C)
      → Faithful b type (m.get c)
      → IsWritable J c (plan m b type)
  unfolding field get_value set_value
  Faithful-IsWritable m b type c (v, w, typed, r) =
      (v, record { written = w; typed = typed; read_back = λ d. rw (r (m.get d), ◌>>=◌) refl })

  -- A set of strings, in rising order.
  read_inserted-write_items :
      (xs acc : List Bytes)
      → IsRising (acc ++ xs)
      → (js : List Json) × (write_items J (λ s. ok (of_text s)) xs ≡ ok js)
        × (read_inserted J js acc ≡ ok (acc ++ xs))
  unfolding write_items read_inserted
  read_inserted-write_items [] acc rising = ([], refl, ap ok (sym (append-nil acc)))
  read_inserted-write_items (x ∷ xs) acc rising =
      let here = insert-last x acc (rising-last x acc xs rising) in
      let regroup = append_assoc acc (x ∷ []) xs in
      let (js, w, r) =
        read_inserted-write_items xs (acc ++ x ∷ []) (subst IsRising (sym regroup) rising) in
      (
        of_text x ∷ js,
        rw (w, ◌>>=◌) refl,
        rw (laws.get_text-of_text x, ◌>>=◌) (ap (read_inserted J js) here ∙ (r ∙ ap ok regroup)),
      )

  pub texts-Faithful : (xs : List Bytes) → IsRising xs → Faithful (texts_branch J) json_array xs
  texts-Faithful xs rising =
      let (js, w, r) = read_inserted-write_items xs [] rising in
      (
        array js,
        rw (w, ◌>>=◌) refl,
        laws.array_type js,
        λ old. ap (λ es. read_inserted J es []) (laws.elements-array js) ∙ r,
      )

  -- A value that `Deserialize` takes over whole.
  pub value-Faithful :
      {T : Type 0} (s : Serializable J T) (p : Plan J T) (ps : List (Plan J T)) (x : T)
      → ((d : T) → transfer_all J (p ∷ ps) x d ≡ x)
      → (j : Json) × Carried J s (p ∷ ps) x null j
      → Faithful (value_branch J s) json_object x
  value-Faithful s p ps x whole (j, c) =
      (j, c.serialized, c.is_object, λ old. c.deserialized old ∙ ap ok (whole old))

  -- A vector of such values.
  pub items-Faithful :
      {T : Type 0} (write : T → Result Json) (read : Json → Result T) (xs : List T)
      → All (ComesBack J write read) xs
      → (v : Json) × ((write_items J write xs >>= λ js. ok (array js)) ≡ ok v)
        × (has_type json_array v ≡ true)
        × (read_items J read (elements v) [] ≡ ok xs)
  items-Faithful write read xs back =
      let (js, w, r) = read_items-write_items J write read xs [] back in
      (
        array js,
        rw (w, ◌>>=◌) refl,
        laws.array_type js,
        ap (λ es. read_items J read es []) (laws.elements-array js) ∙ r,
      )
