-- ===== src/Serializer/Carried.antt =====
-- What `<<` puts into a JSON value, `>>` takes out of it again.
use logger_cpp.Common.{
  true, false, List, [], ◌∷◌, ◌++◌, ◌≡◌, ◌≢◌, refl, sym, ap, ◌∙◌, subst, ◌⊎◌, inl, inr, Bytes, All,
  Option, none, some, text_eq, text_eq_sound, if◌then◌else◌, Bool-cases, append_assoc, append-nil,
  arith,
}
use logger_cpp.Serializer.{
  Result, ok, ◌>>=◌, ok_injective, JsonType, json_object, Schema, JsonLibrary, JsonLaws, Conforms,
  IsContainer,
}
use logger_cpp.Serializer.Members.{
  Field, Serializable, write_members, read_members, read_member, validate_with, validated,
  unvalidated, rethrow, write_items, read_items,
}

module _ (J : JsonLibrary) where
  open J use {Json, null, has_type, contains, set_member, get_member, validate}

  -- A member with the type of its JSON value, and the member brought from one object to another.
  pub record Plan (C : Type 0) : Type 0 where
    pub member : Field J C
    pub type : JsonType
    pub transfer : C → C → C

  abbrev pub name_of : {C : Type 0} → Plan C → Bytes
  name_of p = p.member.name

  abbrev pub members_of : {C : Type 0} → List (Plan C) → List (Field J C)
  members_of [] = []
  members_of (p ∷ ps) = p.member ∷ members_of ps

  -- All members brought over.
  abbrev pub transfer_all : {C : Type 0} → List (Plan C) → C → C → C
  transfer_all [] c d = d
  transfer_all (p ∷ ps) c d = transfer_all ps c (p.transfer c d)

  abbrev pub Distinct : {C : Type 0} → List (Plan C) → Type 0
  Distinct [] = Unit {0}
  Distinct (p ∷ ps) = All (λ q. text_eq (name_of q) (name_of p) ≡ false) ps × Distinct ps

  -- A value that stands for the member of `c`.
  pub record StandsFor {C : Type 0} (p : Plan C) (c : C) (v : Json) : Type 0 where
    pub written : p.member.write c ≡ ok v
    pub typed : has_type p.type v ≡ true
    pub read_back : (d : C) → p.member.read v d ≡ ok (p.transfer c d)

  abbrev pub IsWritable : {C : Type 0} → C → Plan C → Type 0
  IsWritable c p = (v : Json) × StandsFor p c v

  abbrev pub Holds : {C : Type 0} → C → Json → Plan C → Type 0
  Holds c j p =
      (v : Json) × (contains (name_of p) j ≡ true)
      × (get_member (name_of p) j ≡ ok v)
      × StandsFor p c v

  -- `j'` is `j` with the members of `c` written.
  record Written {C : Type 0} (ps : List (Plan C)) (c : C) (j j' : Json) : Type 0 where
    success : write_members J (members_of ps) c j ≡ ok j'
    is_object : (has_type json_object j ≡ true) ⊎ (ps ≢ []) → has_type json_object j' ≡ true
    holds : All (Holds c j') ps
    keys : (k : Bytes) → All (λ p. text_eq (name_of p) k ≡ false) ps → contains k j' ≡ contains k j
    values :
        (k : Bytes)
        → All (λ p. text_eq (name_of p) k ≡ false) ps
        → contains k j ≡ true
        → get_member k j' ≡ get_member k j

  module _ {C : Type 0} (laws : JsonLaws J) (c : C) where
    write_members-Written :
        (ps : List (Plan C)) (j : Json)
        → Distinct ps
        → All (IsWritable c) ps
        → IsContainer J j
        → (j' : Json) × Written ps c j j'
    unfolding write_members
    write_members-Written [] j distinct writable container = (
      j,
      record {
        success = refl;
        is_object = elim [ inl o ↦ o | inr ne ↦ absurd (ne refl) ];
        holds = tt;
        keys = λ k h. refl;
        values = λ k h has. refl;
      },
    )
    write_members-Written (p ∷ ps) j (apart, distinct) ((v, stands), writable) container =
        let (j1, set, at1) = laws.set_member-IsSetAt (name_of p) v j container in
        let (j2, rest) = write_members-Written ps j1 distinct writable (inr at1.is_object) in
        (
          j2,
          record {
            success = rw (stands.written, ◌>>=◌) (rw (set, ◌>>=◌) rest.success);
            is_object = λ _. rest.is_object (inl at1.is_object);
            holds = (
              (
                v,
                rest.keys (name_of p) apart ∙ at1.has_key,
                rest.values (name_of p) apart at1.has_key ∙ at1.value,
                stands,
              ),
              rest.holds,
            );
            keys = λ k (h, hs). rest.keys k hs ∙ at1.other_keys k h;
            values = λ k (h, hs) has.
                rest.values k hs (at1.other_keys k h ∙ has) ∙ at1.other_values k h has;
          },
        )

    read_members-transfer_all :
        (ps : List (Plan C)) (j : Json) (d : C)
        → All (Holds c j) ps
        → read_members J (members_of ps) j d ≡ ok (transfer_all ps c d)
    unfolding read_members read_member
    read_members-transfer_all [] j d _ = refl
    read_members-transfer_all (p ∷ ps) j d ((v, has, value, stands), hs) =
        rw (has, if◌then◌else◌)
          (rw (value, ◌>>=◌)
            (rw (stands.read_back d, ◌>>=◌) (read_members-transfer_all ps j (p.transfer c d) hs)))

  -- The type that the members give to a key.
  abbrev pub type_of_key : {C : Type 0} → Bytes → List (Plan C) → Option JsonType
  type_of_key k [] = none
  type_of_key k (p ∷ ps) = if text_eq (name_of p) k then some p.type else type_of_key k ps

  -- The schema asks for nothing but what the members give.
  abbrev pub Describes : {C : Type 0} → Schema → List (Plan C) → Type 0
  Describes schema ps =
      All (λ (property : Bytes × JsonType). type_of_key property.0 ps ≡ some property.1)
        schema.properties
      × All (λ key. (t : JsonType) × (type_of_key key ps ≡ some t)) schema.required

  -- What an object that holds the members gives for such a key.
  record Gives (j : Json) (k : Bytes) (t : JsonType) : Type 0 where
    has : contains k j ≡ true
    typed : (v : Json) → get_member k j ≡ ok v → has_type t v ≡ true

  Holds-Gives :
      {C : Type 0} (c : C) (j : Json) (k : Bytes) (t : JsonType) (ps : List (Plan C))
      → type_of_key k ps ≡ some t
      → All (Holds c j) ps
      → Gives j k t
  Holds-Gives c j k t [] e hs = cc
  Holds-Gives c j k t (p ∷ ps) e ((v, has, value, stands), hs) =
      elim (Bool-cases (text_eq (name_of p) k)) [
        | inl same ↦
            let name = text_eq_sound (name_of p) k same in
            let type : p.type ≡ t = ground (arith, e) in
            record {
              has = subst (λ k. contains k j ≡ true) name has;
              typed = λ w got.
                  subst (λ t. has_type t w ≡ true) type
                    (subst (λ v. has_type p.type v ≡ true)
                      (ok_injective (sym value ∙ ap (λ k. get_member k j) name ∙ got))
                      stands.typed);
            }
        | inr other ↦ Holds-Gives c j k t ps (ground (arith, e)) hs
      ]

  Holds-Conforms :
      {C : Type 0} (c : C) (j : Json) (schema : Schema) (ps : List (Plan C))
      → has_type json_object j ≡ true
      → Describes schema ps
      → All (Holds c j) ps
      → Conforms J schema j
  Holds-Conforms c j schema ps o (properties, required) hs =
      (o, typed schema.properties properties, present schema.required required)
    where
      typed :
          (qs : List (Bytes × JsonType))
          → All (λ (q : Bytes × JsonType). type_of_key q.0 ps ≡ some q.1) qs
          → All
              (λ (q : Bytes × JsonType).
                (v : Json)
                → contains q.0 j ≡ true
                → get_member q.0 j ≡ ok v
                → has_type q.1 v ≡ true)
              qs
      typed [] _ = tt
      typed (q ∷ qs) (e, es) =
          (λ v has got. (Holds-Gives c j q.0 q.1 ps e hs).typed v got, typed qs es)

      present :
          (ks : List Bytes)
          → All (λ key. (t : JsonType) × (type_of_key key ps ≡ some t)) ks
          → All (λ key. contains key j ≡ true) ks
      present [] _ = tt
      present (k ∷ ks) ((t, e), es) = ((Holds-Gives c j k t ps e hs).has, present ks es)

  -- `Serialize` of `c` onto a value gives an object that holds its members and from which `Deserialize` brings them
  -- into any object.
  pub record Carried {C : Type 0} (s : Serializable J C) (ps : List (Plan C)) (c : C)
      (start j : Json) : Type 0 where
    pub serialized : s.serialize c start ≡ ok j
    pub is_object : has_type json_object j ≡ true
    pub holds : All (Holds c j) ps
    pub deserialized : (d : C) → s.deserialize j d ≡ ok (transfer_all ps c d)

  pub validate_with-ok :
      (schema : Schema) (j : Json) → validate schema j ≡ ok tt → validate_with J schema j ≡ ok tt
  unfolding validate_with
  validate_with-ok schema j e = rw (e, validate_with) refl

  module _ {C : Type 0} (laws : JsonLaws J) (p : Plan C) (ps : List (Plan C))
      (distinct : Distinct (p ∷ ps)) (c : C) (writable : All (IsWritable c) (p ∷ ps)) where
    not_empty : (p ∷ ps) ≢ []
    not_empty e = cc

    pub validated-Carried :
        (schema : Schema) (start : Json)
        → Describes schema (p ∷ ps)
        → IsContainer J start
        → (j : Json) × Carried (validated J schema (members_of (p ∷ ps))) (p ∷ ps) c start j
    unfolding validated
    validated-Carried schema start describes container =
        let (j, w) = write_members-Written laws c (p ∷ ps) start distinct writable container in
        let o = w.is_object (inr not_empty) in
        let conforms = Holds-Conforms c j schema (p ∷ ps) o describes w.holds in
        let valid = validate_with-ok schema j (laws.validate-Conforms schema j conforms) in
        (
          j,
          record {
            serialized =
                ap
                  (λ (r : Result Json).
                    rethrow J (r >>= λ j'. validate_with J schema j' >>= λ _. ok j'))
                  w.success
                ∙ ap (λ r. rethrow J (r >>= λ _. ok j)) valid;
            is_object = o;
            holds = w.holds;
            deserialized = λ d.
                ap (λ r. rethrow J (r >>= λ _. read_members J (members_of (p ∷ ps)) j d)) valid
                ∙ (ap (rethrow J) (read_members-transfer_all laws c (p ∷ ps) j d w.holds));
          },
        )

    pub unvalidated-Carried :
        (j : Json) × Carried (unvalidated J (members_of (p ∷ ps))) (p ∷ ps) c null j
    unfolding unvalidated
    unvalidated-Carried =
        let (j, w) = write_members-Written laws c (p ∷ ps) null distinct writable (inl refl) in
        (
          j,
          record {
            serialized = w.success;
            is_object = w.is_object (inr not_empty);
            holds = w.holds;
            deserialized = λ d. read_members-transfer_all laws c (p ∷ ps) j d w.holds;
          },
        )

  -- A collection comes back item by item.
  abbrev pub ComesBack : {T : Type 0} → (T → Result Json) → (Json → Result T) → T → Type 0
  ComesBack write read x = (j : Json) × (write x ≡ ok j) × (read j ≡ ok x)

  pub read_items-write_items :
      {T : Type 0} (write : T → Result Json) (read : Json → Result T) (xs acc : List T)
      → All (ComesBack write read) xs
      → (js : List Json) × (write_items J write xs ≡ ok js)
        × (read_items J read js acc ≡ ok (acc ++ xs))
  unfolding write_items read_items
  read_items-write_items write read [] acc _ = ([], refl, ap ok (sym (append-nil acc)))
  read_items-write_items write read (x ∷ xs) acc ((j, w, r), hs) =
      let (js, ws, rs) = read_items-write_items write read xs (acc ++ x ∷ []) hs in
      (
        j ∷ js,
        rw (w, ◌>>=◌) (rw (ws, ◌>>=◌) refl),
        rw (r, ◌>>=◌) (rs ∙ ap ok (append_assoc acc (x ∷ []) xs)),
      )
