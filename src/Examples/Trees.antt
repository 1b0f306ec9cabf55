-- ===== src/Examples/Trees.antt =====
-- JSON values as trees, which behave as the code relies on.
use logger_cpp.Common.{
  ℕ, Bool, true, false, List, [], ◌∷◌, ◌≡◌, refl, sym, ap, ◌∙◌, inl, inr, Bytes, codes, All,
  text_eq, text_eq_sound, text_eq_refl, ◌&&◌, not, ◌||◌, if◌then◌else◌, Bool-cases, arith, &&_iff,
}
use logger_cpp.Serializer.{
  Result, ok, error, JsonType, json_object, json_array, json_string, json_number, json_boolean,
  Schema, JsonLibrary, JsonLaws, Conforms, IsContainer, IsSetAt, ok_injective,
}

mutual
  pub data Tree : Type 0 where
    null_tree : Tree
    text_tree : Bytes → Tree
    number_tree : ℕ → Tree
    boolean_tree : Bool → Tree
    array_tree : Trees → Tree
    object_tree : Pairs → Tree

  pub data Trees : Type 0 where
    nil : Trees
    cons : Tree → Trees → Trees

  pub data Pairs : Type 0 where
    end : Pairs
    pair : Bytes → Tree → Pairs → Pairs

abbrev to_list : Trees → List Tree
to_list nil = []
to_list (cons t ts) = t ∷ to_list ts

abbrev of_list : List Tree → Trees
of_list [] = nil
of_list (t ∷ ts) = cons t (of_list ts)

abbrev put : Bytes → Tree → Pairs → Pairs
put k v end = pair k v end
put k v (pair k' v' ps) = if text_eq k k' then pair k v ps else pair k' v' (put k v ps)

abbrev has : Bytes → Pairs → Bool
has k end = false
has k (pair k' v ps) = text_eq k k' || has k ps

abbrev look_up : Bytes → Pairs → Tree
look_up k end = null_tree
look_up k (pair k' v ps) = if text_eq k k' then v else look_up k ps

abbrev tree_type : JsonType → Tree → Bool
tree_type json_object (object_tree ps) = true
tree_type json_array (array_tree ts) = true
tree_type json_string (text_tree s) = true
tree_type json_number (number_tree n) = true
tree_type json_boolean (boolean_tree b) = true
tree_type _ _ = false

abbrev contains_tree : Bytes → Tree → Bool
contains_tree k (object_tree ps) = has k ps
contains_tree k _ = false

abbrev type_error : {A : Type 0} → Result A
type_error = error (codes "type_error")

abbrev set_tree : Bytes → Tree → Tree → Result Tree
set_tree k v null_tree = ok (object_tree (pair k v end))
set_tree k v (object_tree ps) = ok (object_tree (put k v ps))
set_tree k v _ = type_error

abbrev get_tree : Bytes → Tree → Result Tree
get_tree k (object_tree ps) = ok (look_up k ps)
get_tree k _ = type_error

abbrev tree_elements : Tree → List Tree
tree_elements (array_tree ts) = to_list ts
tree_elements _ = []

abbrev tree_text : Tree → Result Bytes
tree_text (text_tree s) = ok s
tree_text _ = type_error

abbrev tree_number : Tree → Result ℕ
tree_number (number_tree n) = ok n
tree_number _ = type_error

abbrev tree_bool : Tree → Result Bool
tree_bool (boolean_tree b) = ok b
tree_bool _ = type_error

-- The validator.
abbrev fits : List (Bytes × JsonType) → Pairs → Bool
fits [] ps = true
fits (q ∷ qs) ps = (not (has q.0 ps) || tree_type q.1 (look_up q.0 ps)) && fits qs ps

abbrev complete : List Bytes → Pairs → Bool
complete [] ps = true
complete (k ∷ ks) ps = has k ps && complete ks ps

abbrev valid_tree : Schema → Tree → Bool
valid_tree schema (object_tree ps) = fits schema.properties ps && complete schema.required ps
valid_tree schema _ = false

abbrev pub validate_tree : Schema → Tree → Result (Unit {0})
validate_tree schema j = if valid_tree schema j then ok tt else error (codes "unexpected")

abbrev pub trees : JsonLibrary
trees = record {
  Json = Tree;
  null = null_tree;
  has_type = tree_type;
  contains = contains_tree;
  set_member = set_tree;
  get_member = get_tree;
  array = λ ts. array_tree (of_list ts);
  elements = tree_elements;
  of_text = text_tree;
  get_text = tree_text;
  of_number = number_tree;
  get_number = tree_number;
  of_bool = boolean_tree;
  get_bool = tree_bool;
  validate = validate_tree;
}

has-put_self : (k : Bytes) (v : Tree) (ps : Pairs) → has k (put k v ps) ≡ true
has-put_self k v end = rw (text_eq_refl k) refl
has-put_self k v (pair k' v' ps) = elim (Bool-cases (text_eq k k')) [
  | inl e ↦ rw e (rw (text_eq_refl k) refl)
  | inr e ↦ rw e (rw e (has-put_self k v ps))
]

look_up-put_self : (k : Bytes) (v : Tree) (ps : Pairs) → look_up k (put k v ps) ≡ v
look_up-put_self k v end = rw (text_eq_refl k) refl
look_up-put_self k v (pair k' v' ps) = elim (Bool-cases (text_eq k k')) [
  | inl e ↦ rw e (rw (text_eq_refl k) refl)
  | inr e ↦ rw e (rw e (look_up-put_self k v ps))
]

differ_sym : (k l : Bytes) → text_eq k l ≡ false → text_eq l k ≡ false
differ_sym k l e = elim (Bool-cases (text_eq l k)) [
  | inl same ↦ let again = text_eq_refl k in cc (e, again, ap (text_eq k) (text_eq_sound l k same))
  | inr other ↦ other
]

has-put_other :
    (k l : Bytes) (v : Tree) (ps : Pairs) → text_eq k l ≡ false → has l (put k v ps) ≡ has l ps
has-put_other k l v end e = rw (differ_sym k l e) refl
has-put_other k l v (pair k' v' ps) e = elim (Bool-cases (text_eq k k')) [
  | inl same ↦
      let other = differ_sym k l e in
      let moved : text_eq l k' ≡ false = sym (ap (text_eq l) (text_eq_sound k k' same)) ∙ other in
      rw same (rw (other, moved) refl)
  | inr differ ↦ rw differ (ap (λ b. text_eq l k' || b) (has-put_other k l v ps e))
]

look_up-put_other :
    (k l : Bytes) (v : Tree) (ps : Pairs)
    → text_eq k l ≡ false
    → look_up l (put k v ps) ≡ look_up l ps
look_up-put_other k l v end e = rw (differ_sym k l e) refl
look_up-put_other k l v (pair k' v' ps) e = elim (Bool-cases (text_eq k k')) [
  | inl same ↦
      let other = differ_sym k l e in
      let moved : text_eq l k' ≡ false = sym (ap (text_eq l) (text_eq_sound k k' same)) ∙ other in
      rw same (rw (other, moved) refl)
  | inr differ ↦ rw differ (ap (λ t. if text_eq l k' then v' else t) (look_up-put_other k l v ps e))
]

put_null : (k : Bytes) (v : Tree) → IsSetAt trees k v null_tree (object_tree (pair k v end))
put_null k v = record {
  is_object = refl;
  has_key = has-put_self k v end;
  value = ap ok (look_up-put_self k v end);
  other_keys = λ l e. has-put_other k l v end e;
  other_values = λ l e h. cc;
}

put_object :
    (k : Bytes) (v : Tree) (ps : Pairs)
    → IsSetAt trees k v (object_tree ps) (object_tree (put k v ps))
put_object k v ps = record {
  is_object = refl;
  has_key = has-put_self k v ps;
  value = ap ok (look_up-put_self k v ps);
  other_keys = λ l e. has-put_other k l v ps e;
  other_values = λ l e h. ap ok (look_up-put_other k l v ps e);
}

set_tree-IsSetAt :
    (k : Bytes) (v j : Tree)
    → IsContainer trees j
    → (j' : Tree) × (set_tree k v j ≡ ok j') × IsSetAt trees k v j j'
set_tree-IsSetAt k v null_tree h = (object_tree (pair k v end), refl, put_null k v)
set_tree-IsSetAt k v (object_tree ps) h = (object_tree (put k v ps), refl, put_object k v ps)
set_tree-IsSetAt k v (text_tree s) h = absurd (ground arith)
set_tree-IsSetAt k v (number_tree n) h = absurd (ground arith)
set_tree-IsSetAt k v (boolean_tree b) h = absurd (ground arith)
set_tree-IsSetAt k v (array_tree ts) h = absurd (ground arith)

to_list-of_list : (ts : List Tree) → to_list (of_list ts) ≡ ts
to_list-of_list [] = refl
to_list-of_list (t ∷ ts) = ap (◌∷◌ t) (to_list-of_list ts)

-- What the validator accepts is what conforms.
abbrev Fits : Tree → List (Bytes × JsonType) → Type 0
Fits j qs =
    All
      (λ (q : Bytes × JsonType).
        (v : Tree) → contains_tree q.0 j ≡ true → get_tree q.0 j ≡ ok v → tree_type q.1 v ≡ true)
      qs

fits-Fits :
    (qs : List (Bytes × JsonType)) (ps : Pairs) → fits qs ps ≡ true → Fits (object_tree ps) qs
fits-Fits [] ps h = tt
fits-Fits (q ∷ qs) ps h = (
  λ v present got.
      let same : look_up q.0 ps ≡ v = ok_injective got in
      ap (tree_type q.1) (sym same) ∙ ground arith,
  fits-Fits qs ps (ground arith),
)

Fits-fits :
    (qs : List (Bytes × JsonType)) (ps : Pairs) → Fits (object_tree ps) qs → fits qs ps ≡ true
Fits-fits [] ps h = refl
Fits-fits (q ∷ qs) ps (h, hs) = elim (Bool-cases (has q.0 ps)) [
  | inl present ↦ rw (present, h (look_up q.0 ps) present refl) (Fits-fits qs ps hs)
  | inr missing ↦ rw missing (Fits-fits qs ps hs)
]

complete-All :
    (ks : List Bytes) (ps : Pairs) → complete ks ps ≡ true → All (λ k. has k ps ≡ true) ks
complete-All [] ps h = tt
complete-All (k ∷ ks) ps h = (ground arith, complete-All ks ps (ground arith))

All-complete :
    (ks : List Bytes) (ps : Pairs) → All (λ k. has k ps ≡ true) ks → complete ks ps ≡ true
All-complete [] ps h = refl
All-complete (k ∷ ks) ps (h, hs) = rw h (All-complete ks ps hs)

validate_tree-Conforms :
    (schema : Schema) (j : Tree) → Conforms trees schema j → validate_tree schema j ≡ ok tt
validate_tree-Conforms schema (object_tree ps) (o, properties, required) =
    rw (Fits-fits schema.properties ps properties, All-complete schema.required ps required) refl
validate_tree-Conforms schema null_tree (o, properties, required) = cc
validate_tree-Conforms schema (text_tree s) (o, properties, required) = cc
validate_tree-Conforms schema (number_tree n) (o, properties, required) = cc
validate_tree-Conforms schema (boolean_tree b) (o, properties, required) = cc
validate_tree-Conforms schema (array_tree ts) (o, properties, required) = cc

abbrev Refused : Schema → Tree → Type 0
Refused schema j = (reason : Bytes) × (validate_tree schema j ≡ error reason)

validate_tree-fails : (schema : Schema) (j : Tree) → ¬ Conforms trees schema j → Refused schema j
validate_tree-fails schema (object_tree ps) bad =
    elim (Bool-cases (valid_tree schema (object_tree ps))) [
      | inl valid ↦
          let (f, c) = (&&_iff (fits schema.properties ps) (complete schema.required ps)).0 valid in
          absurd (bad (refl, fits-Fits schema.properties ps f, complete-All schema.required ps c))
      | inr invalid ↦ (codes "unexpected", rw invalid refl)
    ]
validate_tree-fails schema null_tree bad = (codes "unexpected", refl)
validate_tree-fails schema (text_tree s) bad = (codes "unexpected", refl)
validate_tree-fails schema (number_tree n) bad = (codes "unexpected", refl)
validate_tree-fails schema (boolean_tree b) bad = (codes "unexpected", refl)
validate_tree-fails schema (array_tree ts) bad = (codes "unexpected", refl)

pub trees_laws : JsonLaws trees
trees_laws = record {
  set_member-IsSetAt = set_tree-IsSetAt;
  get_text-of_text = λ s. refl;
  get_number-of_number = λ n. refl;
  get_bool-of_bool = λ b. refl;
  elements-array = to_list-of_list;
  of_text_type = λ s. refl;
  of_number_type = λ n. refl;
  of_bool_type = λ b. refl;
  array_type = λ ts. refl;
  validate-Conforms = validate_tree-Conforms;
  validate-fails = validate_tree-fails;
}
