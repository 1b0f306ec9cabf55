-- ===== src/Format/Filling.antt =====
-- The loops of the formatting functions on a format in pieces, whatever the order of the map.
use logger_cpp.Common.{
  ◌≡◌, refl, ap, sym, ◌∙◌, true, List, [], ◌∷◌, map, none, some, arith, Bytes, Option-cases,
  Bool-cases, inl, inr, All, text_eq, text_eq_sound, text_eq_refl, ◌↔◌,
}
use logger_cpp.Common.Sets.{In}
use logger_cpp.Format.{Replacement, replace_each}
use logger_cpp.Format.Pieces.{
  Piece, literal, keyed, render, lookup, fill, is_plain, is_key, suits, all_suit, absent, once,
  fits, fill_one, replace_first-render,
}

-- Filling in one key keeps what the others need.
suits-fill_one :
    (k k' value : Bytes) (p : Piece)
    → is_plain value ≡ true
    → suits k p ≡ true
    → suits k (fill_one k' value p) ≡ true
suits-fill_one k k' value (literal s) hv h = h
suits-fill_one k k' value (keyed n) hv h = elim (Bool-cases (text_eq k' n)) [
  | inl e ↦ rw e hv
  | inr e ↦ rw e h
]

all_suit-fill_one :
    (k k' value : Bytes) (ps : List Piece)
    → is_plain value ≡ true
    → all_suit k ps ≡ true
    → all_suit k (map (fill_one k' value) ps) ≡ true
all_suit-fill_one k k' value [] hv h = refl
all_suit-fill_one k k' value (p ∷ ps) hv h =
    ground (arith, h, suits-fill_one k k' value p hv, all_suit-fill_one k k' value ps hv)

absent-fill_one :
    (k k' value : Bytes) (ps : List Piece)
    → absent k ps ≡ true
    → absent k (map (fill_one k' value) ps) ≡ true
absent-fill_one k k' value [] h = refl
absent-fill_one k k' value (literal s ∷ ps) h = absent-fill_one k k' value ps h
absent-fill_one k k' value (keyed n ∷ ps) h = elim (Bool-cases (text_eq k' n)) [
  | inl e ↦ rw e (absent-fill_one k k' value ps (ground (arith, h)))
  | inr e ↦ rw e (ground (arith, h, absent-fill_one k k' value ps))
]

once-absent : (k : Bytes) (ps : List Piece) → absent k ps ≡ true → once k ps ≡ true
once-absent k [] h = refl
once-absent k (p ∷ ps) h = ground (arith, h, once-absent k ps)

once-fill_one :
    (k k' value : Bytes) (ps : List Piece)
    → once k ps ≡ true
    → once k (map (fill_one k' value) ps) ≡ true
once-fill_one k k' value [] h = refl
once-fill_one k k' value (literal s ∷ ps) h = once-fill_one k k' value ps h
once-fill_one k k' value (keyed n ∷ ps) h = elim (Bool-cases (text_eq k' n)) [
  | inl e ↦ rw e (once-fill_one k k' value ps (ground (arith, h, once-absent k ps)))
  | inr e ↦ elim (Bool-cases (text_eq k n)) [
    | inl e' ↦ rw (e, e') (absent-fill_one k k' value ps (rw e' at h))
    | inr e' ↦ rw (e, e') (once-fill_one k k' value ps (rw e' at h))
  ]
]

-- Filling in a key and then those of a list is filling in those of the longer list.
fill-fill_one :
    (k value : Bytes) (rs : List Replacement) (p : Piece)
    → fill rs (fill_one k value p) ≡ fill ((k, value) ∷ rs) p
unfolding fill lookup
fill-fill_one k value rs (literal s) = refl
fill-fill_one k value rs (keyed n) = elim (Bool-cases (text_eq k n)) [
  | inl e ↦ rw (e, fill)
  | inr e ↦ rw (e, fill)
]

map-fill_one :
    (k value : Bytes) (rs : List Replacement) (ps : List Piece)
    → map (fill rs) (map (fill_one k value) ps) ≡ map (fill ((k, value) ∷ rs)) ps
map-fill_one k value rs [] = refl
map-fill_one k value rs (p ∷ ps) =
    ap (λ q. q ∷ map (fill rs) (map (fill_one k value) ps)) (fill-fill_one k value rs p)
    ∙ ap (◌∷◌ (fill ((k, value) ∷ rs) p)) (map-fill_one k value rs ps)

-- The map is ready for the format: its keys fit, and what it puts in is plain text.
abbrev pub IsReady : List Replacement → List Piece → Type 0
IsReady rs ps = (r : Replacement) → In r rs → (fits r.0 ps ≡ true) × (is_plain r.1 ≡ true)

fits_iff :
    (k : Bytes) (ps : List Piece)
    → (fits k ps ≡ true) ↔ ((is_key k ≡ true) × (once k ps ≡ true) × (all_suit k ps ≡ true))
fits_iff k ps = ground arith

fits-fill_one :
    (k k' value : Bytes) (ps : List Piece)
    → is_plain value ≡ true
    → fits k ps ≡ true
    → fits k (map (fill_one k' value) ps) ≡ true
fits-fill_one k k' value ps hv h =
    let (hk, ho, hs) = (fits_iff k ps).0 h in
    (fits_iff k (map (fill_one k' value) ps)).1
      (hk, once-fill_one k k' value ps ho, all_suit-fill_one k k' value ps hv hs)

map-fill_nil : (ps : List Piece) → map (fill []) ps ≡ ps
unfolding fill lookup
map-fill_nil [] = refl
map-fill_nil (literal s ∷ ps) = ap (◌∷◌ (literal s)) (map-fill_nil ps)
map-fill_nil (keyed k ∷ ps) = ap (◌∷◌ (keyed k)) (map-fill_nil ps)

-- And so does filling in a whole map.
pub fits-fill :
    (k : Bytes) (rs : List Replacement) (ps : List Piece)
    → All (λ r. is_plain r.1 ≡ true) rs
    → fits k ps ≡ true
    → fits k (map (fill rs) ps) ≡ true
fits-fill k [] ps hv h = rw (map-fill_nil ps) h
fits-fill k ((k', value) ∷ rs) ps (hv, hvs) h =
    rw (← map-fill_one k' value rs ps)
      (fits-fill k rs (map (fill_one k' value) ps) hvs (fits-fill_one k k' value ps hv h))

replace_each-render :
    (rs : List Replacement) (ps : List Piece)
    → IsReady rs ps
    → replace_each rs (render ps) ≡ render (map (fill rs) ps)
unfolding replace_each
replace_each-render [] ps h = sym (ap render (map-fill_nil ps))
replace_each-render ((k, value) ∷ rs) ps h =
    let (hf, hv) = h (k, value) (inl refl) in
    let (hk, ho, hs) = (fits_iff k ps).0 hf in
    ap (replace_each rs) (replace_first-render k value ps hk ho hs)
    ∙ replace_each-render rs (map (fill_one k value) ps)
        (λ r m. (fits-fill_one r.0 k value ps hv (h r (inr m)).0, (h r (inr m)).1))
    ∙ ap render (map-fill_one k value rs ps)

lookup-In : (k v : Bytes) (rs : List Replacement) → lookup k rs ≡ some v → In (k, v) rs
unfolding lookup
lookup-In k v [] h = cc
lookup-In k v ((n, w) ∷ rs) h = elim (Bool-cases (text_eq n k)) [
  | inl e ↦
      let e' : some w ≡ some v = rw e at h in
      let same_key = sym (text_eq_sound n k e) in
      let same_value : v ≡ w = cc e' in inl (λ i. (same_key i, same_value i))
  | inr e ↦ inr (lookup-In k v rs (rw e at h))
]

-- Each key of the map is there once.
abbrev pub IsMap : List Replacement → Type 0
IsMap rs = (r : Replacement) → In r rs → lookup r.0 rs ≡ some r.1

In-lookup : (k v : Bytes) (rs : List Replacement) → In (k, v) rs → (lookup k rs ≡ none) → ⊥
unfolding lookup
In-lookup k v [] m h = absurd m
In-lookup k v ((n, w) ∷ rs) (inl p) h =
    let e : text_eq n k ≡ true = rw (ap (λ (r : Replacement). r.0) p) (text_eq_refl n) in
    absurd (cc (rw e at h))
In-lookup k v ((n, w) ∷ rs) (inr m) h = elim (Bool-cases (text_eq n k)) [
  | inl e ↦ absurd (cc (rw e at h))
  | inr e ↦ In-lookup k v rs m (rw e at h)
]

-- A map that is gone through in another order.
lookup-visited :
    (visited rs : List Replacement) (k : Bytes)
    → IsMap rs
    → ((r : Replacement) → In r visited ↔ In r rs)
    → lookup k visited ≡ lookup k rs
lookup-visited visited rs k h same = elim (Option-cases (lookup k visited)) [
  | inr (v, e) ↦ e ∙ sym (h (k, v) ((same (k, v)).0 (lookup-In k v visited e)))
  | inl e ↦ elim (Option-cases (lookup k rs)) [
    | inl e' ↦ e ∙ sym e'
    | inr (v, e') ↦ absurd (In-lookup k v visited ((same (k, v)).1 (lookup-In k v rs e')) e)
  ]
]

fill-visited :
    (visited rs : List Replacement) (p : Piece)
    → IsMap rs
    → ((r : Replacement) → In r visited ↔ In r rs)
    → fill visited p ≡ fill rs p
unfolding fill
fill-visited visited rs (literal s) h same = refl
fill-visited visited rs (keyed k) h same =
    ap (elim [ none ↦ keyed k | some value ↦ literal value ]) (lookup-visited visited rs k h same)

map-fill-visited :
    (visited rs : List Replacement) (ps : List Piece)
    → IsMap rs
    → ((r : Replacement) → In r visited ↔ In r rs)
    → map (fill visited) ps ≡ map (fill rs) ps
map-fill-visited visited rs [] h same = refl
map-fill-visited visited rs (p ∷ ps) h same =
    rw (fill-visited visited rs p h same, map-fill-visited visited rs ps h same)

-- The loop in any order of the map.
pub replace_each-visited :
    (visited rs : List Replacement) (ps : List Piece)
    → IsMap rs
    → IsReady rs ps
    → ((r : Replacement) → In r visited ↔ In r rs)
    → replace_each visited (render ps) ≡ render (map (fill rs) ps)
replace_each-visited visited rs ps h ready same =
    replace_each-render visited ps (λ r m. ready r ((same r).0 m))
    ∙ ap render (map-fill-visited visited rs ps h same)
