-- ===== src/Format/Pieces.antt =====
-- Formats as pieces, and the loops of the formatting functions on them.
use mathlib.Core.Option
use logger_cpp.Common.{
  ℕ, suc, ◌+◌, ◌≡◌, ◌≢◌, refl, ap, ◌∙◌, Bool, true, false, not, ◌&&◌, ◌||◌, List, [], ◌∷◌, ◌++◌,
  map, Option, none, some, arith, Bytes, length, take, drop, Option-cases, Bool-cases, inl, inr,
  ◌==◌, text_eq, text_eq_sound, if◌then◌else◌, drop-append,
}
use logger_cpp.StringHelpers.{find, starts_with, replace}
use logger_cpp.StringHelpers.Search.{starts_with-append}
use logger_cpp.Format.{Replacement, replace_first}

-- A format is plain text with keys in it.
pub data Piece : Type 0 where
  literal keyed : Bytes → Piece

abbrev pub text_of : Piece → Bytes
text_of (literal s) = s
text_of (keyed k) = k

abbrev pub render : List Piece → Bytes
render [] = []
render (p ∷ ps) = text_of p ++ render ps

-- What stands for a key in a map.
unfoldable pub lookup : Bytes → List Replacement → Option Bytes
lookup k [] = none
lookup k ((name, value) ∷ rest) = if text_eq name k then some value else lookup k rest

unfoldable pub fill : List Replacement → Piece → Piece
unfolding lookup
fill rs (literal s) = literal s
fill rs (keyed k) = elim (lookup k rs) [ none ↦ keyed k | some value ↦ literal value ]

-- Text without a percent sign.
abbrev pub is_plain : Bytes → Bool
is_plain [] = true
is_plain (c ∷ s) = not (c == b'%') && is_plain s

-- A key is two percent signs and a name without them.
abbrev pub is_key : Bytes → Bool
is_key (c ∷ d ∷ e ∷ name) = c == b'%' && (d == b'%' && is_plain (e ∷ name))
is_key _ = false

-- Two texts differ at a place that both have.
abbrev pub parts : Bytes → Bytes → Bool
parts (c ∷ s) (d ∷ t) = if c == d then parts s t else true
parts _ _ = false

starts_with-parts : (k k' s : Bytes) → parts k k' ≡ true → starts_with k (k' ++ s) ≡ false
unfolding starts_with
starts_with-parts [] k' s h = cc
starts_with-parts (c ∷ k) [] s h = cc
starts_with-parts (c ∷ k) (d ∷ k') s h = elim (Bool-cases (c == d)) [
  | inl e ↦ rw e (starts_with-parts k k' s (rw e at h))
  | inr e ↦ rw e
]

find-cons :
    (k : Bytes) (c : ℕ) (s : Bytes)
    → starts_with k (c ∷ s) ≡ false
    → find k (c ∷ s) ≡ Option.map suc (find k s)
unfolding find
find-cons k c s h = ground (arith, h)

-- Where the key does not begin, the search goes on.
replace_first-cons :
    (k value : Bytes) (c : ℕ) (s : Bytes)
    → starts_with k (c ∷ s) ≡ false
    → replace_first k value (c ∷ s) ≡ c ∷ replace_first k value s
unfolding replace_first replace
replace_first-cons k value c s h = elim (Option-cases (find k s)) [
  | inl e ↦ rw (find-cons k c s h, replace_first) (rw (e, replace_first))
  | inr (p, e) ↦ rw (find-cons k c s h, replace_first) (rw (e, replace_first) (shift p (length k)))
]
  where
    shift :
        (p len : ℕ)
        → take (suc p) (c ∷ s) ++ (value ++ drop (suc p + len) (c ∷ s))
          ≡ c ∷ (take p s ++ (value ++ drop (p + len) s))
    shift p len = let e : suc p + len ≡ suc (p + len) = omega arith in rw e

find-here : (k s : Bytes) → k ≢ [] → find k (k ++ s) ≡ some 0
unfolding find
find-here [] s ne = absurd (ne refl)
find-here (c ∷ k) s ne = rw (starts_with-append (c ∷ k) s)

replace_first-here : (k value s : Bytes) → k ≢ [] → replace_first k value (k ++ s) ≡ value ++ s
unfolding replace_first replace
replace_first-here k value s ne =
    let e : 0 + length k ≡ length k = omega arith in
    rw (find-here k s ne, replace_first) (rw (e, drop-append k s))

key-literal :
    (k : Bytes) (c : ℕ) (s : Bytes)
    → is_key k ≡ true
    → (c == b'%') ≡ false
    → starts_with k (c ∷ s) ≡ false
unfolding starts_with
key-literal [] c s hk h = cc
key-literal (x ∷ []) c s hk h = cc
key-literal (x ∷ y ∷ []) c s hk h = cc
key-literal (x ∷ y ∷ z ∷ k) c s hk h = ground (arith, hk, h)

key-second :
    (k : Bytes) (c d : ℕ) (s : Bytes)
    → is_key k ≡ true
    → (d == b'%') ≡ false
    → starts_with k (c ∷ (d ∷ s)) ≡ false
unfolding starts_with
key-second [] c d s hk h = cc
key-second (x ∷ []) c d s hk h = cc
key-second (x ∷ y ∷ []) c d s hk h = cc
key-second (x ∷ y ∷ z ∷ k) c d s hk h = ground (arith, hk, h)

replace_first-literal :
    (k value l s : Bytes)
    → is_key k ≡ true
    → is_plain l ≡ true
    → replace_first k value (l ++ s) ≡ l ++ replace_first k value s
replace_first-literal k value [] s hk h = refl
replace_first-literal k value (c ∷ l) s hk h =
    replace_first-cons k value c (l ++ s) (key-literal k c (l ++ s) hk (ground (arith, h)))
    ∙ ap (◌∷◌ c) (replace_first-literal k value l s hk (ground (arith, h)))

replace_first-other :
    (k value k' s : Bytes)
    → is_key k ≡ true
    → is_key k' ≡ true
    → parts k k' ≡ true
    → replace_first k value (k' ++ s) ≡ k' ++ replace_first k value s
replace_first-other k value (c ∷ d ∷ e ∷ name) s hk hk' h =
    replace_first-cons k value c (d ∷ (e ∷ (name ++ s)))
      (starts_with-parts k (c ∷ d ∷ e ∷ name) s h)
    ∙ ap (◌∷◌ c) (
        replace_first-cons k value d (e ∷ (name ++ s))
          (key-second k d e (name ++ s) hk (ground arith))
        ∙ ap (◌∷◌ d) (replace_first-literal k value (e ∷ name) s hk (ground arith)))
replace_first-other k value [] s hk hk' h = cc
replace_first-other k value (c ∷ []) s hk hk' h = cc
replace_first-other k value (c ∷ d ∷ []) s hk hk' h = cc

-- The piece suits the search for a key: it is plain text, the key itself, or a key that differs from it.
abbrev pub suits : Bytes → Piece → Bool
suits k (literal s) = is_plain s
suits k (keyed k') = is_key k' && (text_eq k k' || parts k k')

abbrev pub all_suit : Bytes → List Piece → Bool
all_suit k [] = true
all_suit k (p ∷ ps) = suits k p && all_suit k ps

abbrev pub is_keyed : Bytes → Piece → Bool
is_keyed k (literal s) = false
is_keyed k (keyed k') = text_eq k k'

abbrev pub absent : Bytes → List Piece → Bool
absent k [] = true
absent k (p ∷ ps) = not (is_keyed k p) && absent k ps

-- The key stands in the format once at most.
abbrev pub once : Bytes → List Piece → Bool
once k [] = true
once k (p ∷ ps) = if is_keyed k p then absent k ps else once k ps

abbrev pub fits : Bytes → List Piece → Bool
fits k ps = is_key k && (once k ps && all_suit k ps)

-- One key filled in.
abbrev pub fill_one : Bytes → Bytes → Piece → Piece
fill_one k value (literal s) = literal s
fill_one k value (keyed k') = if text_eq k k' then literal value else keyed k'

fill_one-absent :
    (k value : Bytes) (ps : List Piece) → absent k ps ≡ true → map (fill_one k value) ps ≡ ps
fill_one-absent k value [] h = refl
fill_one-absent k value (literal s ∷ ps) h = ap (◌∷◌ (literal s)) (fill_one-absent k value ps h)
fill_one-absent k value (keyed k' ∷ ps) h = elim (Bool-cases (text_eq k k')) [
  | inl e ↦ absurd (ground (arith, e, h))
  | inr e ↦ rw e (ap (◌∷◌ (keyed k')) (fill_one-absent k value ps (ground (arith, e, h))))
]

key-nonempty : (k : Bytes) → is_key k ≡ true → k ≢ []
key-nonempty k h e = absurd (cc (ap is_key e))

replace_first-nil : (k value : Bytes) → is_key k ≡ true → replace_first k value [] ≡ []
unfolding replace_first find starts_with
replace_first-nil [] value h = cc
replace_first-nil (c ∷ k) value h = refl

all_suit-first :
    (k : Bytes) (p : Piece) (ps : List Piece) → all_suit k (p ∷ ps) ≡ true → suits k p ≡ true
all_suit-first k p ps h = ground (arith, h)

all_suit-rest :
    (k : Bytes) (p : Piece) (ps : List Piece) → all_suit k (p ∷ ps) ≡ true → all_suit k ps ≡ true
all_suit-rest k p ps h = ground (arith, h)

suits-key :
    (k k' : Bytes)
    → text_eq k k' ≡ false
    → suits k (keyed k') ≡ true
    → (is_key k' ≡ true) × (parts k k' ≡ true)
suits-key k k' e h = (ground (arith, h), ground (arith, e, h))

-- A round of the loops on a format in pieces.
pub replace_first-render :
    (k value : Bytes) (ps : List Piece)
    → is_key k ≡ true
    → once k ps ≡ true
    → all_suit k ps ≡ true
    → replace_first k value (render ps) ≡ render (map (fill_one k value) ps)
replace_first-render k value [] hk ho hs = replace_first-nil k value hk
replace_first-render k value (literal s ∷ ps) hk ho hs =
    replace_first-literal k value s (render ps) hk (ground (arith, hs))
    ∙ ap (◌++◌ s) (replace_first-render k value ps hk ho (ground (arith, hs)))
replace_first-render k value (keyed k' ∷ ps) hk ho hs = elim (Bool-cases (text_eq k k')) [
  | inl e ↦
      let e' = text_eq_sound k k' e in
      rw (e, fill_one-absent k value ps (rw e at ho))
        (rw (← e') (replace_first-here k value (render ps) (key-nonempty k hk)))
  | inr e ↦ rw e (
      replace_first-other k value k' (render ps) hk
        (suits-key k k' e (all_suit-first k (keyed k') ps hs)).0
        (suits-key k k' e (all_suit-first k (keyed k') ps hs)).1
      ∙ ap (◌++◌ k')
          (replace_first-render k value ps hk (rw e at ho) (all_suit-rest k (keyed k') ps hs)))
]
