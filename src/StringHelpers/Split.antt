-- ===== src/StringHelpers/Split.antt =====
-- `split`: the ranges, joined by the delimiter, are the text again.
use mathlib.Core.Option
use logger_cpp.Common.{
  ℕ, zero, suc, ◌+◌, ◌<◌, ◌≡◌, ◌≢◌, refl, ap, sym, ◌∙◌, false, Bool-cases, List, [], ◌∷◌, ◌++◌,
  Option, none, some, arith, Bytes, length, take, drop, All, Option-cases, inl, inr, length-drop,
  append-nil, ◌==◌,
}
use logger_cpp.StringHelpers.{starts_with, find, find_next, split_loop, split}
use logger_cpp.StringHelpers.Search.{find_sound, find-le}

-- The ranges behind the first one, each with the delimiter before it.
abbrev pub join_rest : Bytes → List Bytes → Bytes
join_rest delimiter [] = []
join_rest delimiter (s ∷ ss) = delimiter ++ (s ++ join_rest delimiter ss)

abbrev pub join : Bytes → List Bytes → Bytes
join delimiter [] = []
join delimiter (s ∷ ss) = s ++ join_rest delimiter ss

abbrev pub IsWithout : Bytes → Bytes → Type 0
IsWithout what s = find what s ≡ none

starts_with-take :
    (what s : Bytes) (n : ℕ) → starts_with what s ≡ false → starts_with what (take n s) ≡ false
unfolding starts_with
starts_with-take [] s n h = absurd cc
starts_with-take (c ∷ what) [] zero h = refl
starts_with-take (c ∷ what) [] (suc n) h = refl
starts_with-take (c ∷ what) (d ∷ s) zero h = refl
starts_with-take (c ∷ what) (d ∷ s) (suc n) h = ground (arith, starts_with-take what s n)

-- Before the first position there is none.
find-take :
    (c : ℕ) (what s : Bytes) (p : ℕ) → find (c ∷ what) s ≡ some p → IsWithout (c ∷ what) (take p s)
unfolding find starts_with
find-take c what [] p h = cc
find-take c what (d ∷ s) zero h = refl
find-take c what (d ∷ s) (suc p) h = elim (Bool-cases (starts_with (c ∷ what) (d ∷ s))) [
  | inl here ↦ absurd (ground arith)
  | inr later ↦
      let inner = find-take c what s p (ground arith) in
      rw (starts_with-take (c ∷ what) (d ∷ s) (suc p) later) (rw inner refl)
]

abbrev Outcome : Bytes → Bytes → Option (List Bytes) → Type 0
Outcome delimiter s r =
    (first : Bytes) × (rest : List Bytes) × (r ≡ some (first ∷ rest))
    × (join delimiter (first ∷ rest) ≡ s)
    × All (IsWithout delimiter) (first ∷ rest)

-- One range before the outcome for what is behind the delimiter.
Outcome-step :
    (c : ℕ) (what s : Bytes) (p : ℕ) (r : Option (List Bytes))
    → find (c ∷ what) s ≡ some p
    → Outcome (c ∷ what) (drop (p + length (c ∷ what)) s) r
    → Outcome (c ∷ what) s (Option.map (λ ranges. take p s ∷ ranges) r)
Outcome-step c what s p r e (first, rest, eq, joined, without) = (
  take p s,
  first ∷ rest,
  ap (Option.map (λ ranges. take p s ∷ ranges)) eq,
  ap (λ t. take p s ++ ((c ∷ what) ++ t)) joined ∙ sym (find_sound (c ∷ what) s p e),
  (find-take c what s p e, without),
)

loop-join :
    (c : ℕ) (what : Bytes) (fuel : ℕ) (s : Bytes)
    → length s < fuel
    → Outcome (c ∷ what) s (split_loop fuel (c ∷ what) s)
unfolding split_loop find_next
loop-join c what zero s h = absurd (omega arith)
loop-join c what (suc fuel) s h = elim (Option-cases (find (c ∷ what) s)) [
  | inl e ↦ rw (e, split_loop) (s, [], refl, append-nil s, (e, tt))
  | inr (p, e) ↦
      let fits = find-le (c ∷ what) s p e in
      let inside : (p == length s) ≡ false = ground arith in
      rw (e, split_loop)
        (rw (inside, split_loop)
          (Outcome-step c what s p _ e (
            loop-join c what fuel (drop (p + length (c ∷ what)) s)
              (omega (arith, length-drop (p + length (c ∷ what)) s)))))
]

-- For every text and every delimiter that is not empty: `split` ends, the ranges joined by the delimiter are
-- the text, and no range holds the delimiter.
pub split-join :
    (s delimiter : Bytes)
    → delimiter ≢ []
    → (ranges : List Bytes) × (split s delimiter ≡ some ranges)
      × (join delimiter ranges ≡ s)
      × All (IsWithout delimiter) ranges
unfolding split
split-join s [] ne = absurd (ne refl)
split-join [] (d ∷ delimiter) ne = ([], refl, refl, tt)
split-join (c ∷ s) (d ∷ delimiter) ne =
    let (first, rest, eq, joined, without) =
      loop-join d delimiter (suc (length (c ∷ s))) (c ∷ s) (omega arith) in
    (first ∷ rest, eq, joined, without)
