-- ===== src/StringHelpers/Search.antt =====
-- `std::string::find`: the position that it returns holds the text looked for, and is the first one.
use logger_cpp.Common.{
  ℕ, zero, suc, ◌+◌, ◌-◌, ◌≤◌, ◌<◌, ◌≡◌, refl, ap, true, false, [], ◌∷◌, ◌++◌, some, arith, Bytes,
  length, take, drop, Bool-cases, inl, inr, length-append,
}
use logger_cpp.StringHelpers.{starts_with, find}

pub starts_with_sound :
    (what s : Bytes) → starts_with what s ≡ true → s ≡ what ++ drop (length what) s
unfolding starts_with
starts_with_sound [] s h = refl
starts_with_sound (c ∷ what) [] h = cc
starts_with_sound (c ∷ what) (d ∷ s) h = ground (arith, starts_with_sound what s)

pub starts_with-append : (what s : Bytes) → starts_with what (what ++ s) ≡ true
unfolding starts_with
starts_with-append [] s = refl
starts_with-append (c ∷ what) s = ground (arith, starts_with-append what s)

-- The position found.
pub find_sound :
    (what s : Bytes) (p : ℕ)
    → find what s ≡ some p
    → s ≡ take p s ++ (what ++ drop (p + length what) s)
unfolding find starts_with
find_sound [] [] p h = ground arith
find_sound (c ∷ what) [] p h = cc
find_sound what (d ∷ s) zero h = ground (arith, starts_with_sound what (d ∷ s))
find_sound what (d ∷ s) (suc p) h =
    let e : suc p + length what ≡ suc (p + length what) = omega arith in
    rw e (ap (◌∷◌ d) (find_sound what s p (ground arith)))

pub find-le : (what s : Bytes) (p : ℕ) → find what s ≡ some p → p + length what ≤ length s
unfolding find starts_with
find-le [] [] p h = ground arith
find-le (c ∷ what) [] p h = cc
find-le what (d ∷ s) zero h = elim (Bool-cases (starts_with what (d ∷ s))) [
  | inl here ↦ omega (
    arith,
    ap length (starts_with_sound what (d ∷ s) here),
    length-append what (drop (length what) (d ∷ s)),
  )
  | inr later ↦ absurd (ground arith)
]
find-le what (d ∷ s) (suc p) h = omega (arith, find-le what s p (ground arith))

-- No earlier position holds the text.
pub find-first :
    (what s : Bytes) (p q : ℕ) → find what s ≡ some p → q < p → starts_with what (drop q s) ≡ false
unfolding find
find-first what [] p q h lt = ground arith
find-first what (d ∷ s) p zero h lt = ground arith
find-first what (d ∷ s) p (suc q) h lt = ground (arith, find-first what s (p - 1) q)
