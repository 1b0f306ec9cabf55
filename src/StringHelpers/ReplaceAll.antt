-- ===== src/StringHelpers/ReplaceAll.antt =====
-- `replace_all`: its loop against a description of the text from left to right.
use mathlib.Core.Option
use native.Mathlib.Nat.{add-zero}
use logger_cpp.Common.{
  ℕ, zero, suc, ◌+◌, ◌*◌, ◌≤◌, ◌<◌, ◌≡◌, ◌≢◌, refl, ap, ◌∙◌, [], ◌∷◌, ◌++◌, Option, none, some,
  arith, Bytes, length, take, drop, Option-cases, inl, inr, length-drop, length-append, drop-append,
  take-append_add, drop-append_add, length-take_le, append_assoc, ltb, if◌then◌else◌,
}
use logger_cpp.StringHelpers.{find, find_from, replace, replace_all_loop, replace_all}
use logger_cpp.StringHelpers.Search.{find-le}

-- `Replaced what with' s out n`: `out` is `s` with each of its `n` occurrences of `what`, taken from
-- left to right and apart from one another, turned into `with'`. What is put in is not searched.
pub data Replaced (what with' : Bytes) : Bytes → Bytes → ℕ → Type 0 where
  none_left : {s : Bytes} → find what s ≡ none → Replaced what with' s s 0
  replaced :
      {s out : Bytes} {n : ℕ} (p : ℕ)
      → find what s ≡ some p
      → Replaced what with' (drop (p + length what) s) out n
      → Replaced what with' s (take p s ++ (with' ++ out)) (suc n)

abbrev Outcome : (what with' done rest : Bytes) (count : ℕ) → Option (Bytes × ℕ) → Type 0
Outcome what with' done rest count r =
    (out : Bytes) × (n : ℕ) × (r ≡ some (done ++ out, count + n)) × Replaced what with' rest out n

find_from-append :
    (what done rest : Bytes)
    → find_from what (done ++ rest) (length done)
      ≡ Option.map (λ (i : ℕ). length done + i) (find what rest)
unfolding find_from
find_from-append what done rest =
    rw (drop-append done rest) (ground (arith, length-append done rest))

-- One round of the loop, seen from the part of the text that is still to be searched.
replace-append :
    (done rest with' : Bytes) (p len : ℕ)
    → replace (done ++ rest) (length done + p) len with'
      ≡ (done ++ (take p rest ++ with')) ++ drop (p + len) rest
unfolding replace
replace-append done rest with' p len =
    let e : length done + p + len ≡ length done + (p + len) = omega arith in
    rw (e, take-append_add done rest p, drop-append_add done rest (p + len)) (simp append_assoc)

length-round :
    (done rest with' : Bytes) (p : ℕ)
    → p ≤ length rest
    → length (done ++ (take p rest ++ with')) ≡ length done + p + length with'
length-round done rest with' p h = omega (
  arith,
  length-append done (take p rest ++ with'),
  length-append (take p rest) with',
  length-take_le p rest h,
)

length-pos : (what : Bytes) → what ≢ [] → 0 < length what
length-pos [] ne = absurd (ne refl)
length-pos (c ∷ what) ne = omega arith

Outcome-step :
    (what with' done rest : Bytes) (count p : ℕ) (r : Option (Bytes × ℕ))
    → find what rest ≡ some p
    → Outcome what with'
        (done ++ (take p rest ++ with'))
        (drop (p + length what) rest)
        (count + 1)
        r
    → Outcome what with' done rest count r
Outcome-step what with' done rest count p r e (out, n, eq, rel) =
    (take p rest ++ (with' ++ out), suc n, eq ∙ ap some (λ i. (text i, number i)), replaced p e rel)
  where
    text : (done ++ (take p rest ++ with')) ++ out ≡ done ++ (take p rest ++ (with' ++ out))
    text = simp append_assoc

    number : count + 1 + n ≡ count + suc n
    number = omega arith

loop-Replaced :
    (what with' : Bytes)
    → what ≢ []
    → (fuel : ℕ) (done rest : Bytes) (count : ℕ) → length rest < fuel
    → Outcome what with' done rest count
        (replace_all_loop fuel (done ++ rest) what with' (length done) count)
unfolding replace_all_loop
loop-Replaced what with' ne zero done rest count h = absurd (omega arith)
loop-Replaced what with' ne (suc fuel) done rest count h = elim (Option-cases (find what rest)) [
  | inl e ↦
      rw (find_from-append what done rest, replace_all_loop)
        (rw (e, replace_all_loop) (rest, 0, rw add-zero, none_left e))
  | inr (p, e) ↦
      let fits = find-le what rest p e in
      let next =
        loop-Replaced what with' ne fuel (done ++ (take p rest ++ with'))
          (drop (p + length what) rest) (count + 1)
          (omega (arith, length-drop (p + length what) rest, length-pos what ne)) in
      rw (find_from-append what done rest, replace_all_loop)
        (rw (e, replace_all_loop)
          (rw (replace-append done rest with' p (length what)) (
            rw (← length-round done rest with' p (omega arith))
              (Outcome-step what with' done rest count p _ e next))))
]

-- For every text, every non-empty `what` and every replacement: the loop ends within its fuel, and
-- the text and the count that it returns are those of replacing the occurrences from left to right.
pub replace_all-Replaced :
    (s what with' : Bytes)
    → what ≢ []
    → (out : Bytes) × (n : ℕ) × (replace_all s what with' ≡ some (out, n))
      × Replaced what with' s out n
unfolding replace_all
replace_all-Replaced s what with' ne =
    let (out, n, eq, rel) = loop-Replaced what with' ne (suc (length s)) [] s 0 (omega arith) in
    let e : 0 + n ≡ n = omega arith in (out, n, rw e at eq, rel)

-- The lengths and the count agree.
pub Replaced-length :
    {what with' s out : Bytes} {n : ℕ}
    → Replaced what with' s out n
    → length out + n * length what ≡ length s + n * length with'
Replaced-length (none_left e) = omega arith
Replaced-length {what} {with'} {s} {out} (replaced {out = out'} {n = m} p e r) = omega (
  arith,
  Replaced-length r,
  find-le what s p e,
  length-append (take p s) (with' ++ out'),
  length-append with' out',
  length-take_le p s (omega (arith, find-le what s p e)),
  length-drop (p + length what) s,
)

find_from-nil : (s : Bytes) (pos : ℕ) → pos ≤ length s → find_from [] s pos ≡ some pos
unfolding find_from find
find_from-nil s pos h =
    elim (drop pos s)
      as (λ t.
        (if ltb (length s) pos then none else Option.map (λ (i : ℕ). pos + i) (find [] t))
        ≡ some pos) [ [] ↦ ground arith | c ∷ t ↦ ground arith ]

length-replace_nil :
    (s with' : Bytes) (pos : ℕ)
    → pos ≤ length s
    → length (replace s pos 0 with') ≡ length s + length with'
unfolding replace
length-replace_nil s with' pos h = omega (
  arith,
  length-append (take pos s) (with' ++ drop (pos + 0) s),
  length-append with' (drop (pos + 0) s),
  length-take_le pos s h,
  length-drop (pos + 0) s,
)

-- With an empty `what` no amount of fuel is enough: the loop puts `with'` in for ever.
pub replace_all_loop_empty :
    (fuel : ℕ) (s with' : Bytes) (pos count : ℕ)
    → pos ≤ length s
    → replace_all_loop fuel s [] with' pos count ≡ none
unfolding replace_all_loop
replace_all_loop_empty zero s with' pos count h = refl
replace_all_loop_empty (suc fuel) s with' pos count h =
    rw (find_from-nil s pos h, replace_all_loop)
      (replace_all_loop_empty fuel (replace s pos 0 with') with' (pos + length with') (count + 1)
        (omega (arith, length-replace_nil s with' pos h)))
