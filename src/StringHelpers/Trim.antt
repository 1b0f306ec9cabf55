-- ===== src/StringHelpers/Trim.antt =====
-- The trimming functions: what they erase and what they leave.
use mathlib.Core.List.{reverse, reverse-append, reverse-reverse, reverse-cons}
use logger_cpp.Common.{
  ℕ, ◌≡◌, refl, ap, sym, ◌∙◌, Bool, true, false, [], ◌∷◌, ◌++◌, Bytes, All, All-append, Bool-cases,
  ◌==◌, inl, inr,
}
use logger_cpp.StringHelpers.{
  is_space, ltrim_if, rtrim_if, trim_if, trim, ltrim, rtrim, trim_char, trim_chars, one_of,
}

module _ (p : ℕ → Bool) where
  abbrev pub Holds : ℕ → Type 0
  Holds c = p c ≡ true

  -- Empty, or a first byte of which the test fails.
  abbrev pub StopsFront : Bytes → Type 0
  StopsFront [] = Unit {0}
  StopsFront (c ∷ s) = p c ≡ false

  abbrev pub StopsBack : Bytes → Type 0
  StopsBack s = StopsFront (reverse s)

  ltrim_split :
      (s : Bytes)
      → (front : Bytes) × (s ≡ front ++ ltrim_if p s) × All Holds front × StopsFront (ltrim_if p s)
  unfolding ltrim_if
  ltrim_split [] = ([], refl, tt, tt)
  ltrim_split (c ∷ s) = elim (Bool-cases (p c)) [
    | inl e ↦
        let (front, eq, holds, stops) = ltrim_split s in
        rw (e, ltrim_if) (c ∷ front, ap (◌∷◌ c) eq, (e, holds), stops)
    | inr e ↦ rw (e, ltrim_if) ([], refl, tt, e)
  ]

  All-reverse : (s : Bytes) → All Holds s → All Holds (reverse s)
  All-reverse [] h = tt
  All-reverse (c ∷ s) (hc, hs) =
      rw (reverse-cons c s) (All-append Holds (reverse s) (c ∷ []) (All-reverse s hs) (hc, tt))

  rtrim_split :
      (s : Bytes)
      → (back : Bytes) × (s ≡ rtrim_if p s ++ back) × All Holds back × StopsBack (rtrim_if p s)
  unfolding rtrim_if
  rtrim_split s =
      let (front, eq, holds, stops) = ltrim_split (reverse s) in
      let back : Bytes = reverse front in
      (
        back,
        sym (reverse-reverse s) ∙ (ap reverse eq ∙ reverse-append front (ltrim_if p (reverse s))),
        All-reverse front holds,
        rw reverse-reverse stops,
      )

  StopsFront-append : (s t : Bytes) → StopsFront (s ++ t) → StopsFront s
  StopsFront-append [] t h = tt
  StopsFront-append (c ∷ s) t h = h

  -- `t` is `s` without a front and a back of bytes that pass the test, and it neither begins nor ends
  -- with such a byte.
  abbrev pub Trimmed : Bytes → Bytes → Type 0
  Trimmed s t =
      (front back : Bytes) × (s ≡ front ++ (t ++ back))
      × All Holds front
      × All Holds back
      × StopsFront t
      × StopsBack t

  pub trim_if-Trimmed : (s : Bytes) → Trimmed s (trim_if p s)
  unfolding trim_if
  trim_if-Trimmed s =
      let (front, eq, holds, stops) = ltrim_split s in
      let (back, eq', holds', stops') = rtrim_split (ltrim_if p s) in
      (
        front,
        back,
        eq ∙ ap (◌++◌ front) eq',
        holds,
        holds',
        StopsFront-append _ back (rw eq' at stops),
        stops',
      )

-- For every text: `trim` takes white space off both ends and leaves none there, `trim_char` does so
-- with the given byte, and `trim_chars` with the bytes of the given list.
pub trim-Trimmed :
    (s : Bytes) (ch : ℕ) (chars : Bytes)
    → Trimmed is_space s (trim s)
      × Trimmed (λ c. c == ch) s (trim_char s ch)
      × Trimmed (one_of chars) s (trim_chars s chars)
unfolding trim ltrim rtrim trim_char trim_chars trim_if
trim-Trimmed s ch chars =
    (trim_if-Trimmed is_space s, trim_if-Trimmed (λ c. c == ch) s, trim_if-Trimmed (one_of chars) s)
