-- ===== src/Common/Text.antt =====
-- `std::string` as the list of its bytes.
use Prim.Native.Nat.{ℕ, zero, suc, ◌+◌, ◌*◌, ◌-◌, ◌/◌, ◌%◌, ◌≤◌, ◌<◌}
use Prim.Native.Char.{code}
use Prim.Native.String.{String}
use mathlib.Core.Path.{◌≡◌, refl, sym, ap, ◌∙◌}
use mathlib.Core.Bool.{Bool, true, false, ◌&&◌}
use mathlib.Core.Logic.{inl, inr, ◌≢◌}
use mathlib.Core.List.{List, [], ◌∷◌}
use native.Mathlib.Omega.{arith}
use logger_cpp.Common.Predicates.{All}
use logger_cpp.Common.Tests.{leb, ◌==◌, ltb, if◌then◌else◌, Bool-cases}

abbrev pub Bytes : Type 0
Bytes = List ℕ

-- The bytes of an ASCII literal.
abbrev pub codes : String → Bytes
codes String.[] = []
codes (String.◌∷◌ c s) = code c ∷ codes s

-- `operator==` of two strings.
abbrev pub text_eq : Bytes → Bytes → Bool
text_eq [] [] = true
text_eq [] (d ∷ t) = false
text_eq (c ∷ s) [] = false
text_eq (c ∷ s) (d ∷ t) = c == d && text_eq s t

pub text_eq_sound : (s t : Bytes) → text_eq s t ≡ true → s ≡ t
text_eq_sound [] [] h = refl
text_eq_sound [] (d ∷ t) h = cc
text_eq_sound (c ∷ s) [] h = cc
text_eq_sound (c ∷ s) (d ∷ t) h = ground (arith, text_eq_sound s t)

pub text_eq_refl : (s : Bytes) → text_eq s s ≡ true
text_eq_refl [] = refl
text_eq_refl (c ∷ s) = ground (arith, text_eq_refl s)

-- `std::to_string` of an unsigned number: the digits from the last one back. One round more than
-- the number itself is always enough.
decimal : ℕ → ℕ → Bytes → Bytes
decimal zero n acc = acc
decimal (suc f) n acc =
    let rest = decimal f (n / 10) ((b'0' + n % 10) ∷ acc) in
    if ltb n 10 then (b'0' + n) ∷ acc else rest

unfoldable pub to_string : ℕ → Bytes
unfolding decimal
to_string n = decimal (suc n) n []

abbrev pub is_digit : ℕ → Bool
is_digit c = leb b'0' c && leb c b'9'

decimal-digits :
    (f n : ℕ) (acc : Bytes)
    → All (λ c. is_digit c ≡ true) acc
    → All (λ c. is_digit c ≡ true) (decimal f n acc)
unfolding decimal
decimal-digits zero n acc h = h
decimal-digits (suc f) n acc h = elim (Bool-cases (ltb n 10)) [
  | inl e ↦ rw e (ground arith, h)
  | inr e ↦ rw e (decimal-digits f (n / 10) ((b'0' + n % 10) ∷ acc) (ground arith, h))
]

pub to_string-digits : (n : ℕ) → All (λ c. is_digit c ≡ true) (to_string n)
unfolding to_string
to_string-digits n = decimal-digits (suc n) n [] tt

-- The number that a text of digits stands for, behind the number `v`.
abbrev value_from : ℕ → Bytes → ℕ
value_from v [] = v
value_from v (c ∷ s) = value_from (v * 10 + (c - b'0')) s

decimal-value : (f n : ℕ) (acc : Bytes) → n < f → value_from 0 (decimal f n acc) ≡ value_from n acc
unfolding decimal
decimal-value zero n acc h = elim h [ ]
decimal-value (suc f) n acc h = elim (Bool-cases (ltb n 10)) [
  | inl small ↦
      rw small
        (let e : 0 * 10 + (b'0' + n - b'0') ≡ n = omega arith in ap (λ v. value_from v acc) e)
  | inr large ↦
      let more : 10 ≤ n = ground arith in
      let e : n / 10 * 10 + (b'0' + n % 10 - b'0') ≡ n = omega arith in
      rw large (
        decimal-value f (n / 10) ((b'0' + n % 10) ∷ acc) (omega arith)
        ∙ ap (λ v. value_from v acc) e)
]

-- Numbers with the same text are the same.
pub to_string_injective : (m n : ℕ) → to_string m ≡ to_string n → m ≡ n
unfolding to_string
to_string_injective m n e =
    sym (decimal-value (suc m) m [] (omega arith))
    ∙ ap (value_from 0) e
    ∙ decimal-value (suc n) n [] (omega arith)

decimal_nonempty : (f n : ℕ) (c : ℕ) (acc : Bytes) → decimal f n (c ∷ acc) ≢ []
unfolding decimal
decimal_nonempty zero n c acc = λ e. cc
decimal_nonempty (suc f) n c acc = elim (Bool-cases (ltb n 10)) [
  | inl small ↦ rw small (λ e. cc)
  | inr large ↦ rw large (decimal_nonempty f (n / 10) (b'0' + n % 10) (c ∷ acc))
]

pub to_string_nonempty : (n : ℕ) → to_string n ≢ []
unfolding to_string decimal
to_string_nonempty n = elim (Bool-cases (ltb n 10)) [
  | inl small ↦ rw small (λ e. cc)
  | inr large ↦ rw large (decimal_nonempty n (n / 10) (b'0' + n % 10) [])
]
