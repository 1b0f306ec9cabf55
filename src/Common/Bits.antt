-- ===== src/Common/Bits.antt =====
-- `|` and `&` of numbers of any size, one binary digit at a time.
use Prim.Native.Nat.{
  ℕ, zero, suc, ◌+◌, ◌-◌, ◌*◌, ◌/◌, ◌%◌, ◌≤◌, min, max, bit_and, bit_or, digits, bit_and-bitwise,
  bit_or-bitwise,
}
use mathlib.Core.Path.{◌≡◌, refl, ap, ◌∙◌}
use native.Mathlib.Omega.{arith}

-- The native operations are recursions on fuel, which the left argument gives. Fuel to spare changes
-- nothing; `left` is the result for an empty left side and `join` that of two digits.
module _ (left : ℕ → ℕ) (join : ℕ → ℕ → ℕ) where
  one_more : (fuel x y : ℕ) → x ≤ fuel → digits left join (suc fuel) x y ≡ digits left join fuel x y
  one_more zero zero y enough = refl
  one_more zero (suc x) y enough = absurd (omega arith)
  one_more (suc fuel) zero y enough = refl
  one_more (suc fuel) (suc x) y enough =
      ap (λ high. high * 2 + join (suc x % 2) (y % 2))
        (one_more fuel (suc x / 2) (y / 2) (omega arith))

  many_more :
      (more fuel x y : ℕ)
      → x ≤ fuel
      → digits left join (more + fuel) x y ≡ digits left join fuel x y
  many_more zero fuel x y enough = let e : zero + fuel ≡ fuel = omega arith in rw e refl
  many_more (suc more) fuel x y enough =
      let e : suc more + fuel ≡ suc (more + fuel) = omega arith in
      rw e (one_more (more + fuel) x y (omega arith) ∙ many_more more fuel x y enough)

  lowest_digit :
      (x y : ℕ)
      → digits left join (suc x) (suc x) y
        ≡ digits left join (suc x / 2) (suc x / 2) (y / 2) * 2 + join (suc x % 2) (y % 2)
  lowest_digit x y =
      let half : x - suc x / 2 + suc x / 2 ≡ x = omega arith in
      let e = many_more (x - suc x / 2) (suc x / 2) (suc x / 2) (y / 2) (omega arith) in
      ap (λ high. high * 2 + join (suc x % 2) (y % 2)) (rw half at e)

pub zero-bit_and : (y : ℕ) → bit_and 0 y ≡ 0
zero-bit_and y = bit_and-bitwise 0 y

zero-bit_or : (y : ℕ) → bit_or 0 y ≡ y
zero-bit_or y = bit_or-bitwise 0 y

pub bit_and-digit : (x y : ℕ) → bit_and x y ≡ 2 * bit_and (x / 2) (y / 2) + min (x % 2) (y % 2)
bit_and-digit zero y = omega (arith, zero-bit_and y, zero-bit_and (y / 2))
bit_and-digit (suc x) y =
    let low = lowest_digit (λ _. zero) min x y in
    omega (arith, low, bit_and-bitwise (suc x) y, bit_and-bitwise (suc x / 2) (y / 2))

pub bit_or-digit : (x y : ℕ) → bit_or x y ≡ 2 * bit_or (x / 2) (y / 2) + max (x % 2) (y % 2)
bit_or-digit zero y = omega (arith, zero-bit_or y, zero-bit_or (y / 2))
bit_or-digit (suc x) y =
    let low = lowest_digit (λ right. right) max x y in
    omega (arith, low, bit_or-bitwise (suc x) y, bit_or-bitwise (suc x / 2) (y / 2))

zeros : (bound x : ℕ) → x ≤ bound → (bit_and x 0 ≡ 0) × (bit_or x 0 ≡ x)
zeros bound zero small = (zero-bit_and 0, zero-bit_or 0)
zeros zero (suc x) small = absurd (omega arith)
zeros (suc bound) (suc x) small =
    let (none_set, kept) = zeros bound (suc x / 2) (omega arith) in
    (omega (arith, none_set, bit_and-digit (suc x) 0), omega (arith, kept, bit_or-digit (suc x) 0))

pub bit_and-zero : (x : ℕ) → bit_and x 0 ≡ 0
bit_and-zero x = (zeros x x (omega arith)).0

pub bit_or-zero : (x : ℕ) → bit_or x 0 ≡ x
bit_or-zero x = (zeros x x (omega arith)).1
