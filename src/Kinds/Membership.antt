-- ===== src/Kinds/Membership.antt =====
-- `Set`, `Test` and `operator&` of `LogKindSet` as operations on a set of kinds.
use Prim.Native.Nat.{bit_and, bit_or, min}
use logger_cpp.Common.{
  ℕ, zero, suc, ◌+◌, ◌-◌, ◌*◌, ◌/◌, ◌%◌, ◌^◌, ◌<◌, ◌≡◌, ap, ◌&&◌, ◌||◌, ◌==◌, arith, if◌then◌else◌,
}
use logger_cpp.Common.Bits.{bit_and-digit, bit_or-digit, bit_and-zero, bit_or-zero, zero-bit_and}
use logger_cpp.Kinds.{
  LogKind, kind_technical, kind_action, kind_event, log_kind_count, kind_value, LogKindSet, set,
  test, intersect, any,
}

-- The bit of a kind, as arithmetic.
abbrev bit : LogKind → ℕ → ℕ
bit kind b = b / 2 ^ kind_value kind % 2

bit_and_mask :
    (kind : LogKind) (b : ℕ) → bit_and b (2 ^ kind_value kind) ≡ 2 ^ kind_value kind * bit kind b
bit_and_mask kind_technical b = omega (arith, bit_and-digit b 1, bit_and-zero (b / 2))
bit_and_mask kind_action b =
    omega (arith, bit_and-digit b 2, bit_and-digit (b / 2) 1, bit_and-zero (b / 2 / 2))
bit_and_mask kind_event b = omega (
  arith,
  bit_and-digit b 4,
  bit_and-digit (b / 2) 2,
  bit_and-digit (b / 2 / 2) 1,
  bit_and-zero (b / 2 / 2 / 2),
)
bit_and_mask log_kind_count b = omega (
  arith,
  bit_and-digit b 8,
  bit_and-digit (b / 2) 4,
  bit_and-digit (b / 2 / 2) 2,
  bit_and-digit (b / 2 / 2 / 2) 1,
  bit_and-zero (b / 2 / 2 / 2 / 2),
)

pub test-bit : (s : LogKindSet) (kind : LogKind) → test s kind ≡ (bit kind s.bits == 1)
unfolding test
test-bit s kind_technical = ground (arith, bit_and_mask kind_technical s.bits)
test-bit s kind_action = ground (arith, bit_and_mask kind_action s.bits)
test-bit s kind_event = ground (arith, bit_and_mask kind_event s.bits)
test-bit s log_kind_count = ground (arith, bit_and_mask log_kind_count s.bits)

bit_or_mask :
    (j : LogKind) (b : ℕ) → bit_or b (2 ^ kind_value j) ≡ b + 2 ^ kind_value j * (1 - bit j b)
bit_or_mask kind_technical b = omega (arith, bit_or-digit b 1, bit_or-zero (b / 2))
bit_or_mask kind_action b =
    omega (arith, bit_or-digit b 2, bit_or-digit (b / 2) 1, bit_or-zero (b / 2 / 2))
bit_or_mask kind_event b = omega (
  arith,
  bit_or-digit b 4,
  bit_or-digit (b / 2) 2,
  bit_or-digit (b / 2 / 2) 1,
  bit_or-zero (b / 2 / 2 / 2),
)
bit_or_mask log_kind_count b = omega (
  arith,
  bit_or-digit b 8,
  bit_or-digit (b / 2) 4,
  bit_or-digit (b / 2 / 2) 2,
  bit_or-digit (b / 2 / 2 / 2) 1,
  bit_or-zero (b / 2 / 2 / 2 / 2),
)

bit-set :
    (j k : LogKind) (b : ℕ)
    → bit k (b + 2 ^ kind_value j * (1 - bit j b))
      ≡ (if kind_value k == kind_value j then 1 else bit k b)
bit-set kind_technical kind_technical b = omega arith
bit-set kind_technical kind_action b = omega arith
bit-set kind_technical kind_event b = omega arith
bit-set kind_technical log_kind_count b = omega arith
bit-set kind_action kind_technical b = omega arith
bit-set kind_action kind_action b = omega arith
bit-set kind_action kind_event b = omega arith
bit-set kind_action log_kind_count b = omega arith
bit-set kind_event kind_technical b = omega arith
bit-set kind_event kind_action b = omega arith
bit-set kind_event kind_event b = omega arith
bit-set kind_event log_kind_count b = omega arith
bit-set log_kind_count kind_technical b = omega arith
bit-set log_kind_count kind_action b = omega arith
bit-set log_kind_count kind_event b = omega arith
bit-set log_kind_count log_kind_count b = omega arith

-- For all bits of the set and all kinds: after `Set(j)` the test of `k` passes exactly when it passed
-- before or `k` is `j`.
test-set :
    (s : LogKindSet) (j k : LogKind) → test (set s j) k ≡ (test s k || kind_value k == kind_value j)
unfolding set
test-set s j k =
    rw (test-bit (record { bits = bit_or s.bits (2 ^ kind_value j) }) k, test-bit s k)
      (ground (arith, bit_or_mask j s.bits, bit-set j k s.bits))

min-eq-mul : (x y : ℕ) → x < 2 → y < 2 → min x y ≡ x * y
min-eq-mul zero y p q = omega arith
min-eq-mul (suc zero) y p q = omega arith
min-eq-mul (suc (suc x)) y p q = absurd (omega arith)

bit_and-mod : (a b : ℕ) → bit_and a b % 2 ≡ a % 2 * (b % 2)
bit_and-mod a b =
    omega (arith, bit_and-digit a b, min-eq-mul (a % 2) (b % 2) (omega arith) (omega arith))

bit_and-half : (a b : ℕ) → bit_and a b / 2 ≡ bit_and (a / 2) (b / 2)
bit_and-half a b = omega (arith, bit_and-digit a b)

bit_and-quarter : (a b : ℕ) → bit_and a b / 4 ≡ bit_and (a / 4) (b / 4)
bit_and-quarter a b =
    let ea : a / 2 / 2 ≡ a / 4 = omega arith in
    let eb : b / 2 / 2 ≡ b / 4 = omega arith in
    rw (← ea, ← eb) (omega (arith, bit_and-half a b, bit_and-half (a / 2) (b / 2)))

bit_and-eighth : (a b : ℕ) → bit_and a b / 8 ≡ bit_and (a / 8) (b / 8)
bit_and-eighth a b =
    let ea : a / 4 / 2 ≡ a / 8 = omega arith in
    let eb : b / 4 / 2 ≡ b / 8 = omega arith in
    rw (← ea, ← eb) (omega (arith, bit_and-quarter a b, bit_and-half (a / 4) (b / 4)))

bit-intersect : (k : LogKind) (a b : ℕ) → bit k (bit_and a b) ≡ bit k a * bit k b
bit-intersect kind_technical a b = grind (arith, bit_and-mod a b)
bit-intersect kind_action a b = cc (bit_and-mod (a / 2) (b / 2), bit_and-half a b)
bit-intersect kind_event a b = cc (bit_and-mod (a / 4) (b / 4), bit_and-quarter a b)
bit-intersect log_kind_count a b = cc (bit_and-mod (a / 8) (b / 8), bit_and-eighth a b)

-- For all bits of the sets: a kind is in the intersection exactly when it is in both.
pub test-intersect :
    (s t : LogKindSet) (k : LogKind) → test (intersect s t) k ≡ (test s k && test t k)
unfolding intersect
test-intersect s t k =
    rw (test-bit (record { bits = bit_and s.bits t.bits }) k, test-bit s k, test-bit t k)
      (ground (arith, bit-intersect k s.bits t.bits))

-- Below the eighth bit the intersection is read off the three tests.
bit_and_small :
    (a b : ℕ)
    → a < 8
    → bit_and a b
      ≡ 4 * bit kind_event (bit_and a b)
        + 2 * bit kind_action (bit_and a b)
        + bit kind_technical (bit_and a b)
bit_and_small a b h =
    let e : a / 8 ≡ 0 = omega arith in
    omega (arith, bit_and-eighth a b, ap (λ (x : ℕ). bit_and x (b / 8)) e, zero-bit_and (b / 8))

-- For two sets, the first of known kinds only: their intersection is not empty exactly when one of
-- the three known kinds is in both.
pub any-intersect :
    (s t : LogKindSet)
    → s.bits < 8
    → any (intersect s t) ≡ (
        test s kind_technical && test t kind_technical
        || (test s kind_action && test t kind_action || test s kind_event && test t kind_event))
unfolding any
any-intersect s t h =
    rw
      (
        ← test-intersect s t kind_technical,
        ← test-intersect s t kind_action,
        ← test-intersect s t kind_event,
      )
      (rw
        (
          test-bit (intersect s t) kind_technical,
          test-bit (intersect s t) kind_action,
          test-bit (intersect s t) kind_event,
        )
        (unfold intersect in ground (arith, bit_and_small s.bits t.bits h)))
