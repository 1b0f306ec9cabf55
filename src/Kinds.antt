-- ===== src/Kinds.antt =====
-- `LogKind` and `LogKindSet` (Source/SharedLibraries/CommonTools/include/Logger.h and Logger.cpp):
-- a set of log kinds as the bits of a `size_t`. The proofs are in the child modules.
pub mod Membership
pub mod Names
use Prim.Native.Nat.{bit_and, bit_or}
use logger_cpp.Common.{
  ℕ, zero, suc, ◌+◌, ◌-◌, ◌%◌, ◌^◌, Bool, true, false, not, List, [], ◌∷◌, ◌++◌, ◌==◌, ltb, Bytes,
  codes, to_string, length, if◌then◌else◌,
}

pub data LogKind : Type 0 where
  kind_technical kind_action kind_event log_kind_count : LogKind

-- `static_cast<size_t>(kind)`.
abbrev pub kind_value : LogKind → ℕ
kind_value kind_technical = 0
kind_value kind_action = 1
kind_value kind_event = 2
kind_value log_kind_count = 3

pub record LogKindSet : Type 0 where
  pub bits : ℕ

-- The constructors.
abbrev pub empty : LogKindSet
empty = record { bits = 0 }

abbrev pub of_bits : ℕ → LogKindSet
of_bits b = record { bits = b }

unfoldable pub set : LogKindSet → LogKind → LogKindSet
set s kind = record { bits = bit_or s.bits (2 ^ kind_value kind) }

unfoldable pub of_kind : LogKind → LogKindSet
of_kind kind = set empty kind

-- The loop of the constructor from an initializer list.
set_each : LogKindSet → List LogKind → LogKindSet
set_each s [] = s
set_each s (kind ∷ kinds) = set_each (set s kind) kinds

unfoldable pub of_kinds : List LogKind → LogKindSet
unfolding set_each
of_kinds kinds = set_each empty kinds

unfoldable pub test : LogKindSet → LogKind → Bool
test s kind = not (bit_and s.bits (2 ^ kind_value kind) == 0)

-- `Set_all` and `All_set` compute the same bits.
abbrev pub all_set : LogKindSet
all_set = record { bits = 2 ^ kind_value log_kind_count - 1 }

-- The loop of `Count`: the rounds left, the bit `i` and the count so far.
count_loop : ℕ → ℕ → ℕ → ℕ → ℕ
count_loop zero bits i count = count
count_loop (suc rounds) bits i count =
    count_loop rounds bits (i + 1) (if bit_and bits (2 ^ i) == 0 then count else count + 1)

unfoldable pub count : LogKindSet → ℕ
unfolding count_loop
count s = count_loop (kind_value log_kind_count) s.bits 0 0

unfoldable pub any : LogKindSet → Bool
any s = not (s.bits == 0)

unfoldable pub all : LogKindSet → Bool
all s = s.bits == 2 ^ kind_value log_kind_count - 1

unfoldable pub intersect : LogKindSet → LogKindSet → LogKindSet
intersect s t = record { bits = bit_and s.bits t.bits }

-- `operator==`.
unfoldable pub kinds_eq : LogKindSet → LogKindSet → Bool
kinds_eq s t = s.bits == t.bits

-- The three pushes of `To_string`, in the order of the code.
unfoldable pub known_names : LogKindSet → List Bytes
known_names s =
    (if test s kind_technical then codes "TECHNICAL" ∷ [] else [])
    ++ (if test s kind_action then codes "ACTION" ∷ [] else [])
    ++ (if test s kind_event then codes "EVENT" ∷ [] else [])

-- `size_t no_unknowns`, a subtraction of 64-bit numbers.
unfoldable pub no_unknowns : LogKindSet → ℕ
no_unknowns s = (count s + 2 ^ 64 - length (known_names s)) % 2 ^ 64

all_names : LogKindSet → List Bytes
all_names s =
    known_names s
    ++ (if ltb 0 (no_unknowns s)
        then (to_string (no_unknowns s) ++ codes " UNKNOWN KINDS") ∷ []
        else [])

-- The loop that joins the names; `first` is the test `i > 0` turned round.
unfoldable pub join_names : Bool → List Bytes → Bytes → Bytes
join_names first [] output = output
join_names first (name ∷ names) output =
    join_names false names ((if first then output else output ++ codes ",") ++ name)

unfoldable pub kinds_to_string : LogKindSet → Bytes
unfolding all_names join_names
kinds_to_string s = if all s then codes "ALL" else join_names true (all_names s) []
