-- ===== src/Base/Words.antt =====
-- Go's integers of fixed width. A uintN is a number below 2^N, and an intN is its bit pattern, the
-- number below 2^N that two's complement gives: `+`, `-` and `<<` wrap, and the comparisons and `>>`
-- of a signed type read the top bit.
use Prim.Native.Nat.{ℕ, ◌+◌, ◌-◌, ◌*◌, ◌/◌, ◌%◌, ◌^◌, ◌≤◌, ◌<◌}
use mathlib.Core.List.{List, [], ◌∷◌}
use mathlib.Core.Bool.{Bool}
use victoria_metrics.Base.Tests.{ltb, leb, if◌then◌else◌}

abbrev pub IsByte : ℕ → Type 0
IsByte b = b < 256

abbrev pub IsU16 : ℕ → Type 0
IsU16 v = v < 2 ^ 16

abbrev pub IsU32 : ℕ → Type 0
IsU32 v = v < 2 ^ 32

abbrev pub IsU64 : ℕ → Type 0
IsU64 v = v < 2 ^ 64

-- `a + b`, `a - b` and `-a` at 64 bits, of either sign.
abbrev pub add64 : ℕ → ℕ → ℕ
add64 a b = (a + b) % 2 ^ 64

abbrev pub sub64 : ℕ → ℕ → ℕ
sub64 a b = (a + 2 ^ 64 - b) % 2 ^ 64

abbrev pub neg64 : ℕ → ℕ
neg64 a = (2 ^ 64 - a) % 2 ^ 64

-- `v < 0` for an int64 pattern.
abbrev pub is_neg64 : ℕ → Bool
is_neg64 a = leb (2 ^ 63) a

-- The order of int64: the top bit turned over, the patterns are in the order of their numbers.
abbrev pub flip64 : ℕ → ℕ
flip64 a = (a + 2 ^ 63) % 2 ^ 64

abbrev pub slt64 : ℕ → ℕ → Bool
slt64 a b = ltb (flip64 a) (flip64 b)

abbrev pub sle64 : ℕ → ℕ → Bool
sle64 a b = leb (flip64 a) (flip64 b)

-- `v << k` at `w` bits, and `v >> k` of a signed type, which repeats the top bit.
abbrev pub shl : ℕ → ℕ → ℕ → ℕ
shl w v k = v * 2 ^ k % 2 ^ w

abbrev pub sar : ℕ → ℕ → ℕ → ℕ
sar w v k = if ltb v (2 ^ (w - 1)) then v / 2 ^ k else 2 ^ w - 1 - (2 ^ w - 1 - v) / 2 ^ k

-- The order of int64 on patterns, as a proposition.
infix 50 ◌≤ₛ◌
abbrev pub ◌≤ₛ◌ : ℕ → ℕ → Type 0
a ≤ₛ b = flip64 a ≤ flip64 b

-- Non-decreasing in the order of int64, from `lo` on.
abbrev pub IsSortedFrom : ℕ → List ℕ → Type 0
IsSortedFrom lo [] = Unit
IsSortedFrom lo (x ∷ xs) = lo ≤ₛ x × IsSortedFrom x xs
