-- ===== src/Encoding/Fixed/ZigZag.antt =====
-- Zig-zag in plain arithmetic: the sign goes to the lowest bit.
use victoria_metrics.Base.{ℕ, ◌+◌, ◌-◌, ◌*◌, ◌/◌, ◌%◌, ◌^◌, ◌≤◌, ◌<◌, ◌≡◌, arith}
use victoria_metrics.Base.Bits.{bit_xor-zero, bit_xor_ones}
use victoria_metrics.Encoding.Fixed.{zigzag, unzigzag}

pub zigzag64_pos : (v : ℕ) → v < 2 ^ 63 → zigzag 64 v ≡ 2 * v
unfolding zigzag
zigzag64_pos v h = ground (arith, bit_xor-zero (v * 2 ^ 1 % 2 ^ 64))

pub zigzag64_neg : (v : ℕ) → 2 ^ 63 ≤ v → v < 2 ^ 64 → zigzag 64 v + 2 * v ≡ 2 ^ 65 - 1
unfolding zigzag
zigzag64_neg v h k = ground (arith, bit_xor_ones 64 (v * 2 ^ 1 % 2 ^ 64))

pub unzigzag64_even : (u : ℕ) → u % 2 ≡ 0 → u < 2 ^ 64 → unzigzag 64 u ≡ u / 2
unfolding unzigzag
unzigzag64_even u h k = ground (arith, bit_xor-zero (u / 2 ^ 1))

pub unzigzag64_odd : (u : ℕ) → u % 2 ≡ 1 → u < 2 ^ 64 → unzigzag 64 u + u / 2 ≡ 2 ^ 64 - 1
unfolding unzigzag
unzigzag64_odd u h k = ground (arith, bit_xor_ones 64 (u / 2 ^ 1))

pub zigzag64-lt : (v : ℕ) → v < 2 ^ 64 → zigzag 64 v < 2 ^ 64
zigzag64-lt v h = ground (arith, zigzag64_pos v, zigzag64_neg v)

-- Decoding turns zig-zag back, on every int64.
pub unzigzag-zigzag64 : (v : ℕ) → v < 2 ^ 64 → unzigzag 64 (zigzag 64 v) ≡ v
unzigzag-zigzag64 v h = ground (
  arith,
  zigzag64-lt v,
  zigzag64_pos v,
  zigzag64_neg v,
  unzigzag64_even (zigzag 64 v),
  unzigzag64_odd (zigzag 64 v),
)

pub zigzag16_pos : (v : ℕ) → v < 2 ^ 15 → zigzag 16 v ≡ 2 * v
unfolding zigzag
zigzag16_pos v h = ground (arith, bit_xor-zero (v * 2 ^ 1 % 2 ^ 16))

pub zigzag16_neg : (v : ℕ) → 2 ^ 15 ≤ v → v < 2 ^ 16 → zigzag 16 v + 2 * v ≡ 2 ^ 17 - 1
unfolding zigzag
zigzag16_neg v h k = ground (arith, bit_xor_ones 16 (v * 2 ^ 1 % 2 ^ 16))

unzigzag16_even : (u : ℕ) → u % 2 ≡ 0 → u < 2 ^ 16 → unzigzag 16 u ≡ u / 2
unfolding unzigzag
unzigzag16_even u h k = ground (arith, bit_xor-zero (u / 2 ^ 1))

unzigzag16_odd : (u : ℕ) → u % 2 ≡ 1 → u < 2 ^ 16 → unzigzag 16 u + u / 2 ≡ 2 ^ 16 - 1
unfolding unzigzag
unzigzag16_odd u h k = ground (arith, bit_xor_ones 16 (u / 2 ^ 1))

pub zigzag16-lt : (v : ℕ) → v < 2 ^ 16 → zigzag 16 v < 2 ^ 16
zigzag16-lt v h = ground (arith, zigzag16_pos v, zigzag16_neg v)

pub unzigzag-zigzag16 : (v : ℕ) → v < 2 ^ 16 → unzigzag 16 (zigzag 16 v) ≡ v
unzigzag-zigzag16 v h = ground (
  arith,
  zigzag16-lt v,
  zigzag16_pos v,
  zigzag16_neg v,
  unzigzag16_even (zigzag 16 v),
  unzigzag16_odd (zigzag 16 v),
)

-- The one-byte forms of the varint fast paths.
pub zigzag8_pos : (v : ℕ) → v < 2 ^ 7 → zigzag 8 v ≡ 2 * v
unfolding zigzag
zigzag8_pos v h = ground (arith, bit_xor-zero (v * 2 ^ 1 % 2 ^ 8))

pub zigzag8_neg : (v : ℕ) → 2 ^ 7 ≤ v → v < 2 ^ 8 → zigzag 8 v + 2 * v ≡ 2 ^ 9 - 1
unfolding zigzag
zigzag8_neg v h k = ground (arith, bit_xor_ones 8 (v * 2 ^ 1 % 2 ^ 8))

pub unzigzag8_even : (u : ℕ) → u % 2 ≡ 0 → u < 2 ^ 8 → unzigzag 8 u ≡ u / 2
unfolding unzigzag
unzigzag8_even u h k = ground (arith, bit_xor-zero (u / 2 ^ 1))

pub unzigzag8_odd : (u : ℕ) → u % 2 ≡ 1 → u < 2 ^ 8 → unzigzag 8 u + u / 2 ≡ 2 ^ 8 - 1
unfolding unzigzag
unzigzag8_odd u h k = ground (arith, bit_xor_ones 8 (u / 2 ^ 1))
