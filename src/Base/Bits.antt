-- ===== src/Base/Bits.antt =====
-- `|`, `^` and `&` as arithmetic: the native operations go digit by digit.
pub mod Table
pub mod Xor
use Prim.Native.Nat.{ℕ, zero, suc, ◌+◌, ◌-◌, ◌*◌, ◌/◌, ◌%◌, ◌^◌, ◌≤◌, ◌<◌, min, max}
use Prim.Native.Nat.{bit_and, bit_or, bit_xor, digits, differ}
use Prim.Native.Nat.{bit_and-bitwise, bit_or-bitwise, bit_xor-bitwise}
use mathlib.Core.Path.{◌≡◌, refl, ap}
use native.Mathlib.Nat.{
  add-zero, add-suc, pow-suc, pow-succ', one-le-pow, div-add-mod, div-div-eq-div-mul,
}
use native.Mathlib.Omega.{arith}

module _ (z : ℕ → ℕ) (f : ℕ → ℕ → ℕ) where
  -- `digits` reads its fuel only while `a` is not 0.
  spare_fuel : (a n m b : ℕ) → a ≤ n → a ≤ m → digits z f n a b ≡ digits z f m a b
  spare_fuel a n m b p q = go n m a b p q
    where
      go : (n m a b : ℕ) → a ≤ n → a ≤ m → digits z f n a b ≡ digits z f m a b
      go n m zero b p q = both n m
        where
          left : (k : ℕ) → digits z f k 0 b ≡ z b
          left zero = refl
          left (suc k) = refl

          both : (n m : ℕ) → digits z f n 0 b ≡ digits z f m 0 b
          both n m = rw (left n, left m)
      go zero m (suc a) b p q = absurd (omega arith)
      go (suc n) zero (suc a) b p q = absurd (omega arith)
      go (suc n) (suc m) (suc a) b p q =
          ap (λ (t : ℕ). t * 2 + f (suc a % 2) (b % 2))
            (go n m (suc a / 2) (b / 2) (omega arith) (omega arith))

  step_suc :
      (a b : ℕ)
      → digits z f (suc a) (suc a) b
        ≡ digits z f (suc a / 2) (suc a / 2) (b / 2) * 2 + f (suc a % 2) (b % 2)
  step_suc a b =
      ap (λ (t : ℕ). t * 2 + f (suc a % 2) (b % 2))
        (spare_fuel (suc a / 2) a (suc a / 2) (b / 2) (omega arith) (omega arith))

pub bit_or_step : (u v : ℕ) → bit_or u v ≡ bit_or (u / 2) (v / 2) * 2 + max (u % 2) (v % 2)
bit_or_step (suc u) v = simp bit_or-bitwise (step_suc (λ y. y) max u v)
bit_or_step zero v = simp bit_or-bitwise (omega arith)

pub bit_xor_step : (u v : ℕ) → bit_xor u v ≡ bit_xor (u / 2) (v / 2) * 2 + differ (u % 2) (v % 2)
bit_xor_step (suc u) v = simp bit_xor-bitwise (step_suc (λ y. y) differ u v)
bit_xor_step zero v = simp bit_xor-bitwise (omega arith)

pub bit_and_step : (u v : ℕ) → bit_and u v ≡ bit_and (u / 2) (v / 2) * 2 + min (u % 2) (v % 2)
bit_and_step (suc u) v = simp bit_and-bitwise (step_suc (λ y. 0) min u v)
bit_and_step zero v = simp bit_and-bitwise (omega arith)

differ-zero : (a : ℕ) → differ a 0 ≡ a
differ-zero zero = refl
differ-zero (suc a) = refl

-- The lowest digit of a mask of ones is 1.
differ_one : (a : ℕ) → a < 2 → differ a 1 ≡ 1 - a
differ_one zero h = refl
differ_one (suc zero) h = refl
differ_one (suc (suc a)) h = absurd (omega arith)

twice_pow : (q k : ℕ) → q * 2 ^ suc k ≡ 2 * (q * 2 ^ k)
twice_pow q k = omega (arith, ap (λ (t : ℕ). q * t) (pow-suc 2 k))

pub bit_xor-zero_below : (n a : ℕ) → a ≤ n → bit_xor a 0 ≡ a
bit_xor-zero_below n zero h = refl
bit_xor-zero_below zero (suc a) h = absurd (omega arith)
bit_xor-zero_below (suc n) (suc a) h = omega (
  arith,
  bit_xor_step (suc a) 0,
  differ-zero (suc a % 2),
  bit_xor-zero_below n (suc a / 2) (omega arith),
)

pub bit_xor-zero : (a : ℕ) → bit_xor a 0 ≡ a
bit_xor-zero a = bit_xor-zero_below a a (omega arith)

-- `a | (b << k)` adds, when `a` fits the `k` low bits.
pub bit_or_disjoint : (k a b : ℕ) → a < 2 ^ k → bit_or a (b * 2 ^ k) ≡ a + b * 2 ^ k
bit_or_disjoint zero zero b h = omega (arith, bit_or_zero)
  where
    bit_or_zero : bit_or 0 (b * 2 ^ 0) ≡ b * 2 ^ 0
    bit_or_zero = simp bit_or-bitwise
bit_or_disjoint zero (suc a) b h = absurd (omega arith)
bit_or_disjoint (suc k) a b h = ground (
  arith,
  bit_or_step a (b * 2 ^ suc k),
  twice_pow b k,
  pow-suc 2 k,
  bit_or_disjoint k (a / 2) b (omega (arith, pow-suc 2 k)),
)

pub bit_or-zero_below : (n a : ℕ) → a ≤ n → bit_or a 0 ≡ a
bit_or-zero_below n zero h = refl
bit_or-zero_below zero (suc a) h = absurd (omega arith)
bit_or-zero_below (suc n) (suc a) h =
    omega (arith, bit_or_step (suc a) 0, bit_or-zero_below n (suc a / 2) (omega arith))

-- `(q << k) | r` adds, when `r` fits the `k` low bits.
bit_or_high : (k q r : ℕ) → r < 2 ^ k → bit_or (q * 2 ^ k) r ≡ q * 2 ^ k + r
bit_or_high zero q zero h = omega (arith, bit_or-zero_below (q * 2 ^ 0) (q * 2 ^ 0) (omega arith))
bit_or_high zero q (suc r) h = absurd (omega arith)
bit_or_high (suc k) q r h = ground (
  arith,
  bit_or_step (q * 2 ^ suc k) r,
  twice_pow q k,
  pow-suc 2 k,
  bit_or_high k q (r / 2) (omega (arith, pow-suc 2 k)),
)

-- `x | r` adds, when `x` has no bit among its `k` low ones and `r` has no other.
pub bit_or_join : (k x r : ℕ) → x % 2 ^ k ≡ 0 → r < 2 ^ k → bit_or x r ≡ x + r
bit_or_join k x r e h = rw whole at (bit_or_high k (x / 2 ^ k) r h)
  where
    whole : x / 2 ^ k * 2 ^ k ≡ x
    whole = omega (arith, div-add-mod x (2 ^ k))

-- `a ^ (2^k - 1)` turns every bit over.
pub bit_xor_ones : (k a : ℕ) → a < 2 ^ k → bit_xor a (2 ^ k - 1) + a ≡ 2 ^ k - 1
bit_xor_ones zero zero h = refl
bit_xor_ones zero (suc a) h = absurd (omega arith)
bit_xor_ones (suc k) a h = ground (
  arith,
  bit_xor_step a (2 ^ suc k - 1),
  differ_one (a % 2) (omega arith),
  pow-suc 2 k,
  one-le-pow k 2,
  bit_xor_ones k (a / 2) (omega (arith, pow-suc 2 k)),
)

-- `a & (b << k)` drops the `k` low bits of `a`.
pub bit_and_shifted : (k a b : ℕ) → bit_and a (b * 2 ^ k) ≡ bit_and (a / 2 ^ k) b * 2 ^ k
bit_and_shifted zero a b = ground arith
bit_and_shifted (suc k) a b = ground (
  arith,
  bit_and_step a (b * 2 ^ suc k),
  twice_pow b k,
  twice_pow (bit_and (a / 2 ^ suc k) b) k,
  pow-suc 2 k,
  half_pow,
  bit_and_shifted k (a / 2) b,
)
  where
    half_pow : a / 2 / 2 ^ k ≡ a / 2 ^ suc k
    half_pow = rw (div-div-eq-div-mul, pow-succ')

-- A mask of `k` ones keeps a number that fits `k` bits.
pub bit_and_ones : (k a : ℕ) → a < 2 ^ k → bit_and a (2 ^ k - 1) ≡ a
bit_and_ones zero zero h = refl
bit_and_ones zero (suc a) h = absurd (omega arith)
bit_and_ones (suc k) a h = ground (
  arith,
  bit_and_step a (2 ^ suc k - 1),
  pow-suc 2 k,
  one-le-pow k 2,
  bit_and_ones k (a / 2) (omega (arith, pow-suc 2 k)),
)

bit_and-zero_below : (n a : ℕ) → a ≤ n → bit_and a 0 ≡ 0
bit_and-zero_below n zero h = refl
bit_and-zero_below zero (suc a) h = absurd (omega arith)
bit_and-zero_below (suc n) (suc a) h =
    omega (arith, bit_and_step (suc a) 0, bit_and-zero_below n (suc a / 2) (omega arith))

-- `|` and `&` stay in range.
pub bit_or-lt_pow : (k a b : ℕ) → a < 2 ^ k → b < 2 ^ k → bit_or a b < 2 ^ k
bit_or-lt_pow zero zero zero h h' = omega arith
bit_or-lt_pow zero zero (suc b) h h' = absurd (omega arith)
bit_or-lt_pow zero (suc a) b h h' = absurd (omega arith)
bit_or-lt_pow (suc k) a b h h' =
    let p = pow-suc 2 k in
    omega (arith, p, bit_or_step a b, bit_or-lt_pow k (a / 2) (b / 2) (omega arith) (omega arith))

pub bit_and-lt_pow : (k a b : ℕ) → b < 2 ^ k → bit_and a b < 2 ^ k
bit_and-lt_pow zero a zero h = omega (arith, bit_and-zero_below a a (omega arith))
bit_and-lt_pow zero a (suc b) h = absurd (omega arith)
bit_and-lt_pow (suc k) a b h =
    let p = pow-suc 2 k in
    omega (arith, p, bit_and_step a b, bit_and-lt_pow k (a / 2) (b / 2) (omega arith))

pub two_pow-add : (k j : ℕ) → 2 ^ (k + j) ≡ 2 ^ k * 2 ^ j
two_pow-add k zero = rw add-zero (omega arith)
two_pow-add k (suc j) =
    rw add-suc (omega (arith, pow-suc 2 (k + j), two_pow-add k j, twice_pow (2 ^ k) j))
