-- ===== src/Base/Bits/Xor.antt =====
-- `^` undoes itself and stays in range.
use Prim.Native.Nat.{ℕ, zero, suc, ◌+◌, ◌*◌, ◌/◌, ◌%◌, ◌^◌, ◌<◌, bit_xor, differ}
use mathlib.Core.Path.{◌≡◌, refl, subst}
use native.Mathlib.Nat.{pow-suc}
use native.Mathlib.Omega.{arith}
use victoria_metrics.Base.Bits.{bit_xor_step, bit_xor-zero_below}

differ_back : (a b : ℕ) → a < 2 → b < 2 → differ (differ a b) b ≡ a
differ_back zero zero h k = refl
differ_back zero (suc zero) h k = refl
differ_back (suc zero) zero h k = refl
differ_back (suc zero) (suc zero) h k = refl
differ_back (suc (suc a)) b h k = absurd (omega arith)
differ_back a (suc (suc b)) h k = absurd (omega arith)

differ-lt : (a b : ℕ) → a < 2 → b < 2 → differ a b < 2
differ-lt zero zero h k = omega arith
differ-lt zero (suc zero) h k = omega arith
differ-lt (suc zero) zero h k = omega arith
differ-lt (suc zero) (suc zero) h k = omega arith
differ-lt (suc (suc a)) b h k = absurd (omega arith)
differ-lt a (suc (suc b)) h k = absurd (omega arith)

pub bit_xor-lt_pow : (k a b : ℕ) → a < 2 ^ k → b < 2 ^ k → bit_xor a b < 2 ^ k
bit_xor-lt_pow zero zero zero h h' = omega (arith, bit_xor-zero_below 0 0 (omega arith))
bit_xor-lt_pow zero zero (suc b) h h' = absurd (omega arith)
bit_xor-lt_pow zero (suc a) b h h' = absurd (omega arith)
bit_xor-lt_pow (suc k) a b h h' =
    let p = pow-suc 2 k in
    omega (
      arith,
      p,
      bit_xor_step a b,
      differ-lt (a % 2) (b % 2) (omega arith) (omega arith),
      bit_xor-lt_pow k (a / 2) (b / 2) (omega arith) (omega arith),
    )

-- `x ^ y ^ y` is `x`.
pub bit_xor_back : (k a b : ℕ) → a < 2 ^ k → b < 2 ^ k → bit_xor (bit_xor a b) b ≡ a
bit_xor_back zero zero zero h h' = refl
bit_xor_back zero zero (suc b) h h' = absurd (omega arith)
bit_xor_back zero (suc a) b h h' = absurd (omega arith)
bit_xor_back (suc k) a b h h' =
    let p = pow-suc 2 k in
    let low = differ-lt (a % 2) (b % 2) (omega arith) (omega arith) in
    let high : bit_xor a b / 2 ≡ bit_xor (a / 2) (b / 2) = omega (arith, bit_xor_step a b, low) in
    let digit : bit_xor a b % 2 ≡ differ (a % 2) (b % 2) = omega (arith, bit_xor_step a b, low) in
    let step : bit_xor (bit_xor a b) b
        ≡ bit_xor (bit_xor (a / 2) (b / 2)) (b / 2) * 2 + differ (differ (a % 2) (b % 2)) (b % 2) =
      subst
        (λ q.
          bit_xor (bit_xor a b) b ≡ bit_xor q (b / 2) * 2 + differ (differ (a % 2) (b % 2)) (b % 2))
        high
        (subst
          (λ d. bit_xor (bit_xor a b) b ≡ bit_xor (bit_xor a b / 2) (b / 2) * 2 + differ d (b % 2))
          digit (bit_xor_step (bit_xor a b) b)) in
    omega (
      arith,
      step,
      differ_back (a % 2) (b % 2) (omega arith) (omega arith),
      bit_xor_back k (a / 2) (b / 2) (omega arith) (omega arith),
    )
