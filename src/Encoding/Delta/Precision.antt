-- ===== src/Encoding/Delta/Precision.antt =====
-- What the lossy delta encoder keeps of a value.
use native.Mathlib.Nat.{pow-suc, div-lt_iff_lt-mul, mod-lt}
use native.Mathlib.Nat.{mul-lt-mul_of_pos_right, div-add-mod, one-le-pow}
use victoria_metrics.Base.{ℕ, zero, suc, ◌+◌, ◌-◌, ◌*◌, ◌/◌, ◌%◌, ◌^◌, ◌≤◌, ◌<◌, ◌≡◌, refl, ap}
use victoria_metrics.Base.{◌⊎◌, inl, inr, arith, bit_and, List, [], ◌∷◌, All}
use victoria_metrics.Base.Bits.{bit_and_shifted, bit_and_ones, two_pow-add}
use victoria_metrics.Base.Bits.Table.{agree_below, agree_below→eq}
use victoria_metrics.Base.Words.{IsU64, add64, sub64, flip64, shl}
use victoria_metrics.Encoding.Delta.{bit_len, bits64, abs64, zero_trailing, nearest_delta}
use victoria_metrics.Encoding.Delta.{rounded_deltas, sums}

bit_len-zero : (fuel : ℕ) → bit_len fuel 0 ≡ 0
unfolding bit_len
bit_len-zero zero = refl
bit_len-zero (suc fuel) = refl

-- `bit_len x` is the place of the highest bit of `x`.
pub bit_len_lem :
    (fuel x : ℕ)
    → x < 2 ^ fuel
    → (x < 2 ^ bit_len fuel x) × ((x ≡ 0) ⊎ (2 ^ bit_len fuel x ≤ 2 * x)) × (bit_len fuel x ≤ fuel)
unfolding bit_len
bit_len_lem zero x h = (h, inl (omega arith), omega arith)
bit_len_lem (suc fuel) x h = ground (
  arith,
  pow-suc 2 fuel,
  pow-suc 2 (bit_len fuel (x / 2)),
  bit_len-zero fuel,
  bit_len_lem fuel (x / 2),
)

mask_table : (tz : ℕ) → tz < 64 → shl 64 (2 ^ 64 - 1) tz ≡ (2 ^ (64 - tz) - 1) * 2 ^ tz
unfolding agree_below
mask_table = agree_below→eq _ _ 64 refl

pow_table : (tz : ℕ) → tz < 64 → 2 ^ (64 - tz) * 2 ^ tz ≡ 2 ^ 64
unfolding agree_below
pow_table = agree_below→eq (λ tz. 2 ^ (64 - tz) * 2 ^ tz) (λ tz. 2 ^ 64) 64 refl

-- `d & (1<<64 - 1) << tz` takes the remainder by 2 ^ tz off.
and_mask : (m tz : ℕ) → m < 2 ^ 64 → tz < 64 → bit_and m (shl 64 (2 ^ 64 - 1) tz) + m % 2 ^ tz ≡ m
and_mask m tz hm h =
    rw (mask_table tz h, bit_and_shifted)
      (rw (bit_and_ones (64 - tz) (m / 2 ^ tz) fits) (omega (arith, div-add-mod m (2 ^ tz))))
  where
    fits : m / 2 ^ tz < 2 ^ (64 - tz)
    fits = (div-lt_iff_lt-mul (one-le-pow tz 2 (omega arith))).1 (rw (pow_table tz h) hm)

-- How far apart two int64 are: the distance of the numbers, which does not wrap.
abbrev pub distance : ℕ → ℕ → ℕ
distance a b = (flip64 a - flip64 b) + (flip64 b - flip64 a)

-- The error of one encoded difference: none, or below a unit of bit `bits(next) - pb` of `next`.
abbrev pub IsWithin : ℕ → ℕ → ℕ → Type 0
IsWithin pb next seen = (seen ≡ next) ⊎ (distance next seen * 2 ^ (pb - 1) < abs64 next)

-- Room for any two numbers of a list to be subtracted as int64.
abbrev pub IsInReach : ℕ → ℕ → Type 0
IsInReach lo v = (lo ≤ flip64 v) × (flip64 v < lo + 2 ^ 63)

zero_trailing_error :
    (next prev tz : ℕ)
    → IsU64 next
    → IsU64 prev
    → tz < 64
    → distance next prev < 2 ^ 63
    → distance next (add64 prev (zero_trailing (sub64 next prev) tz))
      ≡ abs64 (sub64 next prev) % 2 ^ tz
unfolding zero_trailing
zero_trailing_error next prev tz hn hp h near =
    ground (arith, and_mask (abs64 (sub64 next prev)) tz)

-- A rounded difference leads to a place between its ends.
zero_trailing_between :
    (lo next prev tz : ℕ)
    → IsU64 next
    → IsU64 prev
    → tz < 64
    → IsInReach lo next
    → IsInReach lo prev
    → IsInReach lo (add64 prev (zero_trailing (sub64 next prev) tz))
unfolding zero_trailing
zero_trailing_between lo next prev tz hn hp h rn rp =
    ground (arith, and_mask (abs64 (sub64 next prev)) tz)

-- Below bit `bits - pb` a remainder is small against a number of `bits` bits.
remainder_small :
    (m x pb : ℕ) → 1 ≤ pb → pb < bits64 x → IsU64 x → m % 2 ^ (bits64 x - pb) * 2 ^ (pb - 1) < x
remainder_small m x pb lo hi hx =
    let tz = bits64 x - pb in
    let below = mod-lt m (one-le-pow tz 2 (omega arith)) in
    let scaled = mul-lt-mul_of_pos_right below (one-le-pow (pb - 1) 2 (omega arith)) in
    let top : 2 ^ suc (tz + (pb - 1)) ≡ 2 ^ bits64 x = ap (λ (n : ℕ). 2 ^ n) (omega arith) in
    ground (
      arith,
      two_pow-add tz (pb - 1),
      pow-suc 2 (tz + (pb - 1)),
      bit_len_lem 64 x hx,
      bit_len-zero 64,
    )

abs64-lt : (v : ℕ) → IsU64 v → IsU64 (abs64 v)
abs64-lt v h = ground arith

exact_step : (next prev : ℕ) → IsU64 next → IsU64 prev → add64 prev (sub64 next prev) ≡ next
exact_step next prev h k = omega arith

same_step : (next prev : ℕ) → IsU64 next → IsU64 prev → sub64 next prev ≡ 0 → add64 prev 0 ≡ next
same_step next prev h k e = omega arith

-- What the decoder reaches: `next`, or a value that misses some bits of the difference.
nearest_delta-cases :
    (next prev pb prev_tz : ℕ)
    → IsU64 next
    → IsU64 prev
    → let seen = add64 prev (nearest_delta next prev pb prev_tz).0 in
      let tz = bits64 (abs64 next) - pb in
      (seen ≡ next)
      ⊎ ((pb < bits64 (abs64 next)) × (seen ≡ add64 prev (zero_trailing (sub64 next prev) tz)))
unfolding nearest_delta
nearest_delta-cases next prev pb prev_tz hn hp =
    ground (arith, exact_step next prev, same_step next prev)

few_zeros : (next pb : ℕ) → IsU64 next → 1 ≤ pb → bits64 (abs64 next) - pb < 64
few_zeros next pb h one =
    let top = bit_len_lem 64 (abs64 next) (abs64-lt next h) in omega (arith, top)

-- On every branch of `nearestDelta`, if `next` and `prev` are less than 2^63 apart, the value that
-- the decoder reaches is `next` itself, or its distance from `next` is less than `|next| / 2^(pb-1)`.
pub nearest_delta-IsWithin :
    (next prev pb prev_tz : ℕ)
    → IsU64 next
    → IsU64 prev
    → 1 ≤ pb
    → distance next prev < 2 ^ 63
    → IsWithin pb next (add64 prev (nearest_delta next prev pb prev_tz).0)
nearest_delta-IsWithin next prev pb prev_tz hn hp one near =
    elim (nearest_delta-cases next prev pb prev_tz hn hp) [
      | inl same ↦ inl same
      | inr (lossy, e) ↦
          let tz = bits64 (abs64 next) - pb in
          let error = zero_trailing_error next prev tz hn hp (few_zeros next pb hn one) near in
          let small = remainder_small (abs64 (sub64 next prev)) (abs64 next) pb one lossy in
          inr (rw (e, error) (small (abs64-lt next hn)))
    ]

nearest_delta-IsInReach :
    (lo next prev pb prev_tz : ℕ)
    → IsU64 next
    → IsU64 prev
    → 1 ≤ pb
    → IsInReach lo next
    → IsInReach lo prev
    → IsInReach lo (add64 prev (nearest_delta next prev pb prev_tz).0)
nearest_delta-IsInReach lo next prev pb prev_tz hn hp one rn rp =
    elim (nearest_delta-cases next prev pb prev_tz hn hp) [
      | inl same ↦ rw same rn
      | inr (_, e) ↦
          let tz = bits64 (abs64 next) - pb in
          rw e (zero_trailing_between lo next prev tz hn hp (few_zeros next pb hn one) rn rp)
    ]

-- Item by item.
abbrev pub AllWithin : ℕ → List ℕ → List ℕ → Type 0
AllWithin pb [] [] = Unit
AllWithin pb (x ∷ xs) (y ∷ ys) = IsWithin pb x y × AllWithin pb xs ys
AllWithin pb _ _ = ⊥

-- The encoder follows the decoder, so errors do not add up: every value that the decoder of
-- `rounded_deltas` reaches is within the precision of the source's.
pub rounded_deltas-AllWithin :
    (lo pb v tz : ℕ) (src : List ℕ)
    → 1 ≤ pb
    → IsU64 v
    → All IsU64 src
    → IsInReach lo v
    → All (IsInReach lo) src
    → AllWithin pb src (sums v (rounded_deltas pb v tz src))
unfolding sums rounded_deltas
rounded_deltas-AllWithin lo pb v tz [] one hv h rv r = tt
rounded_deltas-AllWithin lo pb v tz (x ∷ src) one hv h rv r =
    let d = nearest_delta x v pb tz in
    (
      nearest_delta-IsWithin x v pb tz h.0 hv one (omega (arith, rv, r.0)),
      rounded_deltas-AllWithin lo pb (add64 v d.0) d.1 src one (omega arith) h.1
          (nearest_delta-IsInReach lo x v pb tz h.0 hv one r.0 rv) r.1,
    )
