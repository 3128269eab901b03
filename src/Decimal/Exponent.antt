-- ===== src/Decimal/Exponent.antt =====
-- `maxUpExponent` gives the most tens that a value can be multiplied by.
use victoria_metrics.Base.{ℕ, zero, suc, ◌+◌, ◌-◌, ◌*◌, ◌/◌, ◌^◌, ◌≤◌, ◌<◌, ◌≡◌, ◌≢◌, arith}
use native.Mathlib.Nat.{div-add-mod, mod-lt, mul-le-mul_left, mul-le-mul_right}
use victoria_metrics.Base.Words.{IsU64}
use victoria_metrics.Decimal.{exponent_of, max_up_exponent, magnitude}

exponent_of-le : (m : ℕ) → 1 ≤ m → 10 ^ exponent_of m ≤ m
unfolding exponent_of
exponent_of-le m h = ground arith

lt-exponent_of : (m : ℕ) → m < 10 ^ 20 → m < 10 ^ (exponent_of m + 1)
unfolding exponent_of
lt-exponent_of m h = ground arith

-- `maxMultiplier` brackets what a magnitude can be multiplied by.
bracket :
    (u : ℕ)
    → 0 < u
    → (u * ((2 ^ 63 - 1) / u) ≤ 2 ^ 63 - 1) × (2 ^ 63 - 1 < u * ((2 ^ 63 - 1) / u + 1))
bracket u h =
    let m = (2 ^ 63 - 1) / u in
    let next : u * (m + 1) ≡ u * m + u = grind arith in
    omega (arith, div-add-mod (2 ^ 63 - 1) u, mod-lt (2 ^ 63 - 1) h)

some_room : (u m : ℕ) → u < 2 ^ 63 → 2 ^ 63 - 1 < u * (m + 1) → 1 ≤ m
some_room u zero h k = absurd (omega arith)
some_room u (suc m) h k = omega arith

fits :
    (u : ℕ)
    → 0 < u
    → u < 2 ^ 63
    → (u * 10 ^ exponent_of ((2 ^ 63 - 1) / u) < 2 ^ 63)
      × (2 ^ 63 ≤ u * 10 ^ (exponent_of ((2 ^ 63 - 1) / u) + 1))
fits u h k =
    let m = (2 ^ 63 - 1) / u in
    let (low, high) = bracket u h in
    let room : 1 ≤ m = some_room u m k high in
    let small : 1 * m ≤ u * m = mul-le-mul_right m h in
    let below = mul-le-mul_left u (exponent_of-le m room) in
    let above : m + 1 ≤ 10 ^ (exponent_of m + 1) = omega (arith, lt-exponent_of m (omega arith)) in
    let beyond = mul-le-mul_left u above in (omega arith, omega arith)

-- For a value other than 0 and the least int64, ten to the exponent times its magnitude is an int64,
-- and ten to the next exponent is not.
pub max_up_exponent-max :
    (v : ℕ)
    → IsU64 v
    → v ≢ 0
    → v ≢ 2 ^ 63
    → (magnitude v * 10 ^ max_up_exponent v < 2 ^ 63)
      × (2 ^ 63 ≤ magnitude v * 10 ^ (max_up_exponent v + 1))
unfolding max_up_exponent
max_up_exponent-max v h nz nm =
    let small : magnitude v < 2 ^ 63 = ground arith in
    let some : 0 < magnitude v = ground arith in ground (arith, fits (magnitude v) some small)
