-- ===== src/Decimal/Scale.antt =====
-- Bringing two lists to one exponent: no product overflows, and the exponents add up.
use victoria_metrics.Base.{ℕ, ◌*◌, ◌^◌, ◌<◌, ◌≡◌}
use victoria_metrics.Base.{if◌then◌else◌, ◌⊎◌}
use victoria_metrics.Base.Words.{neg64, is_neg64}
use victoria_metrics.Decimal.{magnitude}

-- The int64 `v` times ten to the `n`, where that is an int64.
abbrev pub scaled : ℕ → ℕ → ℕ
scaled n v = if is_neg64 v then neg64 (magnitude v * 10 ^ n) else v * 10 ^ n

-- Ten to the `n` times `v` is an int64: `v` is multiplied in range, or not at all.
abbrev pub HasRoom : ℕ → ℕ → Type 0
HasRoom n v = (magnitude v * 10 ^ n < 2 ^ 63) ⊎ (n ≡ 0)
