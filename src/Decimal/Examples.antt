-- ===== src/Decimal/Examples.antt =====
-- The scaling of decimals at concrete inputs.
use victoria_metrics.Base.{◌+◌, ◌-◌, ◌*◌, ◌^◌, ◌≤◌, ◌<◌, ◌≡◌, refl, arith, [], ◌∷◌}
use victoria_metrics.Decimal.{
  magnitude, max_up_exponent, exponent_of, calibrate_scale, align, lower,
}
use victoria_metrics.Decimal.{mul_tens, down_exponent, div_tens}
use victoria_metrics.Decimal.Exponent.{max_up_exponent-max}

-- 12 and -3 at the exponent 2 become 1200 and -300 at the exponent 0.
scale_run :
    calibrate_scale (12 ∷ (2 ^ 64 - 3) ∷ []) 2 (5 ∷ []) 0 ≡ (1200 ∷ (2 ^ 64 - 300) ∷ [], 5 ∷ [], 0)
unfolding calibrate_scale align down_exponent max_up_exponent exponent_of mul_tens
scale_run = refl

-- A value with no room: the other list gives up its last two digits.
full_run : calibrate_scale (2 ^ 62 ∷ []) 2 (1234 ∷ []) 0 ≡ (2 ^ 62 ∷ [], 12 ∷ [], 2)
unfolding calibrate_scale align down_exponent max_up_exponent exponent_of mul_tens lower div_tens
full_run = refl

max_up_exponent-max_example :
    (magnitude 1234 * 10 ^ max_up_exponent 1234 < 2 ^ 63)
    × (2 ^ 63 ≤ magnitude 1234 * 10 ^ (max_up_exponent 1234 + 1))
max_up_exponent-max_example = max_up_exponent-max 1234 (omega arith) (omega arith) (omega arith)
