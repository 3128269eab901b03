-- ===== src/Decimal.antt =====
-- lib/decimal/decimal.go: two lists of decimals under exponents of their own are brought to one
-- exponent. A value is an int64 and an exponent an int16, both as bit patterns. Go changes the lists
-- in place; here the new lists are returned. The conversions from and to float64 are not modelled.
mod Examples
pub mod Exponent
pub mod Scale
pub mod Lower
use victoria_metrics.Base.{
  ℕ, zero, suc, ◌+◌, ◌-◌, ◌*◌, ◌/◌, ◌%◌, ◌^◌, Bool, true, false, ◌||◌, List, [], ◌∷◌, map,
}
use victoria_metrics.Base.{◌==◌, ltb, leb, if◌then◌else◌}
use victoria_metrics.Base.Words.{neg64, is_neg64}

-- int16
abbrev pub add16 : ℕ → ℕ → ℕ
add16 a b = (a + b) % 2 ^ 16

abbrev pub sub16 : ℕ → ℕ → ℕ
sub16 a b = (a + 2 ^ 16 - b) % 2 ^ 16

abbrev pub flip16 : ℕ → ℕ
flip16 a = (a + 2 ^ 15) % 2 ^ 16

abbrev pub slt16 : ℕ → ℕ → Bool
slt16 a b = ltb (flip16 a) (flip16 b)

-- `vInfPos` and `vInfNeg`
abbrev pub inf_pos : ℕ
inf_pos = 2 ^ 63 - 1

abbrev pub inf_neg : ℕ
inf_neg = 2 ^ 63

-- The `switch` of `maxUpExponent`.
unfoldable pub exponent_of : ℕ → ℕ
exponent_of m =
    if leb (10 ^ 19) m
    then 19
    else if leb (10 ^ 18) m
    then 18
    else if leb (10 ^ 17) m
    then 17
    else if leb (10 ^ 16) m
    then 16
    else if leb (10 ^ 15) m
    then 15
    else if leb (10 ^ 14) m
    then 14
    else if leb (10 ^ 13) m
    then 13
    else if leb (10 ^ 12) m
    then 12
    else if leb (10 ^ 11) m
    then 11
    else if leb (10 ^ 10) m
    then 10
    else if leb (10 ^ 9) m
    then 9
    else if leb (10 ^ 8) m
    then 8
    else if leb (10 ^ 7) m
    then 7
    else if leb (10 ^ 6) m
    then 6
    else if leb (10 ^ 5) m
    then 5
    else if leb (10 ^ 4) m
    then 4
    else if leb (10 ^ 3) m
    then 3
    else if leb (10 ^ 2) m
    then 2
    else if leb (10 ^ 1) m
    then 1
    else 0

-- `if v < 0 { v = -v }`
abbrev pub magnitude : ℕ → ℕ
magnitude v = if is_neg64 v then neg64 v else v

unfoldable pub max_up_exponent : ℕ → ℕ
max_up_exponent v =
    if v == 0
    then 1024
    else let u = magnitude v in if is_neg64 u then 0 else exponent_of ((2 ^ 63 - 1) / u)

-- `for adjExp > 0 { … adjExp-- }` goes round so often.
abbrev pub rounds : ℕ → ℕ
rounds e = if ltb e (2 ^ 15) then e else 0

-- `v *= 10`, so often.
unfoldable pub mul_tens : ℕ → ℕ → ℕ
mul_tens zero v = v
mul_tens (suc n) v = mul_tens n (v * 10 % 2 ^ 64)

-- `v /= 10` cuts towards 0.
abbrev pub div_ten : ℕ → ℕ
div_ten v = if is_neg64 v then neg64 (neg64 v / 10) else v / 10

unfoldable pub div_tens : ℕ → ℕ → ℕ
div_tens zero v = v
div_tens (suc n) v = div_tens n (div_ten v)

unfoldable pub lower : ℕ → ℕ → ℕ
lower down v = if v == inf_pos || v == inf_neg then v else div_tens (rounds down) v

-- The first loop over `a`: `downExp`.
unfoldable pub down_exponent : ℕ → ℕ → List ℕ → ℕ
down_exponent up down [] = down
down_exponent up down (v ∷ a) =
    let d = sub16 up (max_up_exponent v) in down_exponent up (if slt16 down d then d else down) a

-- What follows the swap, where `ae` is the greater exponent: the new `a`, `b` and the exponent.
unfoldable pub align : List ℕ → ℕ → List ℕ → ℕ → List ℕ × List ℕ × ℕ
align a ae b be =
    let up = sub16 ae be in
    let down = down_exponent up 0 a in
    (
      map (mul_tens (rounds (sub16 up down))) a,
      (if slt16 0 down then map (lower down) b else b),
      add16 be down,
    )

unfoldable pub calibrate_scale : List ℕ → ℕ → List ℕ → ℕ → List ℕ × List ℕ × ℕ
calibrate_scale [] ae b be = if ae == be then ([], b, ae) else ([], b, be)
calibrate_scale (v ∷ a) ae [] be = (v ∷ a, [], ae)
calibrate_scale (v ∷ a) ae (w ∷ b) be =
    if ae == be
    then (v ∷ a, w ∷ b, ae)
    else if slt16 ae be
    then (let r = align (w ∷ b) be (v ∷ a) ae in (r.1, r.0, r.2))
    else align (v ∷ a) ae (w ∷ b) be
