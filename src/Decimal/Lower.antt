-- ===== src/Decimal/Lower.antt =====
-- `v /= 10`, so often, is one division by a power of ten that cuts towards 0.
use native.Mathlib.Nat.{pow-suc, div-div-eq-div-mul}
use victoria_metrics.Base.{ℕ, zero, suc, ◌-◌, ◌*◌, ◌/◌, ◌^◌, ◌≤◌, ◌<◌, ◌≡◌, refl, ap, sym, ◌∙◌}
use victoria_metrics.Base.{arith, List, [], ◌∷◌, map, All, ap₂, if◌then◌else◌, inl, inr}
use victoria_metrics.Base.{Bool-cases, ◌==◌, ◌||◌}
use victoria_metrics.Base.Words.{IsU64, neg64, is_neg64}
use victoria_metrics.Decimal.{magnitude, div_ten, div_tens, lower, rounds}

-- The int64 `v` divided by ten to the `n` and cut towards 0, an infinity left as it is.
abbrev pub lowered : ℕ → ℕ → ℕ
lowered n v =
    if v == 2 ^ 63 - 1 || v == 2 ^ 63
    then v
    else if is_neg64 v
    then neg64 (magnitude v / 10 ^ n)
    else v / 10 ^ n

once_more : (n v : ℕ) → v / 10 / 10 ^ n ≡ v / 10 ^ suc n
once_more n v =
    div-div-eq-div-mul v 10 (10 ^ n) ∙ ap (λ (p : ℕ). v / p) (ten_times ∙ sym (pow-suc 10 n))
  where
    ten_times : 10 * 10 ^ n ≡ 10 ^ n * 10
    ten_times = omega arith

div_pos : (n v : ℕ) → v < 2 ^ 63 → div_tens n v ≡ v / 10 ^ n
unfolding div_tens
div_pos zero v h = omega arith
div_pos (suc n) v h =
    let pos : div_ten v ≡ v / 10 = ground arith in
    rw pos (div_pos n (v / 10) (omega arith) ∙ once_more n v)

div_tens-zero : (n : ℕ) → div_tens n 0 ≡ 0
unfolding div_tens
div_tens-zero zero = refl
div_tens-zero (suc n) = div_tens-zero n

div_neg : (n u : ℕ) → u ≤ 2 ^ 63 → div_tens n (neg64 u) ≡ neg64 (u / 10 ^ n)
unfolding div_tens
div_neg zero u h = omega arith
div_neg (suc n) u h =
    let neg : div_ten (neg64 u) ≡ neg64 (u / 10) = ground arith in
    rw neg (div_neg n (u / 10) (omega arith) ∙ ap neg64 (once_more n u))

div_tens_lem :
    (n v : ℕ)
    → IsU64 v
    → div_tens n v ≡ (if is_neg64 v then neg64 (magnitude v / 10 ^ n) else v / 10 ^ n)
div_tens_lem n v w = elim (Bool-cases (is_neg64 v)) [
  | inr pos ↦ rw pos (div_pos n v (ground (arith, pos)))
  | inl neg ↦
      let back : neg64 (neg64 v) ≡ v = omega arith in
      rw neg (ap (div_tens n) (sym back) ∙ div_neg n (neg64 v) (ground (arith, neg)))
]

lower-lowered : (n v : ℕ) → n < 2 ^ 15 → IsU64 v → lower n v ≡ lowered n v
unfolding lower
lower-lowered n v h w = let all : rounds n ≡ n = ground arith in rw (all, div_tens_lem n v w) refl

-- The loop over `b`, which runs if there is something to give up.
pub lower-All :
    (n : ℕ) (b : List ℕ) → n < 2 ^ 15 → All IsU64 b → map (lower n) b ≡ map (lowered n) b
lower-All n [] h w = refl
lower-All n (v ∷ b) h w = ap₂ ◌∷◌ (lower-lowered n v h w.0) (lower-All n b h w.1)

lowered-zero : (v : ℕ) → IsU64 v → lowered 0 v ≡ v
lowered-zero v w = ground arith

pub lowered-All_zero : (b : List ℕ) → All IsU64 b → map (lowered 0) b ≡ b
lowered-All_zero [] w = refl
lowered-All_zero (v ∷ b) w = ap₂ ◌∷◌ (lowered-zero v w.0) (lowered-All_zero b w.1)
