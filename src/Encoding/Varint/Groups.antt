-- ===== src/Encoding/Varint/Groups.antt =====
-- The bytes of one varint in plain arithmetic, and one number read back from them.
use mathlib.Core.List.{append_assoc}
use mathlib.Core.WellFounded.{Acc}
use native.Mathlib.Nat.{mod-eq_of_lt}
use native.Mathlib.Numerals.{towards_suc}
use victoria_metrics.Base.{ℕ, zero, suc, ◌+◌, ◌*◌, ◌/◌, ◌%◌, ◌^◌, ◌≤◌, ◌<◌, ◌≡◌, refl, ap, arith}
use victoria_metrics.Base.{inl, inr, bit_and, bit_or, List, [], ◌∷◌, ◌++◌, ltb}
use victoria_metrics.Base.{if◌then◌else◌, Bool-cases}
use victoria_metrics.Base.Bits.{bit_or_disjoint}
use victoria_metrics.Base.Bits.Table.{agree_below, agree_below→eq}
use victoria_metrics.Base.Outcome.{ok}
use victoria_metrics.Encoding.Varint.{put_groups, get_groups}

-- The first byte of the encoding of `w`, and those after it (at most `k`).
abbrev pub first : ℕ → ℕ
first w = if ltb 0x7f w then w % 128 + 128 else w

pub others : ℕ → ℕ → List ℕ
others zero w = []
others (suc k) w =
    let rest = first (w / 128) ∷ others k (w / 128) in if ltb 0x7f w then rest else []

pub mask_low : (b : ℕ) → b < 256 → bit_and b 0x7f ≡ b % 128
unfolding agree_below
mask_low = agree_below→eq _ _ 256 refl

set_top : (b : ℕ) → b < 256 → bit_or 0x80 b ≡ b % 128 + 128
unfolding agree_below
set_top = agree_below→eq _ _ 256 refl

pub put_groups_lem :
    (k : ℕ) (dst : List ℕ) (w : ℕ) (acc : Acc ◌<◌ w)
    → w < 128 ^ suc k
    → put_groups dst w acc ≡ dst ++ first w ∷ others k w
unfolding put_groups others
put_groups_lem zero dst w (Acc.intro _ smaller) h = ground arith
put_groups_lem (suc k) dst w (Acc.intro _ smaller) h = grind (
  arith,
  set_top (w % 256),
  λ (a : Acc ◌<◌ (w / 128)).
      put_groups_lem k (dst ++ (w % 128 + 128) ∷ []) (w / 128) a (omega arith),
  append_assoc dst ((w % 128 + 128) ∷ []) (first (w / 128) ∷ others k (w / 128)),
)

pub get_groups_last :
    (src : List ℕ) (c u read shift : ℕ) → c < 128 → get_groups src c u read shift ≡ ok (u, src)
unfolding get_groups
get_groups_last [] c u read shift h = ground arith
get_groups_last (b ∷ src) c u read shift h = ground arith

pub others_nil : (k w : ℕ) → w < 128 → others k w ≡ []
unfolding others
others_nil zero w h = refl
others_nil (suc k) w h = ground arith

others_more : (k w : ℕ) → 127 < w → others (suc k) w ≡ first (w / 128) ∷ others k (w / 128)
unfolding others
others_more k w h = ground arith

pow_seven : (k : ℕ) → 2 ^ (k + 7) ≡ 128 * 2 ^ k
pow_seven k = simp towards_suc (omega arith)

get_groups_step :
    (b : ℕ) (rest : List ℕ) (c u read shift : ℕ)
    → 128 ≤ c
    → read ≤ 9
    → b < 256
    → u < 2 ^ (shift + 7)
    → b % 128 * 2 ^ (shift + 7) < 2 ^ 64
    → get_groups (b ∷ rest) c u read shift
      ≡ get_groups rest b (u + b % 128 * 2 ^ (shift + 7)) (read + 1) (shift + 7)
unfolding get_groups
get_groups_step b rest c u read shift hc hr hb hu hs =
    ground (arith, mask_low b hb, mod-eq_of_lt hs, bit_or_disjoint (shift + 7) u (b % 128) hu)

-- Splitting `w` into groups, `s` bits up.
split_group : (w s : ℕ) → w * 2 ^ s ≡ w / 128 * 2 ^ (s + 7) + w % 128 * 2 ^ s
split_group w s =
    let whole : (w / 128 * 128 + w % 128) * 2 ^ s ≡ w * 2 ^ s = ap (λ t. t * 2 ^ s) (omega arith) in
    let moved : w / 128 * 2 ^ (s + 7) ≡ w / 128 * (128 * 2 ^ s) =
      ap (◌*◌ (w / 128)) (pow_seven s) in
    omega arith

group_bound : (w s : ℕ) → w % 128 * 2 ^ s ≤ w * 2 ^ s
group_bound w s = omega (arith, split_group w s)

low_bound : (w s acc : ℕ) → acc < 2 ^ s → acc + w % 128 * 2 ^ s < 2 ^ (s + 7)
low_bound w s acc h = let m : w % 128 ≤ 127 = omega arith in grind (arith, pow_seven s)

-- `w` is what the bytes from `first w` on stand for, `shift` bits up.
pub get_groups_lem :
    (k w acc read shift : ℕ) (rest : List ℕ)
    → w < 128 ^ suc k
    → acc < 2 ^ shift
    → acc + w * 2 ^ shift < 2 ^ 64
    → read + k ≤ 10
    → get_groups (others k w ++ rest) (first w) (acc + w % 128 * 2 ^ shift) read shift
      ≡ ok (acc + w * 2 ^ shift, rest)
get_groups_lem zero w acc read shift rest hw ha hs hr =
    ground (arith, get_groups_last rest w (acc + w * 2 ^ shift) read shift, others_nil zero w)
get_groups_lem (suc k) w acc read shift rest hw ha hs hr = elim (Bool-cases (ltb 0x7f w)) [
  | inl more ↦ ground (
    arith,
    split_group w shift,
    group_bound (w / 128) (shift + 7),
    low_bound w shift acc ha,
    others_more k w,
    get_groups_step (first (w / 128)) (others k (w / 128) ++ rest) (w % 128 + 128)
        (acc + w % 128 * 2 ^ shift) read shift,
    get_groups_lem k (w / 128) (acc + w % 128 * 2 ^ shift) (read + 1) (shift + 7) rest,
  )
  | inr last ↦
      ground (arith, others_nil (suc k) w, get_groups_last rest w (acc + w * 2 ^ shift) read shift)
]
