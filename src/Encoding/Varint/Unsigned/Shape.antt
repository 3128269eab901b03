-- ===== src/Encoding/Varint/Unsigned/Shape.antt =====
-- What a successful read takes and returns, on any input.
use victoria_metrics.Base.{ℕ, zero, suc, ◌+◌, ◌*◌, ◌^◌, ◌≤◌, ◌<◌, ◌≡◌}
use victoria_metrics.Base.{arith, List, [], ◌∷◌, All, length, bit_and, bit_or}
use victoria_metrics.Base.Bits.{bit_or-lt_pow, bit_and-lt_pow}
use victoria_metrics.Base.Outcome.{Outcome, ok, ◌>>=◌, >>=-eq-ok}
use victoria_metrics.Base.Words.{IsU64, shl}
use victoria_metrics.Encoding.Varint.{VarintError, get_groups, get_uint64, unmarshal_var_uint64s}

get_groups_shape :
    (src : List ℕ) (c u read shift v : ℕ) (tail : List ℕ)
    → u < 2 ^ 64
    → read ≤ 10
    → get_groups src c u read shift ≡ ok (v, tail)
    → IsU64 v × (length tail ≤ length src) × (length src + read ≤ length tail + 10)
unfolding get_groups
get_groups_shape [] c u read shift v tail hu hr e = ground arith
get_groups_shape (b ∷ rest) c u read shift v tail hu hr e = ground (
  arith,
  bit_or-lt_pow 64 u (shl 64 (bit_and b 0x7f) (shift + 7)) hu (omega arith),
  get_groups_shape rest b (bit_or u (shl 64 (bit_and b 0x7f) (shift + 7))) (read + 1) (shift + 7) v
      tail,
)

-- One number takes 1 to 10 bytes, and is a uint64.
pub get_uint64_shape :
    (src : List ℕ) (v : ℕ) (tail : List ℕ)
    → get_uint64 src ≡ ok (v, tail)
    → IsU64 v × (length tail < length src) × (length src ≤ length tail + 10)
unfolding get_uint64
get_uint64_shape [] v tail e = cc
get_uint64_shape (c ∷ rest) v tail e = ground (
  arith,
  bit_and-lt_pow 7 c 0x7f (omega arith),
  get_groups_shape rest c (bit_and c 0x7f) 1 0 v tail,
)

abbrev after : ℕ → ℕ × List ℕ → Outcome VarintError (List ℕ × List ℕ)
after n (u, tail) = do (us, end) ← unmarshal_var_uint64s n tail; ok (u ∷ us, end)

-- Whatever `UnmarshalVarUint64s` accepts for `n` items, it returns `n` uint64 values, and takes at
-- least one byte and at most ten for each.
pub unmarshal_var_uint64s_shape :
    (n : ℕ) (src us tail : List ℕ)
    → unmarshal_var_uint64s n src ≡ ok (us, tail)
    → (length us ≡ n)
      × All IsU64 us
      × (length tail + n ≤ length src)
      × (length src ≤ length tail + 10 * n)
unfolding unmarshal_var_uint64s
unmarshal_var_uint64s_shape zero src us tail e =
    let none : [] ≡ us = cc in
    let all : src ≡ tail = cc in rw (← none, ← all) (omega arith, tt, omega arith, omega arith)
unmarshal_var_uint64s_shape (suc n) src us tail e =
    let ((u, mid), one, e') = >>=-eq-ok (get_uint64 src) (after n) e in
    let ((vs, end), more, e'') =
      >>=-eq-ok (unmarshal_var_uint64s n mid) (λ r. ok (u ∷ r.0, r.1)) e' in
    let items : u ∷ vs ≡ us = cc in
    let last : end ≡ tail = cc in
    let (hu, shorter, longer) = get_uint64_shape src u mid one in
    let (len, all, lo, hi) = unmarshal_var_uint64s_shape n mid vs end more in
    rw (← items, ← last) (omega arith, (hu, all), omega arith, omega arith)
