-- ===== src/Encoding/Varint.antt =====
-- lib/encoding/int.go: integers in groups of seven bits, lowest first, and length-prefixed bytes.
-- `UnmarshalVarUint64s(dst, src)` fills `len(dst)` items: the model takes that length and returns
-- the items with the tail. The slice that Go returns beside an error is dropped by every caller, and
-- is not modelled.
pub mod Groups
pub mod Unsigned
pub mod Signed
use mathlib.Core.Logic.{dite}
use mathlib.Core.WellFounded.{Acc}
use native.Mathlib.Decide.{dec_lt}
use victoria_metrics.Base.{ℕ, zero, suc, ◌+◌, ◌-◌, ◌*◌, ◌/◌, ◌%◌, ◌^◌, ◌<◌, bit_and, bit_or, arith}
use victoria_metrics.Base.{◌&&◌, List, [], ◌∷◌, ◌++◌, ltb}
use victoria_metrics.Base.{if◌then◌else◌, length, take, drop}
use victoria_metrics.Base.Order.{lt_wf}
use victoria_metrics.Base.Outcome.{Outcome, ok, err, panic, ◌>>=◌}
use victoria_metrics.Base.Words.{shl, neg64, slt64}
use victoria_metrics.Encoding.Fixed.{zigzag, unzigzag}

pub data VarintError : Type 0 where
  empty_data unexpected_end too_long : VarintError
  bad_size : VarintError → VarintError
  short_src : VarintError

pub shift_shrinks : (u : ℕ) → 0x7f < u → u / 2 ^ 7 < u
shift_shrinks u h = omega arith

-- `for u > 0x7f { dst = append(dst, 0x80|byte(u)); u >>= 7 }; dst = append(dst, byte(u))`
pub put_groups : List ℕ → (u : ℕ) → Acc ◌<◌ u → List ℕ
put_groups dst u (Acc.intro _ smaller) =
    dite (dec_lt 0x7f u)
      (λ more.
        put_groups (dst ++ bit_or 0x80 (u % 256) ∷ []) (u / 2 ^ 7)
          (smaller (u / 2 ^ 7) (shift_shrinks u more)))
      (λ _. dst ++ u % 256 ∷ [])

-- The body of the loop of `MarshalVarUint64s`.
unfoldable pub put_uint64 : List ℕ → ℕ → List ℕ
unfolding put_groups lt_wf dec_lt
put_uint64 dst u = if ltb u 0x80 then dst ++ u % 256 ∷ [] else put_groups dst u (lt_wf.apply u)

unfoldable pub marshal_var_uint64s : List ℕ → List ℕ → List ℕ
marshal_var_uint64s dst [] = dst
marshal_var_uint64s dst (u ∷ us) = marshal_var_uint64s (put_uint64 dst u) us

unfoldable pub marshal_var_uint64 : List ℕ → ℕ → List ℕ
marshal_var_uint64 dst u = marshal_var_uint64s dst (u ∷ [])

-- The body of the loop of `MarshalVarInt64s`; the fast path works on an int8.
unfoldable pub put_int64 : List ℕ → ℕ → List ℕ
unfolding put_groups lt_wf dec_lt
put_int64 dst v =
    if slt64 v 0x40 && slt64 (neg64 0x40) v
    then dst ++ zigzag 8 (v % 256) ∷ []
    else put_groups dst (zigzag 64 v) (lt_wf.apply (zigzag 64 v))

unfoldable pub marshal_var_int64s : List ℕ → List ℕ → List ℕ
marshal_var_int64s dst [] = dst
marshal_var_int64s dst (v ∷ vs) = marshal_var_int64s (put_int64 dst v) vs

unfoldable pub marshal_var_int64 : List ℕ → ℕ → List ℕ
marshal_var_int64 dst v = marshal_var_int64s dst (v ∷ [])

-- The slow path's loop: `c` is the byte read last, `read` is `idx - startIdx`, and the list is
-- `src[idx:]`.
unfoldable pub get_groups : List ℕ → ℕ → ℕ → ℕ → ℕ → Outcome VarintError (ℕ × List ℕ)
get_groups [] c u read shift = if ltb c 0x80 then ok (u, []) else err unexpected_end
get_groups (b ∷ rest) c u read shift =
    if ltb c 0x80
    then ok (u, b ∷ rest)
    else if ltb 9 read
    then err too_long
    else get_groups rest b (bit_or u (shl 64 (bit_and b 0x7f) (shift + 7))) (read + 1) (shift + 7)

-- The body of the loop of `UnmarshalVarUint64s`.
unfoldable pub get_uint64 : List ℕ → Outcome VarintError (ℕ × List ℕ)
get_uint64 [] = err empty_data
get_uint64 (c ∷ rest) = if ltb c 0x80 then ok (c, rest) else get_groups rest c (bit_and c 0x7f) 1 0

unfoldable pub unmarshal_var_uint64s : ℕ → List ℕ → Outcome VarintError (List ℕ × List ℕ)
unmarshal_var_uint64s zero src = ok ([], src)
unmarshal_var_uint64s (suc n) src = do
  (u, tail) ← get_uint64 src
  (us, end) ← unmarshal_var_uint64s n tail
  ok (u ∷ us, end)

unfoldable pub unmarshal_var_uint64 : List ℕ → Outcome VarintError (ℕ × List ℕ)
unmarshal_var_uint64 src = get_uint64 src

-- `int64(v)` of an int8.
abbrev pub sext8 : ℕ → ℕ
sext8 v = if ltb v (2 ^ 7) then v else v + (2 ^ 64 - 2 ^ 8)

-- The body of the loop of `UnmarshalVarInt64s`.
unfoldable pub get_int64 : List ℕ → Outcome VarintError (ℕ × List ℕ)
get_int64 [] = err empty_data
get_int64 (c ∷ rest) =
    if ltb c 0x80
    then ok (sext8 (unzigzag 8 c), rest)
    else (do (u, tail) ← get_groups rest c (bit_and c 0x7f) 1 0; ok (unzigzag 64 u, tail))

unfoldable pub unmarshal_var_int64s : ℕ → List ℕ → Outcome VarintError (List ℕ × List ℕ)
unmarshal_var_int64s zero src = ok ([], src)
unmarshal_var_int64s (suc n) src = do
  (v, tail) ← get_int64 src
  (vs, end) ← unmarshal_var_int64s n tail
  ok (v ∷ vs, end)

unfoldable pub unmarshal_var_int64 : List ℕ → Outcome VarintError (ℕ × List ℕ)
unmarshal_var_int64 src = get_int64 src

unfoldable pub marshal_bytes : List ℕ → List ℕ → List ℕ
marshal_bytes dst b = marshal_var_uint64 dst (length b) ++ b

-- The tail first, then the bytes, as in Go.
unfoldable pub unmarshal_bytes : List ℕ → Outcome VarintError (List ℕ × List ℕ)
unmarshal_bytes src = elim (unmarshal_var_uint64 src) [
  | ok (n, tail) ↦ if ltb (length tail) n then err short_src else ok (drop n tail, take n tail)
  | err e ↦ err (bad_size e)
  | panic ↦ panic
]
