-- ===== src/Encoding/Delta.antt =====
-- lib/encoding/nearest_delta.go and nearest_delta2.go: an array of int64 as its first item and the
-- varints of its differences, or of the differences of these. Below 64 precision bits the trailing
-- bits of a difference are dropped.
pub mod Lossless
pub mod Precision
pub mod Lossy
use victoria_metrics.Base.{
  ℕ, zero, suc, ◌+◌, ◌-◌, ◌*◌, ◌/◌, ◌%◌, ◌^◌, bit_and, bit_or, Bool, true, false,
}
use victoria_metrics.Base.{not, ◌&&◌, ◌==◌, List, [], ◌∷◌, ◌++◌, ltb, leb, if◌then◌else◌}
use victoria_metrics.Base.Outcome.{Outcome, ok, err, panic, ◌>>=◌}
use victoria_metrics.Base.Words.{shl, neg64, add64, sub64, is_neg64}
use victoria_metrics.Encoding.Varint.{VarintError, marshal_var_int64, marshal_var_int64s}
use victoria_metrics.Encoding.Varint.{unmarshal_var_int64s}

pub data DeltaError : Type 0 where
  bad_varint : VarintError → DeltaError
  unexpected_tail : DeltaError

-- `CheckPrecisionBits(precisionBits) == nil`
unfoldable pub valid_precision : ℕ → Bool
valid_precision pb = leb 1 pb && leb pb 64

-- `64 - bits.LeadingZeros64(x)`: how many binary digits `x` has, up to `fuel`.
unfoldable pub bit_len : ℕ → ℕ → ℕ
bit_len zero x = 0
bit_len (suc fuel) x = if x == 0 then 0 else suc (bit_len fuel (x / 2))

abbrev pub bits64 : ℕ → ℕ
bits64 = bit_len 64

-- `if v < 0 { v = -v }`; -1<<63 stays as it is.
abbrev pub abs64 : ℕ → ℕ
abs64 v = if is_neg64 v then neg64 v else v

-- uint8 arithmetic
abbrev u8 : ℕ → ℕ
u8 n = n % 256

unfoldable pub dec_if_non_zero : ℕ → ℕ
dec_if_non_zero n = if n == 0 then 0 else n - 1

unfoldable pub get_trailing_zeros : ℕ → ℕ → ℕ
get_trailing_zeros v pb = let v_bits = bits64 (abs64 v) in if leb v_bits pb then 0 else v_bits - pb

-- The trailing bits of `d` zeroed, its sign kept.
unfoldable pub zero_trailing : ℕ → ℕ → ℕ
zero_trailing d tz =
    let nd = bit_and (abs64 d) (shl 64 (2 ^ 64 - 1) tz) in if is_neg64 d then neg64 nd else nd

unfoldable pub nearest_delta : ℕ → ℕ → ℕ → ℕ → ℕ × ℕ
unfolding dec_if_non_zero zero_trailing
nearest_delta next prev pb prev_tz =
    let d = sub64 next prev in
    let origin_bits = bits64 (abs64 next) in
    let tz = origin_bits - pb in
    if d == 0
    then (0, dec_if_non_zero prev_tz)
    else if leb origin_bits pb
    then (d, dec_if_non_zero prev_tz)
    else if ltb (u8 (prev_tz + 4)) tz
    then (d, u8 (prev_tz + 2))
    else if ltb (u8 (tz + 4)) prev_tz
    then (d, prev_tz - 2)
    else (zero_trailing d tz, tz)

-- The loops of `marshalInt64NearestDelta`: `v` is the value that the decoder will have.
unfoldable pub exact_deltas : ℕ → List ℕ → List ℕ
exact_deltas v [] = []
exact_deltas v (next ∷ src) = let d = sub64 next v in d ∷ exact_deltas (add64 v d) src

unfoldable pub rounded_deltas : ℕ → ℕ → ℕ → List ℕ → List ℕ
rounded_deltas pb v tz [] = []
rounded_deltas pb v tz (next ∷ src) =
    let r = nearest_delta next v pb tz in r.0 ∷ rounded_deltas pb (add64 v r.0) r.1 src

-- The bytes and the first value.
unfoldable pub marshal_nearest_delta : List ℕ → List ℕ → ℕ → Outcome DeltaError (List ℕ × ℕ)
unfolding valid_precision
marshal_nearest_delta dst [] pb = panic
marshal_nearest_delta dst (v ∷ src) pb =
    if not (valid_precision pb)
    then panic
    else let deltas =
        if pb == 64
        then exact_deltas v src
        else rounded_deltas pb v (get_trailing_zeros v pb) src in
      ok (marshal_var_int64s dst deltas, v)

-- `for _, d := range is.A { v += d; dst = append(dst, v) }`
unfoldable pub sums : ℕ → List ℕ → List ℕ
sums v [] = []
sums v (d ∷ ds) = let v' = add64 v d in v' ∷ sums v' ds

-- `itemsCount - 1` varints and nothing behind them.
pub read_deltas : ℕ → List ℕ → Outcome DeltaError (List ℕ)
read_deltas n src = elim (unmarshal_var_int64s n src) [
  | ok (ds, []) ↦ ok ds
  | ok (ds, _ ∷ _) ↦ err unexpected_tail
  | err e ↦ err (bad_varint e)
  | panic ↦ panic
]

unfoldable pub unmarshal_nearest_delta : List ℕ → List ℕ → ℕ → ℕ → Outcome DeltaError (List ℕ)
unfolding read_deltas
unmarshal_nearest_delta dst src first_value zero = panic
unmarshal_nearest_delta dst src first_value (suc n) = do
  ds ← read_deltas n src
  ok (dst ++ first_value ∷ sums first_value ds)

-- The loops of `marshalInt64NearestDelta2`, from the second value on.
unfoldable pub exact_deltas2 : ℕ → ℕ → List ℕ → List ℕ
exact_deltas2 v d1 [] = []
exact_deltas2 v d1 (next ∷ src) =
    let d2 = sub64 (sub64 next v) d1 in
    let d1' = add64 d1 d2 in d2 ∷ exact_deltas2 (add64 v d1') d1' src

unfoldable pub rounded_deltas2 : ℕ → ℕ → ℕ → ℕ → List ℕ → List ℕ
rounded_deltas2 pb v d1 tz [] = []
rounded_deltas2 pb v d1 tz (next ∷ src) =
    let r = nearest_delta (sub64 next v) d1 pb tz in
    let d1' = add64 d1 r.0 in r.0 ∷ rounded_deltas2 pb (add64 v d1') d1' r.1 src

unfoldable pub marshal_nearest_delta2 : List ℕ → List ℕ → ℕ → Outcome DeltaError (List ℕ × ℕ)
unfolding valid_precision
marshal_nearest_delta2 dst [] pb = panic
marshal_nearest_delta2 dst (a ∷ []) pb = panic
marshal_nearest_delta2 dst (a ∷ v ∷ src) pb =
    let d1 = sub64 v a in
    if not (valid_precision pb)
    then panic
    else let deltas =
        if pb == 64
        then exact_deltas2 v d1 src
        else rounded_deltas2 pb v d1 (get_trailing_zeros v pb) src in
      ok (marshal_var_int64s (marshal_var_int64 dst d1) deltas, a)

-- `for _, d2 := range is.A[1:] { d1 += d2; v += d1; dst = append(dst, v) }`
unfoldable pub sums2 : ℕ → ℕ → List ℕ → List ℕ
sums2 v d1 [] = []
sums2 v d1 (d2 ∷ ds) = let d1' = add64 d1 d2 in let v' = add64 v d1' in v' ∷ sums2 v' d1' ds

-- `is.A[0]` panics on no deltas, which a count above 1 rules out.
pub second_order : List ℕ → ℕ → List ℕ → Outcome DeltaError (List ℕ)
second_order dst v [] = panic
second_order dst v (d1 ∷ ds) = let v' = add64 v d1 in ok (dst ++ v ∷ v' ∷ sums2 v' d1 ds)

unfoldable pub unmarshal_nearest_delta2 : List ℕ → List ℕ → ℕ → ℕ → Outcome DeltaError (List ℕ)
unfolding read_deltas second_order
unmarshal_nearest_delta2 dst src first_value zero = panic
unmarshal_nearest_delta2 dst src first_value (suc zero) = panic
unmarshal_nearest_delta2 dst src first_value (suc (suc n)) = do
  ds ← read_deltas (suc n) src
  second_order dst first_value ds
