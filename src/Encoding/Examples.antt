-- ===== src/Encoding/Examples.antt =====
-- Runs of the encoders on small inputs, and the theorems at such inputs.
use victoria_metrics.Base.{ℕ, ◌+◌, ◌-◌, ◌*◌, ◌^◌, ◌≤◌, ◌≡◌, refl, arith, some, List, [], ◌∷◌, ◌++◌}
use victoria_metrics.Base.{All, length, map}
use victoria_metrics.Base.Outcome.{ok, err, ◌>>=◌}
use victoria_metrics.Base.Words.{IsU64, IsSortedFrom, add64}
use victoria_metrics.Encoding.Fixed.{zigzag, unzigzag}
use victoria_metrics.Encoding.Varint.{
  marshal_var_uint64s, unmarshal_var_uint64s, marshal_var_int64s,
}
use victoria_metrics.Encoding.Varint.{unmarshal_var_int64s}
use victoria_metrics.Encoding.Varint.{VarintError, too_long}
use victoria_metrics.Encoding.Varint.{get_uint64, get_groups}
use victoria_metrics.Encoding.Varint.Unsigned.{unmarshal-marshal_var_uint64s}
use victoria_metrics.Encoding.Varint.Unsigned.Shape.{unmarshal_var_uint64s_shape}
use victoria_metrics.Encoding.Varint.Signed.{marshal_var_int64s-zigzag, unmarshal_var_int64s-zigzag}
use victoria_metrics.Encoding.Varint.Signed.{unmarshal-marshal_var_int64s}
use victoria_metrics.Encoding.Delta.{marshal_nearest_delta, unmarshal_nearest_delta, nearest_delta}
use victoria_metrics.Encoding.Delta.{marshal_nearest_delta2, unmarshal_nearest_delta2}
use victoria_metrics.Encoding.Delta.{bit_len, zero_trailing}
use victoria_metrics.Encoding.Delta.Precision.{IsWithin, AllWithin, nearest_delta-IsWithin}
use victoria_metrics.Encoding.Delta.Lossy.{unmarshal-marshal_nearest_delta_near}
use victoria_metrics.Encoding.Delta.Lossless.{unmarshal-marshal_nearest_delta2}
use victoria_metrics.Encoding.Array.{Zstd, marshal_int64_array, unmarshal_int64_array}
use victoria_metrics.Encoding.Array.RoundTrip.{IsLossless, unmarshal-marshal_int64_array}
use victoria_metrics.Encoding.Sequence.{ensure_non_decreasing}
use victoria_metrics.Encoding.Sequence.Laws.{ensure_non_decreasing_sound}
use victoria_metrics.Encoding.Sequence.Laws.{last_of}

-- A compressor that stores its input.
abbrev plain_zstd : Zstd
plain_zstd = record { compress = λ b level. b; decompress = some }

plain_zstd-IsLossless : IsLossless plain_zstd
plain_zstd-IsLossless = record { undo = λ b level. refl }

-- -3 as an int64
abbrev minus_three : ℕ
minus_three = 2 ^ 64 - 3

too_long_run :
    get_uint64 (255 ∷ 255 ∷ 255 ∷ 255 ∷ 255 ∷ 255 ∷ 255 ∷ 255 ∷ 255 ∷ 255 ∷ 1 ∷ []) ≡ err too_long
unfolding get_uint64 get_groups
too_long_run = refl

zigzag_run : map (zigzag 64) (0 ∷ 1 ∷ 2 ∷ minus_three ∷ []) ≡ 0 ∷ 2 ∷ 4 ∷ 5 ∷ []
unfolding zigzag
zigzag_run = refl

-- One precision bit: 8 after 1 is seen as 1.
one_bit_run : nearest_delta 8 1 1 0 ≡ (0, 3)
unfolding nearest_delta bit_len
one_bit_run = refl

-- Eight precision bits, and a difference that overflows: 1<<63 - 1 after -1<<62 is seen as -1<<63.
overflow_run :
    add64 (2 ^ 64 - 2 ^ 62) (nearest_delta (2 ^ 63 - 1) (2 ^ 64 - 2 ^ 62) 8 55).0 ≡ 2 ^ 63
unfolding nearest_delta bit_len zero_trailing
overflow_run = refl

unmarshal-marshal_var_uint64s_example :
    unmarshal_var_uint64s 2 (marshal_var_uint64s [] (300 ∷ 5 ∷ []) ++ 9 ∷ [])
    ≡ ok (300 ∷ 5 ∷ [], 9 ∷ [])
unmarshal-marshal_var_uint64s_example =
    unmarshal-marshal_var_uint64s (300 ∷ 5 ∷ []) (9 ∷ []) (omega arith)

read_two : unmarshal_var_uint64s 2 (128 ∷ 0 ∷ 5 ∷ 9 ∷ []) ≡ ok (0 ∷ 5 ∷ [], 9 ∷ [])
unfolding unmarshal_var_uint64s get_uint64 get_groups
read_two = refl

abbrev read_items : List ℕ
read_items = 0 ∷ 5 ∷ []

unmarshal_var_uint64s_shape_example :
    (length read_items ≡ 2) × All IsU64 read_items × (1 + 2 ≤ 4) × (4 ≤ 1 + 10 * 2)
unmarshal_var_uint64s_shape_example =
    unmarshal_var_uint64s_shape 2 (128 ∷ 0 ∷ 5 ∷ 9 ∷ []) (0 ∷ 5 ∷ []) (9 ∷ []) read_two

marshal_var_int64s-zigzag_example :
    marshal_var_int64s [] (minus_three ∷ 300 ∷ [])
    ≡ marshal_var_uint64s [] (map (zigzag 64) (minus_three ∷ 300 ∷ []))
marshal_var_int64s-zigzag_example =
    marshal_var_int64s-zigzag [] (minus_three ∷ 300 ∷ []) (omega arith)

unmarshal_var_int64s-zigzag_example :
    unmarshal_var_int64s 1 (5 ∷ 6 ∷ [])
    ≡ (unmarshal_var_uint64s 1 (5 ∷ 6 ∷ []) >>= λ r. ok (map (unzigzag 64) r.0, r.1))
unmarshal_var_int64s-zigzag_example = unmarshal_var_int64s-zigzag 1 (5 ∷ 6 ∷ [])

unmarshal-marshal_var_int64s_example :
    unmarshal_var_int64s 2 (marshal_var_int64s [] (minus_three ∷ 300 ∷ []) ++ 9 ∷ [])
    ≡ ok (minus_three ∷ 300 ∷ [], 9 ∷ [])
unmarshal-marshal_var_int64s_example =
    unmarshal-marshal_var_int64s (minus_three ∷ 300 ∷ []) (9 ∷ []) (omega arith)

nearest_delta-IsWithin_example : IsWithin 2 100 (add64 3 (nearest_delta 100 3 2 4).0)
nearest_delta-IsWithin_example =
    nearest_delta-IsWithin 100 3 2 4 (omega arith) (omega arith) (omega arith) (omega arith)

unmarshal-marshal_nearest_delta_near_example :
    (seen : List ℕ) × ((marshal_nearest_delta [] (7 ∷ 100 ∷ 90 ∷ []) 4 >>= λ r.
    unmarshal_nearest_delta (1 ∷ []) r.0 r.1 3)
      ≡ ok (1 ∷ 7 ∷ seen))
    × AllWithin 4 (100 ∷ 90 ∷ []) seen
unmarshal-marshal_nearest_delta_near_example =
    unmarshal-marshal_nearest_delta_near (1 ∷ []) 7 (100 ∷ 90 ∷ []) (2 ^ 63) 4 (omega arith)
      (omega arith) (omega arith) (omega arith)

unmarshal-marshal_nearest_delta2_example :
    (marshal_nearest_delta2 [] (7 ∷ 100 ∷ 90 ∷ []) 64 >>= λ r.
    unmarshal_nearest_delta2 (1 ∷ []) r.0 r.1 3)
    ≡ ok (1 ∷ 7 ∷ 100 ∷ 90 ∷ [])
unmarshal-marshal_nearest_delta2_example =
    unmarshal-marshal_nearest_delta2 (1 ∷ []) 7 100 (90 ∷ []) (omega arith)

unmarshal-marshal_int64_array_example :
    (r : List ℕ × ℕ × ℕ) × (marshal_int64_array plain_zstd [] (7 ∷ 100 ∷ 90 ∷ []) 64 ≡ ok r)
    × (unmarshal_int64_array plain_zstd (1 ∷ []) r.0 r.1 r.2 3 ≡ ok (1 ∷ 7 ∷ 100 ∷ 90 ∷ []))
unmarshal-marshal_int64_array_example =
    unmarshal-marshal_int64_array plain_zstd plain_zstd-IsLossless (1 ∷ []) 7 (100 ∷ 90 ∷ [])
      (omega arith)

ensure_non_decreasing_sound_example :
    (out : List ℕ) × (ensure_non_decreasing {E = VarintError} (4 ∷ 9 ∷ 7 ∷ 3 ∷ []) 5 8
      ≡ ok (5 ∷ out))
    × (length (5 ∷ out) ≡ 4)
    × (last_of 5 out ≡ 8)
    × IsSortedFrom 5 out
ensure_non_decreasing_sound_example = ensure_non_decreasing_sound 4 9 (7 ∷ 3 ∷ []) 5 8 (omega arith)
