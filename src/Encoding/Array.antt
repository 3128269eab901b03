-- ===== src/Encoding/Array.antt =====
-- lib/encoding/encoding.go: `marshalInt64Array` chooses how an array of int64 is written, and
-- `unmarshalInt64Array` reads it by the type that was chosen. `MarshalTimestamps`, `MarshalValues`
-- and their readers are these functions (their error texts apart).
-- zstd is not this repository's code: it is the parameter `Zstd`. A `float64` product 0.9 * n is
-- compared with whole numbers only, so `10 * m > 9 * n` is the same test for lengths below 2^50.
pub mod Kind
pub mod Kinds
pub mod RoundTrip
use victoria_metrics.Base.{ℕ, zero, suc, ◌+◌, ◌*◌, ◌/◌, ◌^◌, Bool, true, false, not, ◌&&◌, ◌||◌}
use victoria_metrics.Base.{Option, none, some, List, [], ◌∷◌, ◌++◌, ltb, leb, ◌==◌, if◌then◌else◌}
use victoria_metrics.Base.{length, replicate}
use victoria_metrics.Base.Outcome.{Outcome, ok, err, panic, ◌>>=◌}
use victoria_metrics.Base.Words.{add64, sub64, slt64, is_neg64, sar}
use victoria_metrics.Encoding.Varint.{VarintError, marshal_var_int64, unmarshal_var_int64}
use victoria_metrics.Encoding.Delta.{DeltaError, marshal_nearest_delta, marshal_nearest_delta2}
use victoria_metrics.Encoding.Delta.{unmarshal_nearest_delta, unmarshal_nearest_delta2}

-- `zstd.CompressLevel(nil, src, level)` and `zstd.Decompress(nil, src)`.
pub record Zstd : Type 0 where
  pub compress : List ℕ → ℕ → List ℕ
  pub decompress : List ℕ → Option (List ℕ)

pub data ArrayError : Type 0 where
  bad_zstd bad_delta_tail unexpected_data : ArrayError
  bad_nearest_delta : DeltaError → ArrayError
  bad_delta_const : VarintError → ArrayError
  unknown_kind : ℕ → ArrayError

-- `CheckMarshalType(mt) == nil`; 0 passes, and no reader knows it.
unfoldable pub valid_kind : ℕ → Bool
valid_kind mt = leb mt 6

pub all_equal : ℕ → List ℕ → Bool
all_equal v1 [] = true
all_equal v1 (v ∷ vs) = v == v1 && all_equal v1 vs

unfoldable pub is_const : List ℕ → Bool
unfolding all_equal
is_const [] = false
is_const (v1 ∷ vs) = all_equal v1 (v1 ∷ vs)

pub steps_by : ℕ → ℕ → List ℕ → Bool
steps_by d1 prev [] = true
steps_by d1 prev (next ∷ vs) = sub64 next prev == d1 && steps_by d1 next vs

unfoldable pub is_delta_const : List ℕ → Bool
unfolding steps_by
is_delta_const [] = false
is_delta_const (a ∷ []) = false
is_delta_const (a ∷ b ∷ vs) = steps_by (sub64 b a) b vs

-- The loop of `isGauge` with its early returns; `n` is `len(a)`.
gauge_loop : ℕ → ℕ → ℕ → List ℕ → Bool
gauge_loop n prev resets [] = if leb resets 2 then false else ltb (n / 2 ^ 3) resets
gauge_loop n prev resets (v ∷ vs) =
    let falls = slt64 v prev in
    let rest = gauge_loop n v (if falls then resets + 1 else resets) vs in
    if falls && (is_neg64 v || slt64 (sar 64 prev 3) v) then true else rest

unfoldable pub is_gauge : List ℕ → Bool
unfolding gauge_loop
is_gauge [] = false
is_gauge (a ∷ []) = false
is_gauge (a ∷ b ∷ vs) = if is_neg64 a then true else gauge_loop (length (a ∷ b ∷ vs)) a 0 (b ∷ vs)

unfoldable pub get_compress_level : ℕ → ℕ
get_compress_level n =
    if leb n (2 ^ 6)
    then 1
    else if leb n (2 ^ 8)
    then 2
    else if leb n (2 ^ 10)
    then 3
    else if leb n (2 ^ 12)
    then 4
    else 5

abbrev pub min_compressible_block_size : ℕ
min_compressible_block_size = 128

-- `a[1] - a[0]`; there is an `a[1]` where the array is not constant.
pub first_delta : ℕ → List ℕ → ℕ
first_delta a [] = 0
first_delta a (b ∷ vs) = sub64 b a

pub read_const : List ℕ → List ℕ → ℕ → ℕ → Outcome ArrayError (List ℕ)
read_const dst [] first n = ok (dst ++ replicate n first)
read_const dst (_ ∷ _) first n = err unexpected_data

-- `for itemsCount > 0 { dst = append(dst, v); itemsCount--; v += d }`
pub progression : ℕ → ℕ → ℕ → List ℕ
progression v d zero = []
progression v d (suc n) = v ∷ progression (add64 v d) d n

pub read_delta_const : List ℕ → List ℕ → ℕ → ℕ → Outcome ArrayError (List ℕ)
unfolding progression
read_delta_const dst src first n = elim (unmarshal_var_int64 src) [
  | ok (d, []) ↦ ok (dst ++ progression first d n)
  | ok (d, _ ∷ _) ↦ err bad_delta_tail
  | err e ↦ err (bad_delta_const e)
  | panic ↦ panic
]

-- A reader's error under this component's name.
pub named : Outcome DeltaError (List ℕ) → Outcome ArrayError (List ℕ)
named (ok vs) = ok vs
named (err e) = err (bad_nearest_delta e)
named panic = panic

module _ (z : Zstd) where
  -- The bytes `b` of `n` items behind `dst`, compressed if that pays, and the kind that says so.
  unfoldable pub store : List ℕ → List ℕ → ℕ → ℕ → ℕ → List ℕ × ℕ
  unfolding get_compress_level
  store dst b n packed plain =
      let c = z.compress b (get_compress_level n) in
      if ltb (length b) min_compressible_block_size
      then (dst ++ b, plain)
      else if ltb (9 * length b) (10 * length c)
      then (dst ++ b, plain)
      else (dst ++ c, packed)

  unfoldable pub marshal_int64_array : List ℕ → List ℕ → ℕ → Outcome DeltaError (List ℕ × ℕ × ℕ)
  unfolding is_const is_delta_const is_gauge store
  marshal_int64_array dst [] pb = panic
  marshal_int64_array dst (a ∷ vs) pb =
      if is_const (a ∷ vs)
      then ok (dst, Kind.const, a)
      else if is_delta_const (a ∷ vs)
      then ok (marshal_var_int64 dst (first_delta a vs), Kind.delta_const, a)
      else if is_gauge (a ∷ vs)
      then (do
        (b, first) ← marshal_nearest_delta [] (a ∷ vs) (if ltb pb 6 then pb + 2 else pb)
        let r = store dst b (suc (length vs)) Kind.zstd_nearest_delta Kind.nearest_delta
        ok (r.0, r.1, first))
      else (do
        (b, first) ← marshal_nearest_delta2 [] (a ∷ vs) pb
        let r = store dst b (suc (length vs)) Kind.zstd_nearest_delta2 Kind.nearest_delta2
        ok (r.0, r.1, first))

  pub unpack : List ℕ → (List ℕ → Outcome DeltaError (List ℕ)) → Outcome ArrayError (List ℕ)
  unfolding named
  unpack src read = elim (z.decompress src) [ none ↦ err bad_zstd | some b ↦ named (read b) ]

  unfoldable pub unmarshal_int64_array : List ℕ → List ℕ → ℕ → ℕ → ℕ → Outcome ArrayError (List ℕ)
  unfolding named unpack read_const read_delta_const
  unmarshal_int64_array dst src mt first n =
      if mt == Kind.zstd_nearest_delta
      then unpack src (λ b. unmarshal_nearest_delta dst b first n)
      else if mt == Kind.zstd_nearest_delta2
      then unpack src (λ b. unmarshal_nearest_delta2 dst b first n)
      else if mt == Kind.nearest_delta
      then named (unmarshal_nearest_delta dst src first n)
      else if mt == Kind.nearest_delta2
      then named (unmarshal_nearest_delta2 dst src first n)
      else if mt == Kind.const
      then read_const dst src first n
      else if mt == Kind.delta_const
      then read_delta_const dst src first n
      else err (unknown_kind mt)
