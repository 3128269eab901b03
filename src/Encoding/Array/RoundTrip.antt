-- ===== src/Encoding/Array/RoundTrip.antt =====
-- Every kind of array is read back, for any compressor that its decompressor undoes.
use mathlib.Core.List.{append-nil}
use victoria_metrics.Base.{ℕ, suc, ◌≡◌, ap, ◌∙◌, arith}
use victoria_metrics.Base.{true, false, some, inl, inr, List, [], ◌∷◌, ◌++◌, All, length}
use victoria_metrics.Base.{Bool-cases}
use victoria_metrics.Base.Outcome.{ok}
use victoria_metrics.Base.Words.{IsU64, sub64}
use victoria_metrics.Encoding.Varint.{marshal_var_int64s, marshal_var_int64, unmarshal_var_int64}
use victoria_metrics.Encoding.Varint.Signed.{unmarshal-marshal_var_int64}
use victoria_metrics.Encoding.Delta.{
  exact_deltas, exact_deltas2, unmarshal_nearest_delta, unmarshal_nearest_delta2,
}
use victoria_metrics.Encoding.Delta.Lossless.{add64-sub64, unmarshal-marshal_nearest_delta}
use victoria_metrics.Encoding.Delta.Lossless.{unmarshal-marshal_nearest_delta2}
use victoria_metrics.Encoding.Delta.Lossless.{
  marshal_nearest_delta_exact, marshal_nearest_delta2_exact,
}
use victoria_metrics.Encoding.Array.{Zstd, store, marshal_int64_array}
use victoria_metrics.Encoding.Array.{unmarshal_int64_array, read_delta_const}
use victoria_metrics.Encoding.Array.{
  all_equal, steps_by, get_compress_level, is_const, is_delta_const, is_gauge, progression,
  first_delta,
}
use victoria_metrics.Encoding.Array.Kind
use victoria_metrics.Encoding.Array.Kinds.{all_equal→replicate, steps_by→progression}

-- What the code relies on: `Decompress` undoes `CompressLevel` at every level.
pub record IsLossless (z : Zstd) : Type 0 where
  pub undo : (b : List ℕ) (level : ℕ) → z.decompress (z.compress b level) ≡ some b

read_delta_const_lem :
    (dst src : List ℕ) (first d n : ℕ)
    → unmarshal_var_int64 src ≡ ok (d, [])
    → read_delta_const dst src first n ≡ ok (dst ++ progression first d n)
unfolding read_delta_const
read_delta_const_lem dst src first d n e = ground arith

progression_two :
    (a b : ℕ) (vs : List ℕ)
    → IsU64 a
    → IsU64 b
    → All IsU64 vs
    → steps_by (sub64 b a) b vs ≡ true
    → progression a (sub64 b a) (length (a ∷ b ∷ vs)) ≡ a ∷ b ∷ vs
unfolding progression
progression_two a b vs ha hb hv e =
    ap (λ (xs : List ℕ). a ∷ xs)
      (rw (add64-sub64 b a hb ha)
        (ap (λ (xs : List ℕ). b ∷ xs) (steps_by→progression (sub64 b a) b vs hb hv e)))

module _ (z : Zstd) (lossless : IsLossless z) where
  unmarshal-store_delta :
      (dst b : List ℕ) (n first m : ℕ) {vs : List ℕ}
      → unmarshal_nearest_delta dst b first m ≡ ok vs
      → let r = store z [] b n Kind.zstd_nearest_delta Kind.nearest_delta in
        unmarshal_int64_array z dst r.0 r.1 first m ≡ ok vs
  unfolding unmarshal_int64_array store
  unmarshal-store_delta dst b n first m e = ground (arith, lossless.undo b (get_compress_level n))

  unmarshal-store_delta2 :
      (dst b : List ℕ) (n first m : ℕ) {vs : List ℕ}
      → unmarshal_nearest_delta2 dst b first m ≡ ok vs
      → let r = store z [] b n Kind.zstd_nearest_delta2 Kind.nearest_delta2 in
        unmarshal_int64_array z dst r.0 r.1 first m ≡ ok vs
  unfolding unmarshal_int64_array store
  unmarshal-store_delta2 dst b n first m e = ground (arith, lossless.undo b (get_compress_level n))

  -- The array `vs` is written and read back behind `dst`.
  abbrev pub Returns : List ℕ → List ℕ → Type 0
  Returns dst vs =
      (r : List ℕ × ℕ × ℕ) × (marshal_int64_array z [] vs 64 ≡ ok r)
      × (unmarshal_int64_array z dst r.0 r.1 r.2 (length vs) ≡ ok (dst ++ vs))

  const-Returns :
      (dst : List ℕ) (a : ℕ) (vs : List ℕ) → is_const (a ∷ vs) ≡ true → Returns dst (a ∷ vs)
  const-Returns dst a vs e = (
    ([], Kind.const, a),
    unfold marshal_int64_array in rw e,
    unfold unmarshal_int64_array in
        ap (λ (xs : List ℕ). ok (dst ++ xs))
          (all_equal→replicate a (a ∷ vs) (unfold is_const in e)),
  )

  delta_const-Returns :
      (dst : List ℕ) (a : ℕ) (vs : List ℕ)
      → All IsU64 (a ∷ vs)
      → is_const (a ∷ vs) ≡ false
      → is_delta_const (a ∷ vs) ≡ true
      → Returns dst (a ∷ vs)
  delta_const-Returns dst a [] h c e = unfold is_delta_const in cc
  delta_const-Returns dst a (b ∷ vs) (ha, (hb, hv)) c e = (
    (marshal_var_int64 [] (sub64 b a), Kind.delta_const, a),
    unfold marshal_int64_array first_delta in rw (c, e),
    unfold unmarshal_int64_array in
        read_delta_const_lem dst (marshal_var_int64 [] (sub64 b a)) a (sub64 b a)
          (length (a ∷ b ∷ vs))
          (rw append-nil at (unmarshal-marshal_var_int64 (sub64 b a) [] (omega arith)))
        ∙ ap (λ (xs : List ℕ). ok (dst ++ xs))
            (progression_two a b vs ha hb hv (unfold is_delta_const in e)),
  )

  gauge-Returns :
      (dst : List ℕ) (a : ℕ) (vs : List ℕ)
      → All IsU64 (a ∷ vs)
      → is_const (a ∷ vs) ≡ false
      → is_delta_const (a ∷ vs) ≡ false
      → is_gauge (a ∷ vs) ≡ true
      → Returns dst (a ∷ vs)
  gauge-Returns dst a vs h c d e =
      let bytes = marshal_var_int64s [] (exact_deltas a vs) in
      let n = suc (length vs) in
      let r = store z [] bytes n Kind.zstd_nearest_delta Kind.nearest_delta in
      let w = marshal_nearest_delta_exact a vs in
      (
        (r.0, r.1, a),
        unfold marshal_int64_array in rw (c, d, e, w),
        unmarshal-store_delta dst bytes n a n
            (rw w at (unmarshal-marshal_nearest_delta dst a vs h)),
      )

  counter-Returns :
      (dst : List ℕ) (a : ℕ) (vs : List ℕ)
      → All IsU64 (a ∷ vs)
      → is_const (a ∷ vs) ≡ false
      → is_delta_const (a ∷ vs) ≡ false
      → is_gauge (a ∷ vs) ≡ false
      → Returns dst (a ∷ vs)
  counter-Returns dst a [] h c d e = absurd (unfold is_const all_equal in ground arith)
  counter-Returns dst a (v ∷ vs) h c d e =
      let bytes = marshal_var_int64s [] (sub64 v a ∷ exact_deltas2 v (sub64 v a) vs) in
      let w = marshal_nearest_delta2_exact a v vs in
      let n = length (a ∷ v ∷ vs) in
      let r = store z [] bytes n Kind.zstd_nearest_delta2 Kind.nearest_delta2 in
      (
        (r.0, r.1, a),
        unfold marshal_int64_array in rw (c, d, e, w),
        unmarshal-store_delta2 dst bytes n a n
            (rw w at (unmarshal-marshal_nearest_delta2 dst a v vs h)),
      )

  -- At 64 precision bits every array of int64 that is not empty is written with some kind, and
  -- reading that kind gives the array back behind `dst`, for any lossless compressor.
  pub unmarshal-marshal_int64_array :
      (dst : List ℕ) (a : ℕ) (vs : List ℕ)
      → All IsU64 (a ∷ vs)
      → (r : List ℕ × ℕ × ℕ) × (marshal_int64_array z [] (a ∷ vs) 64 ≡ ok r)
        × (unmarshal_int64_array z dst r.0 r.1 r.2 (length (a ∷ vs)) ≡ ok (dst ++ a ∷ vs))
  unmarshal-marshal_int64_array dst a vs h = elim (Bool-cases (is_const (a ∷ vs))) [
    | inl const ↦ const-Returns dst a vs const
    | inr c ↦ elim (Bool-cases (is_delta_const (a ∷ vs))) [
      | inl steady ↦ delta_const-Returns dst a vs h c steady
      | inr d ↦ elim (Bool-cases (is_gauge (a ∷ vs))) [
        | inl gauge ↦ gauge-Returns dst a vs h c d gauge
        | inr counter ↦ counter-Returns dst a vs h c d counter
      ]
    ]
  ]
