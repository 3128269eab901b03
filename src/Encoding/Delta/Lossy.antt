-- ===== src/Encoding/Delta/Lossy.antt =====
-- Any number of precision bits: the decoder always returns an array, near the encoder's.
use victoria_metrics.Base.{ℕ, suc, ◌-◌, ◌^◌, ◌≤◌, ◌≡◌, refl, ap, arith}
use victoria_metrics.Base.{
  List, [], ◌∷◌, ◌++◌, All, length, ◌==◌, Bool-cases, inl, inr, if◌then◌else◌,
}
use victoria_metrics.Base.Outcome.{ok, ◌>>=◌}
use victoria_metrics.Base.Words.{IsU64, add64, sub64, shl}
use victoria_metrics.Base.Bits.{bit_and-lt_pow}
use victoria_metrics.Encoding.Varint.{marshal_var_int64s}
use victoria_metrics.Encoding.Delta.{exact_deltas, rounded_deltas, sums}
use victoria_metrics.Encoding.Delta.{marshal_nearest_delta, unmarshal_nearest_delta}
use victoria_metrics.Encoding.Delta.{
  get_trailing_zeros, nearest_delta, zero_trailing, abs64, bits64,
}
use victoria_metrics.Encoding.Delta.Lossless.{read_deltas_lem, sums-exact_deltas}
use victoria_metrics.Encoding.Delta.Lossless.{exact_deltas-All, length-exact_deltas}
use victoria_metrics.Encoding.Delta.Precision.{AllWithin, IsInReach, rounded_deltas-AllWithin}

-- What the encoder writes varints of.
abbrev deltas : ℕ → ℕ → List ℕ → List ℕ
deltas pb v src =
    if pb == 64 then exact_deltas v src else rounded_deltas pb v (get_trailing_zeros v pb) src

marshal_nearest_delta_lem :
    (v : ℕ) (src : List ℕ) (pb : ℕ)
    → 1 ≤ pb
    → pb ≤ 64
    → marshal_nearest_delta [] (v ∷ src) pb ≡ ok (marshal_var_int64s [] (deltas pb v src), v)
unfolding marshal_nearest_delta
marshal_nearest_delta_lem v src pb lo hi = ground arith

zero_trailing-lt : (d tz : ℕ) → IsU64 d → IsU64 (zero_trailing d tz)
unfolding zero_trailing
zero_trailing-lt d tz h =
    ground (arith, bit_and-lt_pow 64 (abs64 d) (shl 64 (2 ^ 64 - 1) tz) (omega arith))

nearest_delta-lt : (next prev pb tz : ℕ) → IsU64 (nearest_delta next prev pb tz).0
unfolding nearest_delta
nearest_delta-lt next prev pb tz =
    ground (arith, zero_trailing-lt (sub64 next prev) (bits64 (abs64 next) - pb))

AllWithin-refl : (pb : ℕ) (xs : List ℕ) → AllWithin pb xs xs
AllWithin-refl pb [] = tt
AllWithin-refl pb (x ∷ xs) = (inl refl, AllWithin-refl pb xs)

rounded_deltas-All : (pb v tz : ℕ) (src : List ℕ) → All IsU64 (rounded_deltas pb v tz src)
unfolding rounded_deltas
rounded_deltas-All pb v tz [] = tt
rounded_deltas-All pb v tz (x ∷ src) =
    let r = nearest_delta x v pb tz in
    (nearest_delta-lt x v pb tz, rounded_deltas-All pb (add64 v r.0) r.1 src)

length-rounded_deltas :
    (pb v tz : ℕ) (src : List ℕ) → length (rounded_deltas pb v tz src) ≡ length src
unfolding rounded_deltas
length-rounded_deltas pb v tz [] = refl
length-rounded_deltas pb v tz (x ∷ src) =
    let r = nearest_delta x v pb tz in ap suc (length-rounded_deltas pb (add64 v r.0) r.1 src)

-- What both loops promise of the differences `ds` for `src` behind the value `v`.
record AreDeltas (pb v : ℕ) (src ds : List ℕ) : Type 0 where
  words : All IsU64 ds
  same_length : length ds ≡ length src
  near : AllWithin pb src (sums v ds)

deltas-AreDeltas :
    (lo pb v : ℕ) (src : List ℕ)
    → 1 ≤ pb
    → All IsU64 (v ∷ src)
    → All (IsInReach lo) (v ∷ src)
    → AreDeltas pb v src (deltas pb v src)
deltas-AreDeltas lo pb v src one h r = elim (Bool-cases (pb == 64)) [
  | inl exact ↦ rw exact (record {
    words = exact_deltas-All v src;
    same_length = length-exact_deltas v src;
    near = rw (sums-exact_deltas v src h.0 h.1) (AllWithin-refl pb src);
  })
  | inr rounded ↦ rw rounded (record {
    words = rounded_deltas-All pb v _ src;
    same_length = length-rounded_deltas pb v _ src;
    near = rounded_deltas-AllWithin lo pb v _ src one h.0 h.1 r.0 r.1;
  })
]

unmarshal_nearest_delta_lem :
    (dst : List ℕ) (v : ℕ) (ds : List ℕ)
    → All IsU64 ds
    → unmarshal_nearest_delta dst (marshal_var_int64s [] ds) v (suc (length ds))
      ≡ ok (dst ++ v ∷ sums v ds)
unfolding unmarshal_nearest_delta
unmarshal_nearest_delta_lem dst v ds h = rw (read_deltas_lem ds h)

-- For 1 to 64 precision bits and any array of int64 that is not empty and whose items are all less
-- than 2^63 apart (no difference of two of them overflows), the decoder succeeds on what the encoder
-- wrote to an empty slice. It appends the first value and as many others as there were, each equal
-- to the source's `x` or at a distance of less than `|x| / 2^(pb-1)` from it.
pub unmarshal-marshal_nearest_delta_near :
    (dst : List ℕ) (v : ℕ) (src : List ℕ) (lo pb : ℕ)
    → 1 ≤ pb
    → pb ≤ 64
    → All IsU64 (v ∷ src)
    → All (IsInReach lo) (v ∷ src)
    → (seen : List ℕ) × ((marshal_nearest_delta [] (v ∷ src) pb >>= λ r.
          unmarshal_nearest_delta dst r.0 r.1 (length (v ∷ src)))
        ≡ ok (dst ++ v ∷ seen))
      × AllWithin pb src seen
unmarshal-marshal_nearest_delta_near dst v src lo pb one hi h r =
    let d = deltas-AreDeltas lo pb v src one h r in
    (
      sums v (deltas pb v src),
      rw (marshal_nearest_delta_lem v src pb one hi, ← d.same_length)
          (unmarshal_nearest_delta_lem dst v (deltas pb v src) d.words),
      d.near,
    )
