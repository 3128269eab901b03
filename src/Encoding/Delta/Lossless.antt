-- ===== src/Encoding/Delta/Lossless.antt =====
-- With 64 precision bits the decoder gives the encoder's values back.
use mathlib.Core.List.{append-nil}
use victoria_metrics.Base.{ℕ, suc, ◌≡◌, refl, ap, arith}
use victoria_metrics.Base.{List, [], ◌∷◌, ◌++◌, All, length}
use victoria_metrics.Base.Outcome.{ok, ◌>>=◌}
use victoria_metrics.Base.Words.{IsU64, add64, sub64}
use victoria_metrics.Encoding.Varint.{marshal_var_int64, marshal_var_int64s}
use victoria_metrics.Encoding.Varint.Signed.{unmarshal-marshal_var_int64s}
use victoria_metrics.Encoding.Delta.{exact_deltas, sums, read_deltas, exact_deltas2, sums2}
use victoria_metrics.Encoding.Delta.{marshal_nearest_delta, unmarshal_nearest_delta}
use victoria_metrics.Encoding.Delta.{marshal_nearest_delta2, unmarshal_nearest_delta2}

pub add64-sub64 : (a v : ℕ) → IsU64 a → IsU64 v → add64 v (sub64 a v) ≡ a
add64-sub64 a v h k = omega arith

-- Varints that were written alone are read back with no tail.
pub read_deltas_lem :
    (ds : List ℕ) → All IsU64 ds → read_deltas (length ds) (marshal_var_int64s [] ds) ≡ ok ds
unfolding read_deltas
read_deltas_lem ds h = rw (rw append-nil at (unmarshal-marshal_var_int64s ds [] h), read_deltas)

pub sums-exact_deltas :
    (v : ℕ) (src : List ℕ) → IsU64 v → All IsU64 src → sums v (exact_deltas v src) ≡ src
unfolding sums exact_deltas
sums-exact_deltas v [] hv h = refl
sums-exact_deltas v (x ∷ src) hv h =
    rw (add64-sub64 x v h.0 hv) (ap (◌∷◌ x) (sums-exact_deltas x src h.0 h.1))

pub exact_deltas-All : (v : ℕ) (src : List ℕ) → All IsU64 (exact_deltas v src)
unfolding exact_deltas
exact_deltas-All v [] = tt
exact_deltas-All v (x ∷ src) = (omega arith, exact_deltas-All (add64 v (sub64 x v)) src)

pub length-exact_deltas : (v : ℕ) (src : List ℕ) → length (exact_deltas v src) ≡ length src
unfolding exact_deltas
length-exact_deltas v [] = refl
length-exact_deltas v (x ∷ src) = ap suc (length-exact_deltas (add64 v (sub64 x v)) src)

pub marshal_nearest_delta_exact :
    (v : ℕ) (src : List ℕ)
    → marshal_nearest_delta [] (v ∷ src) 64 ≡ ok (marshal_var_int64s [] (exact_deltas v src), v)
unfolding marshal_nearest_delta
marshal_nearest_delta_exact v src = refl

-- Decoding what the delta encoder writes at full precision gives the array back, appended to `dst`.
pub unmarshal-marshal_nearest_delta :
    (dst : List ℕ) (v : ℕ) (src : List ℕ)
    → All IsU64 (v ∷ src)
    → (marshal_nearest_delta [] (v ∷ src) 64 >>= λ r.
        unmarshal_nearest_delta dst r.0 r.1 (length (v ∷ src)))
      ≡ ok (dst ++ v ∷ src)
unfolding unmarshal_nearest_delta
unmarshal-marshal_nearest_delta dst v src h =
    rw (marshal_nearest_delta_exact v src, ← length-exact_deltas v src)
      (rw (read_deltas_lem (exact_deltas v src) (exact_deltas-All v src))
        (rw (sums-exact_deltas v src h.0 h.1)))

sums2-exact_deltas2 :
    (v d1 : ℕ) (src : List ℕ)
    → IsU64 v
    → IsU64 d1
    → All IsU64 src
    → sums2 v d1 (exact_deltas2 v d1 src) ≡ src
unfolding sums2 exact_deltas2
sums2-exact_deltas2 v d1 [] hv hd h = refl
sums2-exact_deltas2 v d1 (x ∷ src) hv hd h =
    rw (add64-sub64 (sub64 x v) d1 (omega arith) hd, add64-sub64 x v h.0 hv)
      (ap (◌∷◌ x) (sums2-exact_deltas2 x (sub64 x v) src h.0 (omega arith) h.1))

exact_deltas2-All : (v d1 : ℕ) (src : List ℕ) → All IsU64 (exact_deltas2 v d1 src)
unfolding exact_deltas2
exact_deltas2-All v d1 [] = tt
exact_deltas2-All v d1 (x ∷ src) =
    let d1' = add64 d1 (sub64 (sub64 x v) d1) in
    (omega arith, exact_deltas2-All (add64 v d1') d1' src)

length-exact_deltas2 : (v d1 : ℕ) (src : List ℕ) → length (exact_deltas2 v d1 src) ≡ length src
unfolding exact_deltas2
length-exact_deltas2 v d1 [] = refl
length-exact_deltas2 v d1 (x ∷ src) =
    let d1' = add64 d1 (sub64 (sub64 x v) d1) in ap suc (length-exact_deltas2 (add64 v d1') d1' src)

pub marshal_nearest_delta2_exact :
    (a v : ℕ) (src : List ℕ)
    → marshal_nearest_delta2 [] (a ∷ v ∷ src) 64
      ≡ ok (marshal_var_int64s [] (sub64 v a ∷ exact_deltas2 v (sub64 v a) src), a)
unfolding marshal_nearest_delta2 marshal_var_int64 marshal_var_int64s
marshal_nearest_delta2_exact a v src = refl

-- For two or more int64, decoding what the encoder of second differences writes to an empty slice at
-- 64 precision bits gives the array back, appended to `dst`.
pub unmarshal-marshal_nearest_delta2 :
    (dst : List ℕ) (a v : ℕ) (src : List ℕ)
    → All IsU64 (a ∷ v ∷ src)
    → (marshal_nearest_delta2 [] (a ∷ v ∷ src) 64 >>= λ r.
        unmarshal_nearest_delta2 dst r.0 r.1 (length (a ∷ v ∷ src)))
      ≡ ok (dst ++ a ∷ v ∷ src)
unfolding unmarshal_nearest_delta2
unmarshal-marshal_nearest_delta2 dst a v src (ha, (hv, h)) =
    let d1 = sub64 v a in
    let ds = exact_deltas2 v d1 src in
    rw (marshal_nearest_delta2_exact a v src, ← length-exact_deltas2 v d1 src)
      (rw (read_deltas_lem (d1 ∷ ds) (omega arith, exact_deltas2-All v d1 src))
        (rw (add64-sub64 v a hv ha, sums2-exact_deltas2 v d1 src hv (omega arith) h)))
