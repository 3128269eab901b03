-- ===== src/Storage/Guarded.antt =====
-- lib/storage and lib/mergeset: a field behind the test that the source is long enough for it,
-- `if len(src) < n { return src, err }`.
use victoria_metrics.Base.{ℕ, ◌≤◌, ◌≡◌, arith, List, [], ◌++◌, length, ltb, le→ltb, if◌then◌else◌}
use victoria_metrics.Base.Outcome.{Outcome, ok, err}
use victoria_metrics.Base.Words.{IsU32, IsU64}
use victoria_metrics.Encoding.Fixed.{marshal_uint32, marshal_uint64, marshal_int64}
use victoria_metrics.Storage.Fields.{take_uint32, take_uint64, take_int64}
use victoria_metrics.Storage.Fields.{take-uint32, take-uint64, take-int64}
use victoria_metrics.Storage.Fields.{length-uint32, length-uint64, length-int64}

module _ {E : Type 0} where
  unfoldable pub guarded :
      ℕ → E → (List ℕ → Outcome E (ℕ × List ℕ)) → List ℕ → Outcome E (ℕ × List ℕ)
  guarded n e read src = if ltb (length src) n then err e else read src

  pub guarded_lem :
      (n : ℕ) (e : E) (read : List ℕ → Outcome E (ℕ × List ℕ)) (src : List ℕ) (r : ℕ × List ℕ)
      → n ≤ length src
      → read src ≡ ok r
      → guarded n e read src ≡ ok r
  unfolding guarded
  guarded_lem n e read src r h k = rw (le→ltb (length src) n h) k

  pub guarded-uint32 :
      (e : E) (v : ℕ) (l : List ℕ)
      → IsU32 v
      → guarded 4 e take_uint32 (marshal_uint32 [] v ++ l) ≡ ok (v, l)
  guarded-uint32 e v l h =
      guarded_lem 4 e take_uint32 _ (v, l) (omega (arith, length-uint32 v l)) (take-uint32 v l h)

  pub guarded-uint64 :
      (e : E) (v : ℕ) (l : List ℕ)
      → IsU64 v
      → guarded 8 e take_uint64 (marshal_uint64 [] v ++ l) ≡ ok (v, l)
  guarded-uint64 e v l h =
      guarded_lem 8 e take_uint64 _ (v, l) (omega (arith, length-uint64 v l)) (take-uint64 v l h)

  pub guarded-int64 :
      (e : E) (v : ℕ) (l : List ℕ)
      → IsU64 v
      → guarded 8 e take_int64 (marshal_int64 [] v ++ l) ≡ ok (v, l)
  guarded-int64 e v l h =
      guarded_lem 8 e take_int64 _ (v, l) (omega (arith, length-int64 v l)) (take-int64 v l h)
