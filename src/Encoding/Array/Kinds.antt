-- ===== src/Encoding/Array/Kinds.antt =====
-- What the tests on an array say, and the two kinds that keep no varint of each item.
use victoria_metrics.Base.{ℕ, ◌≡◌, refl, arith}
use victoria_metrics.Base.{true, List, [], ◌∷◌, All, length, replicate}
use victoria_metrics.Base.Words.{IsU64, add64, sub64}
use victoria_metrics.Encoding.Array.{all_equal, steps_by, progression}

pub all_equal→replicate :
    (v : ℕ) (vs : List ℕ) → all_equal v vs ≡ true → replicate (length vs) v ≡ vs
unfolding all_equal
all_equal→replicate v [] h = refl
all_equal→replicate v (w ∷ vs) h = ground (arith, all_equal→replicate v vs)

pub steps_by→progression :
    (d prev : ℕ) (vs : List ℕ)
    → IsU64 prev
    → All IsU64 vs
    → steps_by d prev vs ≡ true
    → progression (add64 prev d) d (length vs) ≡ vs
unfolding steps_by progression
steps_by→progression d prev [] hp hv h = refl
steps_by→progression d prev (w ∷ vs) hp hv h =
    ground (arith, next_is d prev w hp hv.0, steps_by→progression d w vs)
  where
    next_is : (d prev w : ℕ) → IsU64 prev → IsU64 w → sub64 w prev ≡ d → add64 prev d ≡ w
    next_is d prev w hp hw e = rw (← e) (omega arith)
