-- ===== src/Encoding/Sequence.antt =====
-- lib/encoding/encoding.go: `EnsureNonDecreasingSequence` mends timestamps that lost precision. The
-- slice that Go changes in place is the result here.
pub mod Laws
use victoria_metrics.Base.{ℕ, Bool, true, false, ◌&&◌, List, [], ◌∷◌, ◌==◌, if◌then◌else◌}
use victoria_metrics.Base.Outcome.{Outcome, ok, panic}
use victoria_metrics.Base.Words.{slt64}

-- The loop over `a[1:]`.
pub raise_from : ℕ → List ℕ → List ℕ
raise_from prev [] = []
raise_from prev (v ∷ vs) = let v' = if slt64 v prev then prev else v in v' ∷ raise_from v' vs

-- The end of the function: the last item becomes `max`, and the loop goes back from there while
-- the items are above `max`. The flag says whether that loop is still going at the item before.
pub lower_back : ℕ → List ℕ → List ℕ × Bool
lower_back max [] = ([], true)
lower_back max (x ∷ []) = if x == max then (x ∷ [], false) else (max ∷ [], true)
lower_back max (x ∷ y ∷ xs) =
    let r = lower_back max (y ∷ xs) in
    if r.1 && slt64 max x then (max ∷ r.0, true) else (x ∷ r.0, false)

unfoldable pub ensure_non_decreasing : {E : Type 0} → List ℕ → ℕ → ℕ → Outcome E (List ℕ)
unfolding raise_from lower_back
ensure_non_decreasing [] min max = if slt64 max min then panic else ok []
ensure_non_decreasing (x ∷ xs) min max =
    if slt64 max min then panic else ok (lower_back max (min ∷ raise_from min xs)).0
