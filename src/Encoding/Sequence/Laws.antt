-- ===== src/Encoding/Sequence/Laws.antt =====
-- The mended sequence is sorted between its ends, and a sound one is left alone.
use victoria_metrics.Base.{ℕ, suc, ◌≡◌, refl, ap, ◌∙◌, arith, false}
use victoria_metrics.Base.{List, [], ◌∷◌, if◌then◌else◌, length, inl, inr, Bool-cases, le→ltb}
use victoria_metrics.Base.Outcome.{ok}
use victoria_metrics.Base.Words.{slt64, ◌≤ₛ◌, IsSortedFrom, flip64}
use victoria_metrics.Encoding.Sequence.{raise_from, lower_back, ensure_non_decreasing}

raise_from-IsSortedFrom : (lo : ℕ) (vs : List ℕ) → IsSortedFrom lo (raise_from lo vs)
unfolding raise_from
raise_from-IsSortedFrom lo [] = tt
raise_from-IsSortedFrom lo (v ∷ vs) =
    (ground arith, raise_from-IsSortedFrom (if slt64 v lo then lo else v) vs)

length-raise_from : (lo : ℕ) (vs : List ℕ) → length (raise_from lo vs) ≡ length vs
unfolding raise_from
length-raise_from lo [] = refl
length-raise_from lo (v ∷ vs) = ap suc (length-raise_from (if slt64 v lo then lo else v) vs)

raise_from_sorted : (lo : ℕ) (vs : List ℕ) → IsSortedFrom lo vs → raise_from lo vs ≡ vs
unfolding raise_from
raise_from_sorted lo [] h = refl
raise_from_sorted lo (v ∷ vs) h = ground (arith, raise_from_sorted v vs h.1)

-- Every item but the last at most `max`, and the last one `max`.
pub lowered : ℕ → ℕ → List ℕ → List ℕ
lowered max x [] = max ∷ []
lowered max x (y ∷ xs) = (if slt64 max x then max else x) ∷ lowered max y xs

-- Going back only as far as items are above `max` lowers them all, in a sorted list.
lower_back-lowered :
    (max x : ℕ) (xs : List ℕ)
    → IsSortedFrom x xs
    → ((lower_back max (x ∷ xs)).0 ≡ lowered max x xs)
      × ((lower_back max (x ∷ xs)).1 ≡ false → x ≤ₛ max)
unfolding lower_back lowered
lower_back-lowered max x [] h = (ground arith, λ e. ground arith)
lower_back-lowered max x (y ∷ xs) h =
    let (same, stops) = lower_back-lowered max y xs h.1 in
    elim (Bool-cases (lower_back max (y ∷ xs)).1) [
      | inl going ↦ (ground arith, λ e. ground arith)
      | inr stopped ↦ (ground (arith, stops stopped), λ e. ground (arith, stops stopped))
    ]

lowered-IsSortedFrom :
    (lo max x : ℕ) (xs : List ℕ)
    → lo ≤ₛ x
    → lo ≤ₛ max
    → IsSortedFrom x xs
    → IsSortedFrom lo (lowered max x xs)
unfolding lowered
lowered-IsSortedFrom lo max x [] hx hm h = (hm, tt)
lowered-IsSortedFrom lo max x (y ∷ xs) hx hm h =
    let x' : ℕ = if slt64 max x then max else x in
    (ground arith, lowered-IsSortedFrom x' max y xs (ground arith) (ground arith) h.1)

length-lowered : (max x : ℕ) (xs : List ℕ) → length (lowered max x xs) ≡ suc (length xs)
unfolding lowered
length-lowered max x [] = refl
length-lowered max x (y ∷ xs) = ap suc (length-lowered max y xs)

-- The last of `x ∷ xs`.
abbrev pub last_of : ℕ → List ℕ → ℕ
last_of x [] = x
last_of x (y ∷ xs) = last_of y xs

last_of-lowered : (d max x : ℕ) (xs : List ℕ) → last_of d (lowered max x xs) ≡ max
unfolding lowered
last_of-lowered d max x [] = refl
last_of-lowered d max x (y ∷ xs) = last_of-lowered (if slt64 max x then max else x) max y xs

-- A list that is sorted up to `max` stays as it is.
lowered_sorted :
    (max x : ℕ) (xs : List ℕ)
    → IsSortedFrom x xs
    → last_of x xs ≡ max
    → (lowered max x xs ≡ x ∷ xs) × (x ≤ₛ max)
unfolding lowered
lowered_sorted max x [] h e = (ground arith, ground arith)
lowered_sorted max x (y ∷ xs) h e =
    let (same, below) = lowered_sorted max y xs h.1 e in (ground arith, ground arith)

ensure_non_decreasing_lem :
    {E : Type 0} (x : ℕ) (xs : List ℕ) (min max : ℕ)
    → min ≤ₛ max
    → ensure_non_decreasing {E = E} (x ∷ xs) min max ≡ ok (lowered max min (raise_from min xs))
unfolding ensure_non_decreasing
ensure_non_decreasing_lem x xs min max h =
    rw (le→ltb (flip64 max) (flip64 min) h)
      (ap ok (lower_back-lowered max min (raise_from min xs) (raise_from-IsSortedFrom min xs)).0)

lowered-cons :
    (max x y : ℕ) (xs : List ℕ) → x ≤ₛ max → lowered max x (y ∷ xs) ≡ x ∷ lowered max y xs
unfolding lowered
lowered-cons max x y xs h = ground arith

-- For `vMin <= vMax` and two items or more, the result is as long as the input, starts with `vMin`,
-- ends with `vMax` and is non-decreasing.
pub ensure_non_decreasing_sound :
    {E : Type 0} (x y : ℕ) (xs : List ℕ) (min max : ℕ)
    → min ≤ₛ max
    → (out : List ℕ) × (ensure_non_decreasing {E = E} (x ∷ y ∷ xs) min max ≡ ok (min ∷ out))
      × (length (min ∷ out) ≡ length (x ∷ y ∷ xs))
      × (last_of min out ≡ max)
      × IsSortedFrom min out
unfolding raise_from
ensure_non_decreasing_sound x y xs min max h =
    let v : ℕ = if slt64 y min then min else y in
    let vs = raise_from v xs in
    (
      lowered max v vs,
      ensure_non_decreasing_lem x (y ∷ xs) min max h ∙ ap ok (lowered-cons max min v vs h),
      ap suc (length-lowered max v vs ∙ ap suc (length-raise_from v xs)),
      last_of-lowered min max v vs,
      lowered-IsSortedFrom min max v vs (ground arith) h (raise_from-IsSortedFrom v xs),
    )

-- A sequence that is sorted from `vMin` to `vMax` is left as it is.
pub ensure_non_decreasing_id :
    {E : Type 0} (x : ℕ) (xs : List ℕ)
    → IsSortedFrom x xs
    → ensure_non_decreasing {E = E} (x ∷ xs) x (last_of x xs) ≡ ok (x ∷ xs)
ensure_non_decreasing_id x xs h =
    let (same, below) = lowered_sorted (last_of x xs) x xs h refl in
    ensure_non_decreasing_lem x xs x (last_of x xs) below
    ∙ ap ok (ap (lowered (last_of x xs) x) (raise_from_sorted x xs h) ∙ same)
