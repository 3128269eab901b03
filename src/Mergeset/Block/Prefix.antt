-- ===== src/Mergeset/Block/Prefix.antt =====
-- What `commonPrefixLen` and `updateCommonPrefix` find.
use victoria_metrics.Base.{ℕ, zero, suc, ◌≤◌, ◌≡◌, refl, sym, ap, ap₂, subst, arith, inl, inr}
use victoria_metrics.Base.{List, [], ◌∷◌, ◌++◌, length, take, drop, All, ◌==◌, ==_iff, Bool-cases}
use victoria_metrics.Mergeset.Bytes.{common_prefix_len}
use victoria_metrics.Mergeset.Block.{shrink, prefix_of}

pub common_prefix_len-le : (a b : List ℕ) → common_prefix_len a b ≤ length b
unfolding common_prefix_len
common_prefix_len-le [] b = omega arith
common_prefix_len-le (x ∷ a) [] = omega arith
common_prefix_len-le (x ∷ a) (y ∷ b) = ground (arith, common_prefix_len-le a b)

pub common_prefix_len-le_left : (a b : List ℕ) → common_prefix_len a b ≤ length a
unfolding common_prefix_len
common_prefix_len-le_left [] b = omega arith
common_prefix_len-le_left (x ∷ a) [] = omega arith
common_prefix_len-le_left (x ∷ a) (y ∷ b) = ground (arith, common_prefix_len-le_left a b)

-- The bytes that it counts are the same.
pub take-common_prefix_len :
    (a b : List ℕ) → take (common_prefix_len a b) a ≡ take (common_prefix_len a b) b
unfolding common_prefix_len
take-common_prefix_len [] b = refl
take-common_prefix_len (x ∷ a) [] = refl
take-common_prefix_len (x ∷ a) (y ∷ b) = elim (Bool-cases (x == y)) [
  | inl h ↦ rw (h, (==_iff x y).0 h, take-common_prefix_len a b)
  | inr h ↦ rw h refl
]

-- `cp` in front of `x`.
abbrev pub StartsWith : List ℕ → List ℕ → Type 0
StartsWith cp x = cp ++ drop (length cp) x ≡ x

StartsWith-take : (n : ℕ) (x : List ℕ) → StartsWith (take n x) x
StartsWith-take zero x = refl
StartsWith-take (suc n) [] = refl
StartsWith-take (suc n) (y ∷ x) = ap (λ l. y ∷ l) (StartsWith-take n x)

take-StartsWith : (n : ℕ) (cp x : List ℕ) → StartsWith cp x → StartsWith (take n cp) x
take-StartsWith zero cp x h = refl
take-StartsWith (suc n) [] x h = refl
take-StartsWith (suc n) (c ∷ cp) [] h = absurd (cc h)
take-StartsWith (suc n) (c ∷ cp) (y ∷ x) h =
    let tail : StartsWith cp x = ap (drop 1) h in
    let head : c ≡ y = cc h in ap₂ ◌∷◌ head (take-StartsWith n cp x tail)

abbrev pub StartWith : List ℕ → List (List ℕ) → Type 0
StartWith cp items = All (StartsWith cp) items

take-StartWith :
    (n : ℕ) (cp : List ℕ) (items : List (List ℕ)) → StartWith cp items → StartWith (take n cp) items
take-StartWith n cp [] h = tt
take-StartWith n cp (x ∷ items) h = (take-StartsWith n cp x h.0, take-StartWith n cp items h.1)

-- The prefix that is left is one of the first and of every item behind it.
nil-StartWith : (items : List (List ℕ)) → StartWith [] items
nil-StartWith [] = tt
nil-StartWith (x ∷ items) = (refl, nil-StartWith items)

shrink-StartWith :
    (cp : List ℕ) (items : List (List ℕ)) (x : List ℕ)
    → StartsWith cp x
    → StartWith (shrink cp items) (x ∷ items)
unfolding shrink
shrink-StartWith cp [] x h = (h, tt)
shrink-StartWith cp (y ∷ items) x h =
    go (λ m w k. shrink-StartWith (take (suc m) cp) items w k) (common_prefix_len cp y) refl
  where
    go :
        ((m : ℕ) (w : List ℕ)
          → StartsWith (take (suc m) cp) w
          → StartWith (shrink (take (suc m) cp) items) (w ∷ items))
        → (n : ℕ) → common_prefix_len cp y ≡ n
        → StartWith (elim n [ zero ↦ [] | suc m ↦ shrink (take (suc m) cp) items ]) (x ∷ y ∷ items)
    go next zero e = nil-StartWith (x ∷ y ∷ items)
    go next (suc m) e =
        let both : take (suc m) cp ≡ take (suc m) y =
          subst (λ n. take n cp ≡ take n y) e (take-common_prefix_len cp y) in
        let of_y = subst (λ l. StartsWith l y) (sym both) (StartsWith-take (suc m) y) in
        ((next m x (take-StartsWith (suc m) cp x h)).0, next m y of_y)

self-StartsWith : (x : List ℕ) → StartsWith x x
self-StartsWith [] = refl
self-StartsWith (c ∷ x) = ap (λ l. c ∷ l) (self-StartsWith x)

pub prefix_of-StartWith : (items : List (List ℕ)) → StartWith (prefix_of items) items
unfolding prefix_of
prefix_of-StartWith [] = tt
prefix_of-StartWith ([] ∷ items) = nil-StartWith ([] ∷ items)
prefix_of-StartWith ((c ∷ x) ∷ items) =
    shrink-StartWith (c ∷ x) items (c ∷ x) (self-StartsWith (c ∷ x))
