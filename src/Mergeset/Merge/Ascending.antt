-- ===== src/Mergeset/Merge/Ascending.antt =====
-- Byte strings in order.
use victoria_metrics.Base.{ℕ, ◌≡◌, refl, arith, true, false, inl, inr}
use victoria_metrics.Base.{
  List, [], ◌∷◌, ◌++◌, All, All-append, All-map, All-left, All-right, Bool-cases,
}
use victoria_metrics.Mergeset.Bytes.{lex_less}
use victoria_metrics.Mergeset.Block.{sorted_from, is_sorted}

-- `a <= b` on strings.
infix 50 ◌⊑◌
abbrev pub ◌⊑◌ : List ℕ → List ℕ → Type 0
a ⊑ b = lex_less b a ≡ false

pub ⊑-refl : (a : List ℕ) → a ⊑ a
unfolding lex_less
⊑-refl [] = refl
⊑-refl (x ∷ a) = ground (arith, ⊑-refl a)

pub ⊑-trans : (a b c : List ℕ) → a ⊑ b → b ⊑ c → a ⊑ c
unfolding lex_less
⊑-trans [] b [] h k = refl
⊑-trans [] b (z ∷ c) h k = refl
⊑-trans (x ∷ a) [] c h k = absurd (cc h)
⊑-trans (x ∷ a) (y ∷ b) [] h k = absurd (cc k)
⊑-trans (x ∷ a) (y ∷ b) (z ∷ c) h k = ground (arith, ⊑-trans a b c)

pub less-⊑ : (a b : List ℕ) → lex_less a b ≡ true → a ⊑ b
unfolding lex_less
less-⊑ [] [] h = refl
less-⊑ [] (y ∷ b) h = refl
less-⊑ (x ∷ a) [] h = absurd (cc h)
less-⊑ (x ∷ a) (y ∷ b) h = ground (arith, less-⊑ a b)

-- Each item is at most every item behind it.
abbrev pub Ascending : List (List ℕ) → Type 0
Ascending [] = Unit
Ascending (x ∷ xs) = All (λ y. x ⊑ y) xs × Ascending xs

pub Ascending-left : (xs ys : List (List ℕ)) → Ascending (xs ++ ys) → Ascending xs
Ascending-left [] ys h = tt
Ascending-left (x ∷ xs) ys h = (All-left _ xs ys h.0, Ascending-left xs ys h.1)

pub Ascending-right : (xs ys : List (List ℕ)) → Ascending (xs ++ ys) → Ascending ys
Ascending-right [] ys h = h
Ascending-right (x ∷ xs) ys h = Ascending-right xs ys h.1

-- `ts` goes in front of `cs` where it is at most all of it.
pub Ascending-between :
    (xs ts cs : List (List ℕ))
    → Ascending (xs ++ ts)
    → Ascending (xs ++ cs)
    → All (λ t. All (λ c. t ⊑ c) cs) ts
    → Ascending ((xs ++ ts) ++ cs)
Ascending-between [] [] cs h k below = k
Ascending-between [] (t ∷ ts) cs h k below =
    (All-append (λ y. t ⊑ y) ts cs h.0 below.0, Ascending-between [] ts cs h.1 k below.1)
Ascending-between (x ∷ xs) ts cs h k below = (
  All-append (λ y. x ⊑ y) (xs ++ ts) cs h.0 (All-right _ xs cs k.0),
  Ascending-between xs ts cs h.1 k.1 below,
)

head-⊑ : (p x : List ℕ) (xs : List (List ℕ)) → p ⊑ x → All (λ y. x ⊑ y) xs → All (λ y. p ⊑ y) xs
head-⊑ p x xs h k = All-map (λ y e. ⊑-trans p x y h e) xs k

sorted_from-Ascending :
    (p : List ℕ) (xs : List (List ℕ)) → sorted_from p xs ≡ true → All (λ y. p ⊑ y) xs × Ascending xs
unfolding sorted_from
sorted_from-Ascending p [] h = (tt, tt)
sorted_from-Ascending p (x ∷ xs) h = elim (Bool-cases (lex_less x p)) [
  | inl e ↦ absurd (cc (rw e at h))
  | inr e ↦ let rest = sorted_from-Ascending x xs (rw e at h) in ((e, head-⊑ p x xs e rest.0), rest)
]

pub is_sorted-Ascending : (xs : List (List ℕ)) → is_sorted xs ≡ true → Ascending xs
unfolding is_sorted
is_sorted-Ascending [] h = tt
is_sorted-Ascending (x ∷ xs) h = sorted_from-Ascending x xs h

sorted_from_lem :
    (p : List ℕ) (xs : List (List ℕ)) → All (λ y. p ⊑ y) xs → Ascending xs → sorted_from p xs ≡ true
unfolding sorted_from
sorted_from_lem p [] h k = refl
sorted_from_lem p (x ∷ xs) h k = rw (h.0, sorted_from_lem x xs k.0 k.1) refl

pub Ascending-is_sorted : (xs : List (List ℕ)) → Ascending xs → is_sorted xs ≡ true
unfolding is_sorted
Ascending-is_sorted [] h = refl
Ascending-is_sorted (x ∷ xs) h = sorted_from_lem x xs h.0 h.1
