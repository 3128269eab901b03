-- ===== src/Mergeset/Block/Order.antt =====
-- Sorting the items of a block.
use mathlib.Core.List.{Perm}
use mathlib.Core.List.Perm.{rfl, trans, cons, swap}
use victoria_metrics.Base.{ℕ, ◌≡◌, refl, arith, Bool, true, false, not, ◌&&◌, inl, inr}
use victoria_metrics.Base.{List, [], ◌∷◌, Bool-cases}
use victoria_metrics.Mergeset.Bytes.{lex_less}
use victoria_metrics.Mergeset.Block.{sorted_from, is_sorted, insert, sort_items}

lex_less-asymm : (a b : List ℕ) → lex_less a b ≡ true → lex_less b a ≡ false
unfolding lex_less
lex_less-asymm [] [] h = cc
lex_less-asymm [] (y ∷ b) h = refl
lex_less-asymm (x ∷ a) [] h = cc
lex_less-asymm (x ∷ a) (y ∷ b) h = ground (arith, lex_less-asymm a b)

insert-sorted_from :
    (p x : List ℕ) (ys : List (List ℕ))
    → lex_less x p ≡ false
    → sorted_from p ys ≡ true
    → sorted_from p (insert x ys) ≡ true
unfolding insert sorted_from
insert-sorted_from p x [] h k = rw h refl
insert-sorted_from p x (y ∷ ys) h k = elim (Bool-cases (lex_less y x)) [
  | inl e ↦
      let both = and_split (not (lex_less y p)) (sorted_from y ys) k in
      rw (e, both.0, insert-sorted_from y x ys (lex_less-asymm y x e) both.1) refl
  | inr e ↦
      let both = and_split (not (lex_less y p)) (sorted_from y ys) k in rw (e, h, e, both.1) refl
]
  where
    and_split : (a b : Bool) → a && b ≡ true → (a ≡ true) × (b ≡ true)
    and_split true b h = (refl, h)
    and_split false b h = cc

-- Sorted from an item on, whatever is in front.
insert-is_sorted :
    (x : List ℕ) (ys : List (List ℕ)) → is_sorted ys ≡ true → is_sorted (insert x ys) ≡ true
unfolding is_sorted insert sorted_from
insert-is_sorted x [] h = refl
insert-is_sorted x (y ∷ ys) h = elim (Bool-cases (lex_less y x)) [
  | inl e ↦ rw e (insert-sorted_from y x ys (lex_less-asymm y x e) h)
  | inr e ↦ rw (e, e, h) refl
]

pub sort_items-is_sorted : (xs : List (List ℕ)) → is_sorted (sort_items xs) ≡ true
unfolding sort_items is_sorted
sort_items-is_sorted [] = refl
sort_items-is_sorted (x ∷ xs) = insert-is_sorted x (sort_items xs) (sort_items-is_sorted xs)

insert-Perm : (x : List ℕ) (ys : List (List ℕ)) → Perm (x ∷ ys) (insert x ys)
unfolding insert
insert-Perm x [] = rfl
insert-Perm x (y ∷ ys) = elim (Bool-cases (lex_less y x)) [
  | inl e ↦ rw e (trans (swap y x ys) (cons y (insert-Perm x ys)))
  | inr e ↦ rw e rfl
]

pub sort_items-Perm : (xs : List (List ℕ)) → Perm xs (sort_items xs)
unfolding sort_items
sort_items-Perm [] = rfl
sort_items-Perm (x ∷ xs) = trans (cons x (sort_items-Perm xs)) (insert-Perm x (sort_items xs))
