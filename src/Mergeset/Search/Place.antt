-- ===== src/Mergeset/Search/Place.antt =====
-- Where the searches end.
use victoria_metrics.Base.{
  ℕ, zero, suc, ◌+◌, ◌-◌, ◌/◌, ◌≤◌, ◌<◌, ◌≡◌, refl, sym, ap, subst, ◌∙◌, arith,
}
use victoria_metrics.Base.{true, inl, inr, Bool-cases, ltb, ltb→lt, ltb→le, some}
use victoria_metrics.Base.{
  List, [], ◌∷◌, ◌++◌, length, take, drop, take-append-drop, length-drop, All, All-map, All-append,
}
use victoria_metrics.Mergeset.Bytes.{lex_less}
use victoria_metrics.Mergeset.Block.{is_sorted}
use victoria_metrics.Mergeset.Merge.Ascending.{
  ◌⊑◌, ⊑-trans, less-⊑, Ascending, Ascending-right, is_sorted-Ascending,
}
use victoria_metrics.Mergeset.Search.{item_at, search_loop, binary_search_key, try_fast_seek}

⊑-less : (a b c : List ℕ) → a ⊑ b → lex_less b c ≡ true → lex_less a c ≡ true
unfolding lex_less
⊑-less [] [] c h k = k
⊑-less [] (y ∷ b) [] h k = absurd (cc k)
⊑-less [] (y ∷ b) (z ∷ c) h k = refl
⊑-less (x ∷ a) [] c h k = absurd (cc h)
⊑-less (x ∷ a) (y ∷ b) [] h k = absurd (cc k)
⊑-less (x ∷ a) (y ∷ b) (z ∷ c) h k = ground (arith, ⊑-less a b c)

-- The items below the key, and those from it on.
abbrev pub Below : List ℕ → List (List ℕ) → Type 0
Below key xs = All (λ x. lex_less x key ≡ true) xs

abbrev pub From : List ℕ → List (List ℕ) → Type 0
From key xs = All (λ x. key ⊑ x) xs

All-item_at :
    (P : List ℕ → Type 0) (xs : List (List ℕ)) (h : ℕ) → h < length xs → All P xs → P (item_at xs h)
All-item_at P [] h l a = absurd (omega arith)
All-item_at P (x ∷ xs) zero l a = a.0
All-item_at P (x ∷ xs) (suc h) l a = All-item_at P xs h (omega arith) a.1

take-Below :
    (key : List ℕ) (xs : List (List ℕ)) (h : ℕ)
    → h < length xs
    → Ascending xs
    → lex_less (item_at xs h) key ≡ true
    → Below key (take (suc h) xs)
take-Below key [] h l a e = absurd (omega arith)
take-Below key (x ∷ xs) zero l a e = (e, tt)
take-Below key (x ∷ xs) (suc h) l a e = (
  ⊑-less x (item_at xs h) key (All-item_at (λ y. x ⊑ y) xs h (omega arith) a.0) e,
  take-Below key xs h (omega arith) a.1 e,
)

drop-From :
    (key : List ℕ) (xs : List (List ℕ)) (h : ℕ)
    → Ascending xs
    → key ⊑ item_at xs h
    → From key (drop h xs)
drop-From key [] zero a e = tt
drop-From key [] (suc h) a e = tt
drop-From key (x ∷ xs) zero a e = (e, All-map (λ y l. ⊑-trans key x y e l) xs a.0)
drop-From key (x ∷ xs) (suc h) a e = drop-From key xs h a.1 e

-- What a search gives.
abbrev pub IsPlace : List ℕ → List (List ℕ) → ℕ → Type 0
IsPlace key xs r = (r ≤ length xs) × Below key (take r xs) × From key (drop r xs)

search_loop_lem :
    (fuel : ℕ) (xs : List (List ℕ)) (key : List ℕ) (i j : ℕ)
    → Ascending xs
    → i ≤ j
    → j ≤ length xs
    → j ≤ i + fuel
    → Below key (take i xs)
    → From key (drop j xs)
    → IsPlace key xs (search_loop fuel xs key i j)
unfolding search_loop
search_loop_lem zero xs key i j a low high enough below from =
    let same : j ≡ i = omega arith in
    (omega arith, below, subst (λ n. From key (drop n xs)) same from)
search_loop_lem (suc fuel) xs key i j a low high enough below from = elim (Bool-cases (ltb i j)) [
  | inr e ↦
      let same : j ≡ i = omega (arith, ltb→le i j e, low) in
      rw (search_loop, e) (omega arith, below, subst (λ n. From key (drop n xs)) same from)
  | inl e ↦
      let less = ltb→lt i j e in
      let h = (i + j) / 2 in
      elim (Bool-cases (lex_less (item_at xs h) key)) [
        | inl k ↦
            rw (search_loop, e, k)
              (search_loop_lem fuel xs key (suc h) j a (omega arith) high (omega arith)
                (take-Below key xs h (omega arith) a k) from)
        | inr k ↦
            rw (search_loop, e, k)
              (search_loop_lem fuel xs key i h a (omega arith) (omega arith) (omega arith) below
                (drop-From key xs h a k))
      ]
]

drop_all : (xs : List (List ℕ)) → drop (length xs) xs ≡ []
drop_all [] = refl
drop_all (x ∷ xs) = drop_all xs

place :
    (xs : List (List ℕ)) (key : List ℕ) → Ascending xs → IsPlace key xs (binary_search_key xs key)
unfolding binary_search_key
place [] key a = (omega arith, tt, tt)
place (x ∷ xs) key a = elim (Bool-cases (lex_less x key)) [
  | inl e ↦
      let n = length xs in
      let r =
        search_loop_lem n xs key 0 n a.1 (omega arith) (omega arith) (omega arith) tt
          (subst (From key) (sym (drop_all xs)) tt) in
      rw (binary_search_key, e) (omega (arith, r.0), (e, r.1), r.2)
  | inr e ↦
      rw (binary_search_key, e) (omega arith, tt, (e, All-map (λ y l. ⊑-trans key x y e l) xs a.0))
]

-- `binarySearchKey` of a key in sorted items gives a place among them or behind the last: the items in
-- front of it are less than the key, and those from it on are not.
pub binary_search_key-IsPlace :
    (xs : List (List ℕ)) (key : List ℕ)
    → is_sorted xs ≡ true
    → IsPlace key xs (binary_search_key xs key)
binary_search_key-IsPlace xs key h = place xs key (is_sorted-Ascending xs h)

-- From an item that is at most the key, the search goes on behind it.
take-Under :
    (key : List ℕ) (xs : List (List ℕ)) (s : ℕ)
    → s < length xs
    → Ascending xs
    → item_at xs s ⊑ key
    → All (λ x. x ⊑ key) (take s xs)
take-Under key [] s l a e = absurd (omega arith)
take-Under key (x ∷ xs) zero l a e = tt
take-Under key (x ∷ xs) (suc s) l a e = (
  ⊑-trans x (item_at xs s) key (All-item_at (λ y. x ⊑ y) xs s (omega arith) a.0) e,
  take-Under key xs s (omega arith) a.1 e,
)

take-nil : (n : ℕ) → take {A = List ℕ} n [] ≡ []
take-nil zero = refl
take-nil (suc n) = refl

drop-nil : (n : ℕ) → drop {A = List ℕ} n [] ≡ []
drop-nil zero = refl
drop-nil (suc n) = refl

take-add : (s b : ℕ) (xs : List (List ℕ)) → take (s + b) xs ≡ take s xs ++ take b (drop s xs)
take-add zero b xs = ap (λ n. take n xs) (omega arith)
take-add (suc s) b [] = take-nil (suc s + b) ∙ sym (take-nil b)
take-add (suc s) b (x ∷ xs) =
    let n : suc s + b ≡ suc (s + b) = omega arith in
    ap (λ n. take n (x ∷ xs)) n ∙ ap (λ l. x ∷ l) (take-add s b xs)

drop-add : (s b : ℕ) (xs : List (List ℕ)) → drop (s + b) xs ≡ drop b (drop s xs)
drop-add zero b xs = ap (λ n. drop n xs) (omega arith)
drop-add (suc s) b [] = drop-nil (suc s + b) ∙ sym (drop-nil b)
drop-add (suc s) b (x ∷ xs) =
    let n : suc s + b ≡ suc (s + b) = omega arith in ap (λ n. drop n (x ∷ xs)) n ∙ drop-add s b xs

item_at-drop : (s i : ℕ) (xs : List (List ℕ)) → item_at (drop s xs) i ≡ item_at xs (s + i)
item_at-drop zero i xs = ap (item_at xs) (omega arith)
item_at-drop (suc s) i [] = refl
item_at-drop (suc s) i (x ∷ xs) =
    let n : suc (s + i) ≡ suc s + i = omega arith in item_at-drop s i xs ∙ ap (item_at (x ∷ xs)) n

take_all : (xs : List (List ℕ)) → take (length xs) xs ≡ xs
take_all [] = refl
take_all (x ∷ xs) = ap (λ l. x ∷ l) (take_all xs)

-- A place of an item: those in front are at most the key, and it and those behind are not less.
abbrev pub IsFound : List ℕ → List (List ℕ) → ℕ → Type 0
IsFound key xs r = (r < length xs) × All (λ x. x ⊑ key) (take r xs) × From key (drop r xs)

from-IsFound :
    (key : List ℕ) (xs : List (List ℕ)) (s : ℕ)
    → Ascending xs
    → s < length xs
    → key ⊑ item_at xs (length xs - 1)
    → All (λ x. x ⊑ key) (take s xs)
    → IsFound key xs (s + binary_search_key (drop s xs) key)
from-IsFound key xs s a low last under =
    let ys = drop s xs in
    let asc : Ascending ys =
      Ascending-right (take s xs) ys (subst Ascending (sym (take-append-drop s xs)) a) in
    let p = place ys key asc in
    let b = binary_search_key ys key in
    let size : length ys ≡ length xs - s = length-drop s xs in
    (
      elim (Bool-cases (ltb b (length ys))) [
        | inl e ↦ omega (arith, ltb→lt b (length ys) e, size, low)
        | inr e ↦
            let whole : b ≡ length ys = omega (arith, ltb→le b (length ys) e, p.0) in
            let all : Below key ys =
              subst (Below key) (ap (λ n. take n ys) whole ∙ take_all ys) p.1 in
            let i = length ys - 1 in
            let end : s + i ≡ length xs - 1 = omega (arith, size, low) in
            let hit : lex_less (item_at xs (length xs - 1)) key ≡ true =
              subst (λ x. lex_less x key ≡ true) (item_at-drop s i xs ∙ ap (item_at xs) end)
                (All-item_at (λ x. lex_less x key ≡ true) ys i (omega (arith, size, low)) all) in
            absurd (cc (hit, last))
      ],
      subst (All (λ x. x ⊑ key)) (sym (take-add s b xs)) (
          All-append (λ x. x ⊑ key) (take s xs) (take b ys) under
            (All-map (λ x l. less-⊑ x key l) (take b ys) p.1)),
      subst (From key) (sym (drop-add s b xs)) p.2,
    )

-- Where `tryFastSeek` moves to an item of a sorted block, whatever the index was, the items in front of
-- the new index are at most the key, and the item at it and those behind are at least the key. It
-- never moves behind the last item.
pub try_fast_seek-IsFound :
    (items : List (List ℕ)) (idx : ℕ) (k : List ℕ) (r : ℕ)
    → is_sorted items ≡ true
    → try_fast_seek items idx k ≡ some r
    → IsFound k items r
unfolding try_fast_seek
try_fast_seek-IsFound items idx k r sorted h = elim (Bool-cases (ltb idx (length items))) [
  | inr e ↦ absurd (cc (rw e at h))
  | inl e ↦
      let low = ltb→lt idx (length items) e in
      elim (Bool-cases (lex_less (item_at items (length items - 1)) k)) [
        | inl f ↦ absurd (cc (rw (e, f) at h))
        | inr f ↦ elim (Bool-cases (lex_less k (item_at items (idx - 1)))) [
          | inr g ↦
              at_place (idx - 1) (omega arith) f (take-Under k items (idx - 1) (omega arith) asc g)
                (rw (e, f, g) at h)
          | inl g ↦ elim (Bool-cases (lex_less k (item_at items 0))) [
            | inl z ↦ absurd (cc (rw (e, f, g, z) at h))
            | inr z ↦ at_place 0 (omega arith) f tt (rw (e, f, g, z) at h)
          ]
        ]
      ]
]
  where
    asc : Ascending items
    asc = is_sorted-Ascending items sorted

    at_place :
        (s : ℕ)
        → s < length items
        → k ⊑ item_at items (length items - 1)
        → All (λ x. x ⊑ k) (take s items)
        → some (s + binary_search_key (drop s items) k) ≡ some r
        → IsFound k items r
    at_place s low last under e =
        let same : s + binary_search_key (drop s items) k ≡ r = cc e in
        subst (IsFound k items) same (from-IsFound k items s asc low last under)
