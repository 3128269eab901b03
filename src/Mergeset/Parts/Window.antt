-- ===== src/Mergeset/Parts/Window.antt =====
-- The parts that the search looks at, whatever the floats do.
use mathlib.Core.List.{Perm}
use mathlib.Core.List.Perm.{rfl, trans, cons, swap}
use victoria_metrics.Base.{ℕ, zero, suc, ◌+◌, ◌-◌, ◌≤◌, ◌≡◌, ◌⊎◌, refl, sym, ap, ◌∙◌, arith}
use victoria_metrics.Base.{inl, inr, Bool-cases, ltb, ltb→le}
use victoria_metrics.Base.{
  List, [], ◌∷◌, ◌++◌, length, take, drop, take-append-drop, length-drop, All,
}
use victoria_metrics.Mergeset.Parts.{
  PartWrapper, Ratios, Best, filter_small, insert_part, sort_parts, items_sum, last_count,
  try_window, try_starts, try_sizes,
}

pub insert_part-Perm :
    (pw : PartWrapper) (src : List PartWrapper) → Perm (pw ∷ src) (insert_part pw src)
unfolding insert_part
insert_part-Perm pw [] = rfl
insert_part-Perm pw (q ∷ src) = elim (Bool-cases (ltb q.items_count pw.items_count)) [
  | inl e ↦ rw (insert_part, e) (trans (swap q pw src) (cons q (insert_part-Perm pw src)))
  | inr e ↦ rw (insert_part, e) rfl
]

pub sort_parts-Perm : (src : List PartWrapper) → Perm src (sort_parts src)
unfolding sort_parts
sort_parts-Perm [] = rfl
sort_parts-Perm (pw ∷ src) =
    trans (cons pw (sort_parts-Perm src)) (insert_part-Perm pw (sort_parts src))

module _ (P : PartWrapper → Type 0) where
  pub insert_part-All :
      (pw : PartWrapper) (src : List PartWrapper) → P pw → All P src → All P (insert_part pw src)
  unfolding insert_part
  insert_part-All pw [] h hs = (h, tt)
  insert_part-All pw (q ∷ src) h hs = elim (Bool-cases (ltb q.items_count pw.items_count)) [
    | inl e ↦ rw (insert_part, e) (hs.0, insert_part-All pw src h hs.1)
    | inr e ↦ rw (insert_part, e) (h, hs)
  ]

  pub sort_parts-All : (src : List PartWrapper) → All P src → All P (sort_parts src)
  unfolding sort_parts
  sort_parts-All [] h = tt
  sort_parts-All (pw ∷ src) h = insert_part-All pw (sort_parts src) h.0 (sort_parts-All src h.1)

  pub filter_small-All :
      (limit : ℕ) (src : List PartWrapper) → All P src → All P (filter_small limit src)
  unfolding filter_small
  filter_small-All limit [] h = tt
  filter_small-All limit (pw ∷ src) h = elim (Bool-cases (ltb limit pw.items_count)) [
    | inl e ↦ rw (filter_small, e) (filter_small-All limit src h.1)
    | inr e ↦ rw (filter_small, e) (h.0, filter_small-All limit src h.1)
  ]

-- No part, or from 2 to `n` neighbours in `src` with a sum of at most `max_items`.
abbrev pub IsWindow : ℕ → ℕ → List PartWrapper → List PartWrapper → Type 0
IsWindow n max_items src pws =
    (pws ≡ [])
    ⊎ ((front : List PartWrapper) × (back : List PartWrapper) × (src ≡ front ++ (pws ++ back))
        × (2 ≤ length pws)
        × (length pws ≤ n)
        × (items_sum 0 pws ≤ max_items))

pub length-take : (n : ℕ) (xs : List PartWrapper) → n ≤ length xs → length (take n xs) ≡ n
length-take zero xs h = refl
length-take (suc n) [] h = absurd (omega arith)
length-take (suc n) (x ∷ xs) h = ap suc (length-take n xs (omega arith))

module _ (F : Ratios) (n max_items : ℕ) (src : List PartWrapper) where
  abbrev pub Fine : Best F → Type 0
  Fine best = IsWindow n max_items src best.pws

  pub try_window-Fine :
      (i j : ℕ) (best : Best F)
      → 2 ≤ i
      → i ≤ n
      → i + j ≤ length src
      → Fine best
      → Fine (try_window F max_items (take i (drop j src)) best)
  unfolding try_window
  try_window-Fine i j best low high room h =
      elim (Bool-cases (ltb max_items (items_sum 0 window))) [
        | inl e ↦ rw (try_window, e) h
        | inr e ↦
            elim (Bool-cases
              (F.less (F.quotient (items_sum 0 window) (last_count 0 window)) best.max_m)) [
                | inl k ↦ rw (try_window, e, k) h
                | inr k ↦
                    let cut =
                      ap (λ l. take j src ++ l) (take-append-drop i (drop j src))
                      ∙ take-append-drop j src in
                    let size =
                      length-take i (drop j src) (omega (arith, length-drop j src, room)) in
                    rw (try_window, e, k)
                      (inr (
                        take j src,
                        drop i (drop j src),
                        sym cut,
                        omega (arith, size, low),
                        omega (arith, size, high),
                        ltb→le max_items (items_sum 0 window) e,
                      ))
              ]
      ]
    where
      window : List PartWrapper
      window = take i (drop j src)

  pub try_starts-Fine :
      (rounds i j : ℕ) (best : Best F)
      → 2 ≤ i
      → i ≤ n
      → i + j + rounds ≤ suc (length src)
      → Fine best
      → Fine (try_starts F rounds max_items i j src best)
  unfolding try_starts
  try_starts-Fine zero i j best low high room h = h
  try_starts-Fine (suc rounds) i j best low high room h =
      try_starts-Fine rounds i (suc j) _ low high (omega arith)
        (try_window-Fine i j best low high (omega arith) h)

  pub try_sizes-Fine :
      (rounds i : ℕ) (best : Best F)
      → 2 ≤ i
      → rounds ≤ suc n - i
      → n ≤ length src
      → Fine best
      → Fine (try_sizes F rounds max_items i src best)
  unfolding try_sizes
  try_sizes-Fine zero i best low room size h = h
  try_sizes-Fine (suc rounds) i best low room size h =
      try_sizes-Fine rounds (suc i) _ (omega arith) (omega arith) size
        (try_starts-Fine (suc (length src) - i) i 0 best low (omega arith) (omega arith) h)
