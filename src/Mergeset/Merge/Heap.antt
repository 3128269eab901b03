-- ===== src/Mergeset/Merge/Heap.antt =====
-- The streams in the heap: their items, the least of them, and what goes back.
use mathlib.Core.List.{Perm, perm_middle}
use mathlib.Core.List.Perm.{rfl, trans, cons, symm, append_left}
use victoria_metrics.Base.{ℕ, ◌+◌, ◌≡◌, refl, arith}
use victoria_metrics.Base.{Bool, true, false, not, inl, inr, Bool-cases, none, some}
use victoria_metrics.Base.{List, [], ◌∷◌, ◌++◌, length, length-append, All, All-map}
use victoria_metrics.Base.Outcome.{ok, ◌>>=◌}
use victoria_metrics.Mergeset.Bytes.{lex_less}
use victoria_metrics.Mergeset.Merge.{
  Reader, next, passes, pop_min, next_item, put_back, count_blocks, count_items,
}
use victoria_metrics.Mergeset.Merge.Ascending.{◌⊑◌, ⊑-refl, ⊑-trans, less-⊑}

abbrev pub flat : List (List ℕ × List (List ℕ)) → List (List ℕ)
flat [] = []
flat ((x, xs) ∷ bs) = (x ∷ xs) ++ flat bs

-- The items that a stream still gives, and those of all of them.
abbrev pub stream : Reader → List (List ℕ)
stream r = (r.first_item ∷ r.others) ++ flat r.source.blocks

abbrev pub pool : List Reader → List (List ℕ)
pool [] = []
pool (r ∷ rs) = stream r ++ pool rs

count_blocks_lem : (bs : List (List ℕ × List (List ℕ))) → count_blocks bs ≡ length (flat bs)
unfolding count_blocks
count_blocks_lem [] = refl
count_blocks_lem ((x, xs) ∷ bs) = omega (arith, length-append xs (flat bs), count_blocks_lem bs)

pub count_items_lem : (rs : List Reader) → count_items rs ≡ length (pool rs)
unfolding count_items
count_items_lem [] = refl
count_items_lem (r ∷ rs) = omega (
  arith,
  length-append (stream r) (pool rs),
  length-append r.others (flat r.source.blocks),
  count_blocks_lem r.source.blocks,
  count_items_lem rs,
)

past : (a b c : List (List ℕ)) → Perm (a ++ (b ++ c)) (b ++ (a ++ c))
past [] b c = rfl
past (x ∷ a) b c = trans (cons x (past a b c)) (symm (perm_middle b (a ++ c)))

-- `heap.Pop` on a heap with streams: the stream and the others are those of the heap, and no stream
-- has a lower first item.
pub pop_min_lem :
    (P : Reader → Type 0) (r : Reader) (rs : List Reader)
    → All P (r ∷ rs)
    → (m : Reader) × (rest : List Reader) × (pop_min (r ∷ rs) ≡ some (m, rest))
      × Perm (pool (r ∷ rs)) (stream m ++ pool rest)
      × P m
      × All P rest
      × All (λ (q : Reader). m.first_item ⊑ q.first_item) (r ∷ rs)
      × All (λ (q : Reader). m.first_item ⊑ q.first_item) rest
      × (length (pool (r ∷ rs)) ≡ length (stream m) + length (pool rest))
unfolding pop_min
pop_min_lem P r [] h =
    (r, [], refl, rfl, h.0, tt, (⊑-refl r.first_item, tt), tt, length-append (stream r) [])
pop_min_lem P r (q ∷ qs) h =
    let p = pop_min_lem P q qs h.1 in
    let same = append_left (stream r) p.3 in
    let size : length (pool (r ∷ q ∷ qs)) ≡ length (stream p.0) + length (pool (r ∷ p.1)) =
      omega (
        arith,
        p.8,
        length-append (stream r) (pool (q ∷ qs)),
        length-append (stream r) (pool p.1),
      ) in
    let size2 : length (pool (r ∷ q ∷ qs)) ≡ length (stream r) + length (pool (p.0 ∷ p.1)) = omega (
      arith,
      p.8,
      length-append (stream r) (pool (q ∷ qs)),
      length-append (stream p.0) (pool p.1),
    ) in
    elim (Bool-cases (lex_less p.0.first_item r.first_item)) [
      | inl e ↦
          let low = less-⊑ p.0.first_item r.first_item e in
          (
            p.0,
            r ∷ p.1,
            rw (pop_min, p.2, e) refl,
            trans same (past (stream r) (stream p.0) (pool p.1)),
            p.4,
            (h.0, p.5),
            (low, p.6),
            (low, p.7),
            size,
          )
      | inr e ↦
          let above = λ (s : Reader) (k : p.0.first_item ⊑ s.first_item).
            ⊑-trans r.first_item p.0.first_item s.first_item e k in
          (
            r,
            p.0 ∷ p.1,
            rw (pop_min, p.2, e) refl,
            same,
            h.0,
            (p.4, p.5),
            (⊑-refl r.first_item, All-map above (q ∷ qs) p.6),
            (e, All-map above p.1 p.7),
            size2,
          )
    ]

not-true : (b : Bool) → not b ≡ true → b ≡ false
not-true true h = cc
not-true false h = refl

-- What passes is at most the first item of every other stream, and what is at most these passes.
pub next_item-below :
    (rs : List Reader) (t : List ℕ)
    → passes (next_item rs) t ≡ true
    → All (λ (q : Reader). t ⊑ q.first_item) rs
unfolding next_item passes
next_item-below [] t h = tt
next_item-below (r ∷ rs) t h =
    let p = pop_min_lem (λ q. Unit {0}) r rs (units (r ∷ rs)) in
    let low : t ⊑ p.0.first_item =
      not-true (lex_less p.0.first_item t) (rw (next_item, p.2) at h) in
    All-map (λ (q : Reader) k. ⊑-trans t p.0.first_item q.first_item low k) (r ∷ rs) p.6
  where
    units : (qs : List Reader) → All (λ (q : Reader). Unit {0}) qs
    units [] = tt
    units (q ∷ qs) = (tt, units qs)

-- What is at most every first item passes.
pub passes_low :
    (rs : List Reader) (t : List ℕ)
    → All (λ (q : Reader). t ⊑ q.first_item) rs
    → passes (next_item rs) t ≡ true
unfolding next_item passes
passes_low [] t h = refl
passes_low (r ∷ rs) t h =
    let p = pop_min_lem (λ (q : Reader). t ⊑ q.first_item) r rs h in rw (next_item, p.2, p.4) refl

-- A stream is back with what is left of it, on its own.
pub put_back_lem :
    (P : Reader → Type 0) (r : Reader) (left : List (List ℕ)) (rest : List Reader)
    → r.source.broken ≡ false
    → ((q : Reader) → stream q ≡ left ++ flat r.source.blocks → q.source.broken ≡ false → P q)
    → All P rest
    → (rs : List Reader) × (put_back r left rest ≡ ok rs)
      × (pool rs ≡ (left ++ flat r.source.blocks) ++ pool rest)
      × All P rs
unfolding put_back next
put_back_lem P r (x ∷ xs) rest fine f h =
    let q : Reader = record r { first_item = x; others = xs } in
    (q ∷ rest, refl, refl, (f q refl fine, h))
put_back_lem P r [] rest fine f h = go r.source.blocks r.source.broken fine f
  where
    go :
        (bs : List (List ℕ × List (List ℕ))) (broken : Bool)
        → broken ≡ false
        → ((q : Reader) → stream q ≡ flat bs → q.source.broken ≡ false → P q)
        → (rs : List Reader) × ((next (record { blocks = bs; broken = broken }) >>= λ o. elim o [
          | none ↦ ok rest
          | some r2 ↦ ok (r2 ∷ rest)
        ])
            ≡ ok rs)
          × (pool rs ≡ flat bs ++ pool rest)
          × All P rs
    go [] broken e f = (rest, rw (next, e) refl, refl, h)
    go ((x, xs) ∷ bs) broken e f =
        let q : Reader = record {
          first_item = x;
          others = xs;
          source = record { blocks = bs; broken = broken };
        } in
        (q ∷ rest, refl, refl, (f q refl e, h))
