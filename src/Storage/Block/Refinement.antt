-- ===== src/Storage/Block/Refinement.antt =====
-- `mergeBlocks` as a whole: the rows of both blocks, in the order of their timestamps.
use mathlib.Core.List.{perm_append_comm}
use mathlib.Core.List.Perm.{rfl, trans}
use victoria_metrics.Base.{ℕ, zero, suc, ◌≤◌, ◌<◌, ◌≡◌, refl, ap, ◌∙◌, arith, true, All}
use victoria_metrics.Base.{List, [], ◌∷◌, ◌++◌, length, drop, leb, inl, inr, Bool-cases}
use victoria_metrics.Base.Words.{◌≤ₛ◌, slt64}
use victoria_metrics.Base.Outcome.{Outcome, ok}
use victoria_metrics.Storage.BlockHeader.{BlockHeader}
use victoria_metrics.Storage.Block.{Block, append_rows, merge_loop, merge_blocks, merge_fuel}
use victoria_metrics.Storage.Block.{is_mergeable, is_unmarshaled, fixup_timestamps, last_item}
use victoria_metrics.Storage.Block.Rows.{Row, Holds, IsSorted, late, times, get_elem-drop}
use victoria_metrics.Storage.Block.Merge.{
  with_rows, with_rows-append, append_rows-Holds, Merges, rows_left,
}
use victoria_metrics.Storage.Block.Merge.{merge_loop-Merges}

-- The header's times enclose the rows.
abbrev pub IsWithin : BlockHeader → List Row → Type 0
IsWithin bh rs = All (λ (r : Row). (bh.min_timestamp ≤ₛ r.time) × (r.time ≤ₛ bh.max_timestamp)) rs

append-IsSorted :
    (b1 b2 : BlockHeader) (lo : ℕ) (rs ss : List Row)
    → slt64 b1.max_timestamp b2.min_timestamp ≡ true
    → IsWithin b1 rs
    → IsWithin b2 ss
    → IsSorted lo rs
    → IsSorted lo ss
    → IsSorted lo (rs ++ ss)
append-IsSorted b1 b2 lo [] ss less w1 w2 s1 s2 = s2
append-IsSorted b1 b2 lo (r ∷ rs) ss less w1 w2 s1 s2 =
    (s1.0, append-IsSorted b1 b2 r.time rs ss less w1.1 w2 s1.1 (after ss s2 w2))
  where
    after : (ss : List Row) → IsSorted lo ss → IsWithin b2 ss → IsSorted r.time ss
    after [] s w = tt
    after (x ∷ ss) s w =
        let below : r.time ≤ₛ b1.max_timestamp = w1.0.1 in
        let above : b2.min_timestamp ≤ₛ x.time = w.0.0 in (ground (arith, less), s.1)

module _ {E : Type 0} (ob ib1 ib2 : Block) (r1 r2 : List Row) (h1 : Holds ib1 r1)
    (h2 : Holds ib2 r2) where
  in_a_row :
      IsWithin ib1.bh r1
      → IsWithin ib2.bh r2
      → slt64 ib1.bh.max_timestamp ib2.bh.min_timestamp ≡ true
      → Merges {E = E} (ok (append_rows (append_rows ob ib1) ib2)) ob r1 r2
  in_a_row w1 w2 less = (
    r1 ++ r2,
    ap ok (
        append_rows-Holds (append_rows ob ib1) ib2 r2 h2
        ∙ ap (λ b. with_rows b r2) (append_rows-Holds ob ib1 r1 h1)
        ∙ with_rows-append ob r1 r2),
    rfl,
    λ lo s1 s2. append-IsSorted ib1.bh ib2.bh lo r1 r2 less w1 w2 s1 s2,
  )

  only_second : length r1 ≡ 0 → Merges {E = E} (ok (append_rows ob ib2)) ob r1 r2
  only_second e = none_first r1 e
    where
      none_first :
          (rs : List Row) → length rs ≡ 0 → Merges {E = E} (ok (append_rows ob ib2)) ob rs r2
      none_first [] e = (r2, ap ok (append_rows-Holds ob ib2 r2 h2), rfl, λ lo s1 s2. s2)
      none_first (r ∷ rs) e = absurd (omega arith)

late_le : (rs ss : List Row) → late rs ss ≤ 1
late_le [] ss = omega arith
late_le (r ∷ rs) [] = omega arith
late_le (r ∷ rs) (s ∷ ss) = ground arith

swapped :
    {E : Type 0} (o : Outcome E Block) (ob : Block) (r1 r2 : List Row)
    → Merges o ob r2 r1
    → Merges o ob r1 r2
swapped o ob r1 r2 (out, e, p, s) =
    (out, e, trans (perm_append_comm r1 r2) p, λ lo s1 s2. s lo s2 s1)

looped :
    {E : Type 0} (ob ib1 ib2 : Block) (r1 r2 : List Row)
    → Holds ib1 r1
    → Holds ib2 r2
    → 0 < length r2
    → Merges {E = E} (merge_loop (merge_fuel ib1 ib2) ob ib1 ib2) ob r1 r2
unfolding merge_fuel
looped ob ib1 ib2 r1 [] h1 h2 k = absurd (omega arith)
looped ob ib1 ib2 r1 (y ∷ r2) h1 h2 k =
    merge_loop-Merges _ ob ib1 ib2 r1 y r2 h1 h2
      (omega (arith, rows_left ib1 r1 h1, rows_left ib2 (y ∷ r2) h2, late_le r1 (y ∷ r2)))

-- `mergeBlocks` returns for two blocks of one time series and one scale, both unmarshaled and with
-- their rows within the times of their headers. It appends the rows of both to `ob`, each once, and
-- in the order of their timestamps if the rows of each block are in that order.
pub merge_blocks-Merges :
    {E : Type 0} (ob ib1 ib2 : Block) (r1 r2 : List Row)
    → Holds ib1 r1
    → Holds ib2 r2
    → is_mergeable ib1 ib2 ≡ true
    → is_unmarshaled ib1 ≡ true
    → is_unmarshaled ib2 ≡ true
    → IsWithin ib1.bh r1
    → IsWithin ib2.bh r2
    → Merges {E = E} (merge_blocks ob ib1 ib2) ob r1 r2
unfolding merge_blocks
merge_blocks-Merges {E} ob ib1 ib2 r1 r2 h1 h2 one u1 u2 w1 w2 =
    let size1 = rows_left ib1 r1 h1 in
    let size2 = rows_left ib2 r2 h2 in
    rw (one, u1, u2)
      (elim (Bool-cases (slt64 ib1.bh.max_timestamp ib2.bh.min_timestamp)) [
        | inl before ↦ rw before (in_a_row ob ib1 ib2 r1 r2 h1 h2 w1 w2 before)
        | inr b ↦ rw b (elim (Bool-cases (slt64 ib2.bh.max_timestamp ib1.bh.min_timestamp)) [
          | inl after ↦ rw after (swapped _ ob r1 r2 (in_a_row ob ib2 ib1 r2 r1 h2 h1 w2 w1 after))
          | inr a ↦ rw a (elim (Bool-cases (leb (length ib1.timestamps) ib1.next_idx)) [
            | inl none1 ↦
                rw none1 (only_second ob ib1 ib2 r1 r2 h1 h2 (ground (arith, size1, none1)))
            | inr some1 ↦ rw some1 (elim (Bool-cases (leb (length ib2.timestamps) ib2.next_idx)) [
              | inl none2 ↦ rw none2 (
                  swapped _ ob r1 r2
                    (only_second ob ib2 ib1 r2 r1 h2 h1 (ground (arith, size2, none2))))
              | inr some2 ↦ rw some2 (looped ob ib1 ib2 r1 r2 h1 h2 (ground (arith, size2, some2)))
            ])
          ])
        ])
      ])

-- The block with the header's times taken from its rows.
abbrev timed : Block → ℕ → ℕ → Block
timed b low high = record b { bh = record b.bh { min_timestamp = low; max_timestamp = high } }

last_item-drop :
    (n : ℕ) (t y : ℕ) (ts ys : List ℕ) → drop n ts ≡ y ∷ ys → last_item t ts ≡ last_item y ys
unfolding last_item
last_item-drop zero t y [] ys e = cc
last_item-drop zero t y (u ∷ ts) ys e = cc
last_item-drop (suc n) t y [] ys e = cc
last_item-drop (suc n) t y (u ∷ ts) ys e = last_item-drop n u y ts ys e

enclosed :
    (bh : BlockHeader) (lo t : ℕ) (rs : List Row)
    → lo ≤ₛ t
    → IsSorted t rs
    → (t ≤ₛ last_item t (times rs))
      × IsWithin (record bh { min_timestamp = lo; max_timestamp = last_item t (times rs) }) rs
unfolding last_item
enclosed bh lo t [] h s = (omega arith, tt)
enclosed bh lo t (r ∷ rs) h s =
    let (top, within) = enclosed bh lo r.time rs (omega arith) s.1 in
    (omega arith, ((omega arith, top), within))

-- On a block that has rows left, in the order of their timestamps, `fixupTimestamps` succeeds,
-- changes no row, and leaves a header whose times enclose those of the rows.
pub fixup_timestamps-IsWithin :
    {E : Type 0} (b : Block) (r : Row) (rs : List Row)
    → Holds b (r ∷ rs)
    → IsSorted r.time rs
    → (out : Block) × (fixup_timestamps {E = E} b ≡ ok out)
      × Holds out (r ∷ rs)
      × IsWithin out.bh (r ∷ rs)
unfolding fixup_timestamps
fixup_timestamps-IsWithin b r rs h s =
    let (top, within) = enclosed b.bh r.time r.time rs (omega arith) s in
    (
      timed b r.time (last_item r.time (times rs)),
      rw (get_elem-drop b.next_idx b.timestamps r.time (times rs) h.0, fixup_timestamps)
          (rw (last_item-drop b.next_idx r.time r.time b.timestamps (times rs) h.0) refl),
      h,
      ((omega arith, top), within),
    )
