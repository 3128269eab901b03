-- ===== src/Mergeset/Merge/Correct.antt =====
-- A merge of sorted streams is the sorted blocks of their items.
use mathlib.Core.List.{append-nil, Perm}
use victoria_metrics.Base.{ℕ, suc, ◌≤◌, ◌<◌, ◌≡◌, refl, ap, subst, ◌∙◌, arith}
use victoria_metrics.Base.{Bool, true, false, inl}
use victoria_metrics.Base.{List, [], ◌∷◌, ◌++◌, length, All}
use victoria_metrics.Base.Outcome.{ok}
use victoria_metrics.Storage.Fields.{then_ok}
use victoria_metrics.Mergeset.Block.{is_sorted, max_inmemory_block_size}
use victoria_metrics.Mergeset.Merge.{
  Source, Reader, Merger, empty_merger, merge, read_first, init, next, count_items,
  merge_block_streams,
}
use victoria_metrics.Mergeset.Merge.Ascending.{Ascending, is_sorted-Ascending, Ascending-is_sorted}
use victoria_metrics.Mergeset.Merge.Heap.{flat, stream, pool, count_items_lem}
use victoria_metrics.Mergeset.Merge.Feed.{items_of, out, IsMerger}
use victoria_metrics.Mergeset.Merge.Round.{Follows, never, merge_lem}

abbrev pub all_items : List Source → List (List ℕ)
all_items [] = []
all_items (s ∷ ss) = flat s.blocks ++ all_items ss

-- A reader of sorted items, each of which fits a block, that does not fail.
abbrev pub IsSource : Source → Type 0
IsSource s =
    (s.broken ≡ false)
    × All (λ x. length x ≤ max_inmemory_block_size) (flat s.blocks)
    × (is_sorted (flat s.blocks) ≡ true)

-- The first block of a stream joins the others.
first_read :
    (blocks : List (List ℕ × List (List ℕ))) (broken : Bool) (ss : List Source) (rs : List Reader)
    → let s : Source = record { blocks = blocks; broken = broken } in
      IsSource s
      → read_first ss ≡ ok rs
      → pool rs ≡ all_items ss
      → All (Follows []) rs
      → (qs : List Reader) × (read_first (s ∷ ss) ≡ ok qs)
        × (pool qs ≡ all_items (s ∷ ss))
        × All (Follows []) qs
unfolding read_first next
first_read [] broken ss rs h e p f = (rs, rw (read_first, h.0, e) refl, p, f)
first_read ((x, xs) ∷ bs) broken ss rs h e p f =
    let r : Reader = record {
      first_item = x;
      others = xs;
      source = record { blocks = bs; broken = broken };
    } in
    (
      r ∷ rs,
      rw (read_first, e) refl,
      ap (λ l. stream r ++ l) p,
      ((h.0, h.1, is_sorted-Ascending (stream r) h.2), f),
    )

read_first_lem :
    (ss : List Source)
    → All IsSource ss
    → (rs : List Reader) × (read_first ss ≡ ok rs) × (pool rs ≡ all_items ss) × All (Follows []) rs
unfolding read_first
read_first_lem [] h = ([], refl, refl, tt)
read_first_lem (s ∷ ss) h =
    let r = read_first_lem ss h.1 in first_read s.blocks s.broken ss r.0 h.0 r.1 r.2 r.3

init_lem :
    (ss : List Source) (rs : List Reader)
    → read_first ss ≡ ok rs
    → 0 < length (pool rs)
    → init ss ≡ ok rs
unfolding init
init_lem ss [] e h = absurd (omega arith)
init_lem ss (r ∷ rs) e h = rw e refl

-- A merge that is not stopped, of readers that do not fail and give sorted items of at most
-- maxInmemoryBlockSize bytes, at least one, ends without an error. The blocks written hold exactly the
-- items of the readers, in order from block to block; each has an item at least and data of at most
-- maxInmemoryBlockSize bytes, its items one behind another; no item is left pending; and the part
-- header has the numbers of items and of blocks, as uint64, and the last item.
pub merge_block_streams_lem :
    (ss : List Source)
    → All IsSource ss
    → 0 < length (all_items ss)
    → (bsm : Merger) × (merge_block_streams never ss ≡ ok bsm)
      × Perm (all_items ss) (items_of bsm.written)
      × (is_sorted (items_of bsm.written) ≡ true)
      × IsMerger bsm
      × (bsm.ib.items ≡ [])
unfolding merge_block_streams
merge_block_streams_lem ss h some_item =
    let r = read_first_lem ss h in
    let start = init_lem ss r.0 r.1 (omega (arith, ap length r.2, some_item)) in
    let m =
      merge_lem (suc (count_items r.0)) r.0 empty_merger (omega (arith, count_items_lem r.0))
        ((refl, omega arith), tt, omega arith, omega arith, inl refl) tt r.3 in
    let all : out m.0 ≡ items_of m.0.written =
      ap (λ l. items_of m.0.written ++ l) m.3 ∙ append-nil (items_of m.0.written) in
    (
      m.0,
      then_ok (λ rs. merge never (suc (count_items rs)) rs empty_merger) start m.1,
      subst (λ l. Perm l (items_of m.0.written)) r.2 (subst (Perm (pool r.0)) all m.5),
      Ascending-is_sorted (items_of m.0.written) (subst Ascending all m.4),
      m.2,
      m.3,
    )
