-- ===== src/Mergeset/Merge.antt =====
-- lib/mergeset/merge.go: streams of sorted blocks merged into one. A stream (`blockStreamReader`) is
-- the blocks that it still gives, none empty, and whether its reader fails behind them. The writer is the list of
-- the blocks that it was given. `heap.Pop` gives a stream with the least first item. `stop` says
-- whether `stopCh` is closed, by the number of rounds that are left.
pub mod Ascending
pub mod Heap
pub mod Feed
pub mod Round
pub mod Correct
pub mod Stored
use victoria_metrics.Base.{ℕ, zero, suc, ◌+◌, ◌%◌, ◌^◌, Bool, true, false, not, Option, none, some}
use victoria_metrics.Base.{List, [], ◌∷◌, ◌++◌, length, if◌then◌else◌}
use victoria_metrics.Base.Outcome.{Outcome, ok, err, panic, ◌>>=◌}
use victoria_metrics.Mergeset.Bytes.{lex_less}
use victoria_metrics.Mergeset.Block.{InmemoryBlock, empty_block, add}

-- The blocks that are left, each its first item and the others.
pub record Source : Type 0 where
  pub blocks : List (List ℕ × List (List ℕ))
  pub broken : Bool

-- A `blockStreamReader` in the heap: `first_item` is `bh.firstItem` and the item at `blockItemIdx`,
-- `others` are the items of the block behind it.
pub record Reader : Type 0 where
  pub first_item : List ℕ
  pub others : List (List ℕ)
  pub source : Source

pub data MergeError : Type 0 where
  bad_block no_blocks forcibly_stopped : MergeError

-- `Next` and `Error`.
unfoldable pub next : Source → Outcome MergeError (Option Reader)
next s = elim s.blocks [
  | [] ↦ if s.broken then err bad_block else ok none
  | (x, xs) ∷ bs ↦ ok (
      some (record {
        first_item = x;
        others = xs;
        source = record { blocks = bs; broken = s.broken };
      }))
]

-- The part header, the counter of items, the writer and the pending block of `blockStreamMerger`.
pub record Merger : Type 0 where
  pub ib : InmemoryBlock
  pub written : List InmemoryBlock
  pub first_item : List ℕ
  pub first_item_caught : Bool
  pub last_item : List ℕ
  pub items_count : ℕ
  pub blocks_count : ℕ
  pub items_merged : ℕ

abbrev pub empty_merger : Merger
empty_merger = record {
  ib = empty_block;
  written = [];
  first_item = [];
  first_item_caught = false;
  last_item = [];
  items_count = 0;
  blocks_count = 0;
  items_merged = 0;
}

unfoldable pub last_of : List ℕ → List (List ℕ) → List ℕ
last_of x [] = x
last_of x (y ∷ ys) = last_of y ys

-- `flushIB`
unfoldable pub flush_ib : Merger → Merger
unfolding last_of
flush_ib bsm = elim bsm.ib.items [
  | [] ↦ bsm
  | x ∷ xs ↦ record bsm {
    ib = empty_block;
    written = bsm.written ++ bsm.ib ∷ [];
    last_item = last_of x xs;
    items_count = (bsm.items_count + suc (length xs)) % 2 ^ 64;
    items_merged = (bsm.items_merged + suc (length xs)) % 2 ^ 64;
    blocks_count = (bsm.blocks_count + 1) % 2 ^ 64;
  }
]

-- One item: where the pending block is full it is flushed, and the item goes to the empty one. An
-- item that does not fit an empty block would keep the loop going for ever: that is `panic` here.
unfoldable pub take_item : Merger → List ℕ → Outcome MergeError Merger
unfolding flush_ib
take_item bsm x = elim (add bsm.ib x) [
  | some ib ↦ ok (record bsm { ib = ib })
  | none ↦
      let flushed = flush_ib bsm in
      elim (add flushed.ib x) [ some ib ↦ ok (record flushed { ib = ib }) | none ↦ panic ]
]

-- `!hasNextItem || item <= nextItem`
unfoldable pub passes : Option (List ℕ) → List ℕ → Bool
passes none x = true
passes (some n) x = not (lex_less n x)

-- The loop on the items of the block, and the items that it leaves.
unfoldable pub feed :
    Merger → Option (List ℕ) → List (List ℕ) → Outcome MergeError (Merger × List (List ℕ))
unfolding take_item passes
feed bsm limit [] = ok (bsm, [])
feed bsm limit (x ∷ xs) = elim (passes limit x) [
  | true ↦ take_item bsm x >>= λ b. feed b limit xs
  | false ↦ ok (bsm, x ∷ xs)
]

-- `heap.Pop`: a stream with the least first item, and the others. Of streams with equal first items it
-- is the first here; the heap leaves that open, and their items are the same bytes.
unfoldable pub pop_min : List Reader → Option (Reader × List Reader)
pop_min [] = none
pop_min (r ∷ rs) = elim (pop_min rs) [
  | none ↦ some (r, [])
  | some (m, rest) ↦
      if lex_less m.first_item r.first_item then some (m, r ∷ rest) else some (r, m ∷ rest)
]

-- `bsrHeap[0].bh.firstItem`
unfoldable pub next_item : List Reader → Option (List ℕ)
unfolding pop_min
next_item rs = elim (pop_min rs) [ none ↦ none | some (m, _) ↦ some m.first_item ]

unfoldable pub catch_first : Merger → List ℕ → Merger
catch_first bsm x =
    if bsm.first_item_caught then bsm else record bsm { first_item = x; first_item_caught = true }

-- `bsr` back on the heap, at its next item or its next block.
unfoldable pub put_back : Reader → List (List ℕ) → List Reader → Outcome MergeError (List Reader)
unfolding next
put_back r (x ∷ xs) rest = ok (record r { first_item = x; others = xs } ∷ rest)
put_back r [] rest = next r.source >>= λ o. elim o [ none ↦ ok rest | some r2 ↦ ok (r2 ∷ rest) ]

-- `Merge`, a round of `again` for each unit of fuel.
unfoldable pub merge : (ℕ → Bool) → ℕ → List Reader → Merger → Outcome MergeError Merger
unfolding pop_min flush_ib next_item catch_first feed put_back
merge stop zero rs bsm = panic
merge stop (suc fuel) rs bsm = elim (pop_min rs) [
  | none ↦ ok (flush_ib bsm)
  | some (r, rest) ↦
      if stop fuel
      then err forcibly_stopped
      else feed (catch_first bsm r.first_item) (next_item rest) (r.first_item ∷ r.others) >>= λ f.
          put_back r f.1 rest >>= λ rs2. merge stop fuel rs2 f.0
]

unfoldable pub read_first : List Source → Outcome MergeError (List Reader)
unfolding next
read_first [] = ok []
read_first (s ∷ ss) =
    next s >>= λ o. read_first ss >>= λ rs. elim o [ none ↦ ok rs | some r ↦ ok (r ∷ rs) ]

-- `Init`
unfoldable pub init : List Source → Outcome MergeError (List Reader)
unfolding read_first
init ss = read_first ss >>= λ rs. elim rs [ [] ↦ err no_blocks | r ∷ rest ↦ ok (r ∷ rest) ]

-- How many items a stream in the heap still has.
unfoldable pub count_blocks : List (List ℕ × List (List ℕ)) → ℕ
count_blocks [] = 0
count_blocks ((x, xs) ∷ bs) = suc (length xs) + count_blocks bs

unfoldable pub count_items : List Reader → ℕ
unfolding count_blocks
count_items [] = 0
count_items (r ∷ rs) = suc (length r.others) + count_blocks r.source.blocks + count_items rs

-- `mergeBlockStreams`. Each round but the last takes an item at least.
unfoldable pub merge_block_streams : (ℕ → Bool) → List Source → Outcome MergeError Merger
unfolding init merge count_items
merge_block_streams stop ss = init ss >>= λ rs. merge stop (suc (count_items rs)) rs empty_merger
