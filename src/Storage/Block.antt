-- ===== src/Storage/Block.antt =====
-- lib/storage/block.go and merge.go: a block of rows, and the merge of two blocks of one time series.
-- `mergeBlocks` gives the output block; that it also moves `nextIdx` of its inputs is left out, as its
-- caller resets or reloads both of them.
pub mod Rows
pub mod Merge
pub mod Refinement
use victoria_metrics.Base.{
  ℕ, zero, suc, ◌+◌, ◌*◌, Bool, true, false, not, ◌&&◌, ◌||◌, Option, none, some,
}
use victoria_metrics.Base.{
  List, [], ◌∷◌, ◌++◌, length, take, drop, get_elem?, ◌==◌, ltb, leb, if◌then◌else◌,
}
use victoria_metrics.Base.Words.{slt64, sle64}
use victoria_metrics.Base.Outcome.{Outcome, ok, err, panic, ◌>>=◌}
use victoria_metrics.Storage.BlockHeader.{BlockHeader, max_block_size}

pub record Block : Type 0 where
  pub bh : BlockHeader
  pub next_idx : ℕ
  pub timestamps : List ℕ
  pub values : List ℕ
  pub header_data : List ℕ
  pub timestamps_data : List ℕ
  pub values_data : List ℕ

abbrev pub max_rows_per_block : ℕ
max_rows_per_block = 8 * 1024

-- `CopyFrom`
unfoldable pub copy_from : Block → Block
copy_from src = record {
  bh = src.bh;
  next_idx = 0;
  timestamps = drop src.next_idx src.timestamps;
  values = drop src.next_idx src.values;
  header_data = src.header_data;
  timestamps_data = src.timestamps_data;
  values_data = src.values_data;
}

last_item : ℕ → List ℕ → ℕ
last_item t [] = t
last_item t (u ∷ ts) = last_item u ts

-- `fixupTimestamps`, which panics where the index is out of range.
unfoldable pub fixup_timestamps : {E : Type 0} → Block → Outcome E Block
unfolding last_item
fixup_timestamps b = elim (get_elem? b.timestamps b.next_idx) [
  | none ↦ panic
  | some t ↦ ok (record b {
    bh = record b.bh { min_timestamp = t; max_timestamp = last_item t b.timestamps };
  })
]

-- `nextRow`: `none` for false.
unfoldable pub next_row : Block → Option Block
next_row b =
    if b.next_idx == length b.values then none else some (record b { next_idx = b.next_idx + 1 })

-- The tests of `assertUnmarshaled` and `assertMergeable`; a test that fails is a panic.
unfoldable pub is_unmarshaled : Block → Bool
is_unmarshaled b =
    length b.values_data == 0
    && length b.timestamps_data == 0
    && length b.values == length b.timestamps
    && not (ltb (length b.values) b.next_idx)

unfoldable pub is_mergeable : Block → Block → Bool
is_mergeable b ib = b.bh.tsid.metric_id == ib.bh.tsid.metric_id && b.bh.scale == ib.bh.scale

unfoldable pub too_big : Block → Bool
too_big b =
    if leb max_rows_per_block b.bh.rows_count
      || leb max_rows_per_block (length (drop b.next_idx b.values))
    then true
    else leb max_block_size (length b.values_data)

-- Rows `from` up to `to` of `ib`, appended to `ob`.
unfoldable pub append_range : Block → Block → ℕ → Block
append_range ob ib n = record ob {
  timestamps = ob.timestamps ++ take n (drop ib.next_idx ib.timestamps);
  values = ob.values ++ take n (drop ib.next_idx ib.values);
}

unfoldable pub append_rows : Block → Block → Block
append_rows ob ib = record ob {
  timestamps = ob.timestamps ++ drop ib.next_idx ib.timestamps;
  values = ob.values ++ drop ib.next_idx ib.values;
}

-- `for i < len(a) && a[i] <= ts2 { i++ }`, as the number of items that the loop steps over.
unfoldable pub count_le : ℕ → List ℕ → ℕ
count_le ts2 [] = 0
count_le ts2 (t ∷ ts) = let n = count_le ts2 ts in if sle64 t ts2 then suc n else 0

-- The loop at the end of `mergeBlocks`, on fuel.
unfoldable pub merge_loop : {E : Type 0} → ℕ → Block → Block → Block → Outcome E Block
merge_loop zero ob ib1 ib2 = panic
merge_loop (suc fuel) ob ib1 ib2 = elim (get_elem? ib2.timestamps ib2.next_idx) [
  | none ↦ panic
  | some ts2 ↦
      let n = count_le ts2 (drop ib1.next_idx ib1.timestamps) in
      let ob' = append_range ob ib1 n in
      let ib1' = record ib1 { next_idx = ib1.next_idx + n } in
      let rest = merge_loop fuel ob' ib2 ib1' in
      if leb (length ib1'.timestamps) ib1'.next_idx then ok (append_rows ob' ib2) else rest
]

-- The fuel: every round of the loop takes a row, but the first, and the last may be short of one.
merge_fuel : Block → Block → ℕ
merge_fuel ib1 ib2 = suc (suc (length ib1.timestamps + length ib2.timestamps))

unfoldable pub merge_blocks : {E : Type 0} → Block → Block → Block → Outcome E Block
unfolding merge_fuel
merge_blocks ob ib1 ib2 =
    let merged = merge_loop (merge_fuel ib1 ib2) ob ib1 ib2 in
    if not (is_mergeable ib1 ib2) || not (is_unmarshaled ib1) || not (is_unmarshaled ib2)
    then panic
    else if slt64 ib1.bh.max_timestamp ib2.bh.min_timestamp
    then ok (append_rows (append_rows ob ib1) ib2)
    else if slt64 ib2.bh.max_timestamp ib1.bh.min_timestamp
    then ok (append_rows (append_rows ob ib2) ib1)
    else if leb (length ib1.timestamps) ib1.next_idx
    then ok (append_rows ob ib2)
    else if leb (length ib2.timestamps) ib2.next_idx
    then ok (append_rows ob ib1)
    else merged
