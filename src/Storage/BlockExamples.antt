-- ===== src/Storage/BlockExamples.antt =====
-- The merge of blocks at concrete inputs.
use victoria_metrics.Base.{ℕ, ◌-◌, ◌^◌, ◌≡◌, refl, arith, true, List, [], ◌∷◌}
use victoria_metrics.Base.Outcome.{ok}
use victoria_metrics.Storage.BlockHeader.{BlockHeader}
use victoria_metrics.Storage.Block.{Block, merge_blocks, merge_loop, is_mergeable, is_unmarshaled}
use victoria_metrics.Storage.Block.{append_rows, append_range, count_le, fixup_timestamps}
use victoria_metrics.Storage.Block.Rows.{Row, Holds}
use victoria_metrics.Storage.Block.Merge.{Merges}
use victoria_metrics.Storage.Block.Refinement.{
  IsWithin, merge_blocks-Merges, fixup_timestamps-IsWithin,
}
use victoria_metrics.Storage.TagValue.{TagError}

abbrev span : ℕ → ℕ → BlockHeader
span low high = record {
  tsid = record { metric_group_id = 7; job_id = 1; instance_id = 2; metric_id = 3 };
  min_timestamp = low;
  max_timestamp = high;
  first_value = 0;
  timestamps_block_offset = 0;
  values_block_offset = 0;
  timestamps_block_size = 0;
  values_block_size = 0;
  rows_count = 2;
  scale = 0;
  timestamps_marshal_type = 0;
  values_marshal_type = 0;
  precision_bits = 64;
}

abbrev block_of : BlockHeader → List ℕ → List ℕ → Block
block_of bh ts vs = record {
  bh = bh;
  next_idx = 0;
  timestamps = ts;
  values = vs;
  header_data = [];
  timestamps_data = [];
  values_data = [];
}

-- -2 as an int64
abbrev minus_two : ℕ
minus_two = 2 ^ 64 - 2

abbrev odd_times : Block
odd_times = block_of (span minus_two 5) (minus_two ∷ 3 ∷ 5 ∷ []) (10 ∷ 11 ∷ 12 ∷ [])

abbrev even_times : Block
even_times = block_of (span 3 4) (3 ∷ 4 ∷ []) (20 ∷ 21 ∷ [])

abbrev row : ℕ → ℕ → Row
row t v = record { time = t; value = v }

abbrev no_rows : Block
no_rows = block_of (span 0 0) [] []

merge_run :
    merge_loop {E = TagError} 9 no_rows odd_times even_times
    ≡ ok (block_of (span 0 0) (minus_two ∷ 3 ∷ 3 ∷ 4 ∷ 5 ∷ []) (10 ∷ 11 ∷ 20 ∷ 21 ∷ 12 ∷ []))
unfolding merge_loop count_le append_range append_rows
merge_run = refl

mergeable : is_mergeable odd_times even_times ≡ true
unfolding is_mergeable
mergeable = refl

unmarshaled1 : is_unmarshaled odd_times ≡ true
unfolding is_unmarshaled
unmarshaled1 = refl

unmarshaled2 : is_unmarshaled even_times ≡ true
unfolding is_unmarshaled
unmarshaled2 = refl

merge_blocks-Merges_example :
    Merges {E = TagError}
      (merge_blocks no_rows odd_times even_times)
      no_rows
      (row minus_two 10 ∷ row 3 11 ∷ row 5 12 ∷ [])
      (row 3 20 ∷ row 4 21 ∷ [])
merge_blocks-Merges_example =
    merge_blocks-Merges no_rows odd_times even_times (row minus_two 10 ∷ row 3 11 ∷ row 5 12 ∷ [])
      (row 3 20 ∷ row 4 21 ∷ []) (refl, refl) (refl, refl) mergeable unmarshaled1 unmarshaled2
      (omega arith) (omega arith)

fixup_timestamps-IsWithin_example :
    (out : Block) × (fixup_timestamps {E = TagError} even_times ≡ ok out)
    × Holds out (row 3 20 ∷ row 4 21 ∷ [])
    × IsWithin out.bh (row 3 20 ∷ row 4 21 ∷ [])
fixup_timestamps-IsWithin_example =
    fixup_timestamps-IsWithin even_times (row 3 20) (row 4 21 ∷ []) (refl, refl) (omega arith)
