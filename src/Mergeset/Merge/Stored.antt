-- ===== src/Mergeset/Merge/Stored.antt =====
-- The blocks that a merge writes, encoded and decoded.
use victoria_metrics.Base.{ℕ, ◌^◌, ◌≤◌, ◌<◌, ◌≡◌, subst, arith, true}
use victoria_metrics.Base.{List, [], ◌∷◌, length, length-append, All}
use victoria_metrics.Base.Outcome.{ok, ◌>>=◌}
use victoria_metrics.Encoding.Array.{Zstd}
use victoria_metrics.Encoding.Array.RoundTrip.{IsLossless}
use victoria_metrics.Mergeset.Block.{InmemoryBlock, is_sorted, join, max_inmemory_block_size}
use victoria_metrics.Mergeset.Codec.{marshal_sorted_data, unmarshal_data}
use victoria_metrics.Mergeset.Codec.Deltas.{AreShort}
use victoria_metrics.Mergeset.Codec.Shape.{block_of}
use victoria_metrics.Mergeset.Codec.RoundTrip.{unmarshal-marshal_sorted_data}
use victoria_metrics.Mergeset.Merge.{Source, Merger, merge_block_streams}
use victoria_metrics.Mergeset.Merge.Ascending.{
  Ascending, Ascending-left, Ascending-right, is_sorted-Ascending, Ascending-is_sorted,
}
use victoria_metrics.Mergeset.Merge.Feed.{items_of, IsWritten}
use victoria_metrics.Mergeset.Merge.Round.{never}
use victoria_metrics.Mergeset.Merge.Correct.{all_items, IsSource, merge_block_streams_lem}

-- The items of a block are no longer than its data.
join-AreShort : (xs : List (List ℕ)) → length (join xs) ≤ max_inmemory_block_size → AreShort xs
join-AreShort [] h = tt
join-AreShort (x ∷ xs) h =
    let size = length-append x (join xs) in
    (omega (arith, size, h), join-AreShort xs (omega (arith, size, h)))

module _ (z : Zstd) (lossless : IsLossless z) (level : ℕ) where
  -- `UnmarshalData` gives back what `MarshalSortedData` wrote.
  abbrev pub ReadsBack : InmemoryBlock → Type 0
  ReadsBack ib =
      (marshal_sorted_data z ib [] [] level >>= λ m.
      unmarshal_data z m.sb m.first_item m.common_prefix m.items_count m.marshal_type)
      ≡ ok (block_of ib.items)

  written-ReadsBack :
      (bs : List InmemoryBlock)
      → All IsWritten bs
      → Ascending (items_of bs)
      → All (λ b. length b.items < 2 ^ 31) bs
      → All ReadsBack bs
  written-ReadsBack [] h a k = tt
  written-ReadsBack (b ∷ bs) h a k =
      let fits : length (join b.items) ≤ max_inmemory_block_size =
        subst (λ l. length l ≤ max_inmemory_block_size) h.0.0.0 h.0.0.1 in
      let sorted = Ascending-is_sorted b.items (Ascending-left b.items (items_of bs) a) in
      (
        unmarshal-marshal_sorted_data z lossless b level h.0.1 k.0 (join-AreShort b.items fits)
            sorted,
        written-ReadsBack bs h.1 (Ascending-right b.items (items_of bs) a) k.1,
      )

  -- Every block that a merge writes, with fewer than 2^31 items, is given back by `UnmarshalData` from
  -- what `MarshalSortedData` makes of it, with its common prefix: a merge that is not stopped, of readers
  -- that do not fail and give sorted items of at most maxInmemoryBlockSize bytes, at least one, under a
  -- lossless zstd on any level.
  pub merge_block_streams-ReadsBack :
      (ss : List Source) (bsm : Merger)
      → All IsSource ss
      → 0 < length (all_items ss)
      → merge_block_streams never ss ≡ ok bsm
      → All (λ b. length b.items < 2 ^ 31) bsm.written
      → All ReadsBack bsm.written
  merge_block_streams-ReadsBack ss bsm h some_item e k =
      let m = merge_block_streams_lem ss h some_item in
      let same : m.0 ≡ bsm = cc (m.1, e) in
      let shape = subst (λ b. All IsWritten b.written) same m.4.1 in
      let sorted = subst (λ b. is_sorted (items_of b.written) ≡ true) same m.3 in
      written-ReadsBack bsm.written shape (is_sorted-Ascending (items_of bsm.written) sorted) k
