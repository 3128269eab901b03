-- ===== src/Mergeset/Examples.antt =====
-- Runs on small inputs, and the theorems at concrete inputs.
use mathlib.Core.List.{Perm}
use victoria_metrics.Base.{ℕ, ◌/◌, ◌≡◌, refl, arith, true, false, none, some, ltb}
use victoria_metrics.Base.{All, List, [], ◌∷◌, ◌++◌, length, replicate}
use victoria_metrics.Base.Outcome.{ok, ◌>>=◌, ◌>>◌}
use victoria_metrics.Encoding.Array.{Zstd}
use victoria_metrics.Encoding.Array.RoundTrip.{IsLossless}
use victoria_metrics.Mergeset.Bytes.{common_prefix_len, lex_less}
use victoria_metrics.Mergeset.Block.{
  InmemoryBlock, add, prefix_of, shrink, is_sorted, sorted_from, sort_items, insert,
}
use victoria_metrics.Mergeset.Codec.{marshal_unsorted_data, unmarshal_data}
use victoria_metrics.Mergeset.Codec.Shape.{block_of}
use victoria_metrics.Mergeset.Codec.RoundTrip.{unmarshal-marshal_unsorted_data}
use victoria_metrics.Mergeset.Merge.{
  Source, Merger, merge_block_streams, init, read_first, next, count_items, count_blocks, merge,
  pop_min, next_item, catch_first, feed, passes, take_item, put_back, flush_ib, last_of,
}
use victoria_metrics.Mergeset.Merge.Stored.{ReadsBack, merge_block_streams-ReadsBack}
use victoria_metrics.Mergeset.Merge.Feed.{items_of, IsMerger}
use victoria_metrics.Mergeset.Merge.Round.{never}
use victoria_metrics.Mergeset.Merge.Correct.{all_items, IsSource, merge_block_streams_lem}
use victoria_metrics.Mergeset.Header.{
  BlockHeader, unmarshal_block_headers, headers_sorted, sorted_after, check_header,
}
use victoria_metrics.Base.Words.{IsU64}
use victoria_metrics.Mergeset.Header.Index.{
  IsGood, written, Increasing, unmarshal_block_headers-marshal_header,
  unmarshal_block_headers-Increasing,
}
use victoria_metrics.Mergeset.Block.{empty_block, join}
use victoria_metrics.Mergeset.Codec.{valid_type}
use victoria_metrics.Mergeset.Metaindex
use victoria_metrics.Mergeset.Metaindex.RoundTrip
use victoria_metrics.Mergeset.Search.{binary_search_key, try_fast_seek, search_loop}
use victoria_metrics.Mergeset.Search.Place.{
  IsPlace, IsFound, binary_search_key-IsPlace, try_fast_seek-IsFound,
}
use victoria_metrics.Mergeset.Parts.{Ratios, PartWrapper}

-- A zstd that packs nothing.
abbrev stored : Zstd
stored = record { compress = λ b level. b; decompress = λ b. some b }

stored-IsLossless : IsLossless stored
stored-IsLossless = record { undo = λ b level. refl }

abbrev pair : InmemoryBlock
pair = record {
  common_prefix = [];
  bytes = 7 ∷ 9 ∷ 7 ∷ 8 ∷ [];
  items = (7 ∷ 9 ∷ []) ∷ (7 ∷ 8 ∷ []) ∷ [];
}

sorted_run : sort_items pair.items ≡ (7 ∷ 8 ∷ []) ∷ (7 ∷ 9 ∷ []) ∷ []
unfolding sort_items insert lex_less
sorted_run = refl

prefix_run : prefix_of pair.items ≡ 7 ∷ []
unfolding prefix_of shrink common_prefix_len
prefix_run = refl

full_run :
    add (record { common_prefix = []; bytes = replicate 65536 0; items = [] }) (1 ∷ []) ≡ none
unfolding add
full_run = refl

unmarshal-marshal_unsorted_data_example :
    (out : InmemoryBlock) × ((marshal_unsorted_data stored pair [] [] 1 >>= λ m.
    unmarshal_data stored m.sb m.first_item m.common_prefix m.items_count m.marshal_type)
      ≡ ok out)
    × Perm pair.items out.items
    × (is_sorted out.items ≡ true)
    × (out ≡ block_of out.items)
unmarshal-marshal_unsorted_data_example =
    unmarshal-marshal_unsorted_data stored stored-IsLossless pair 1 (omega arith) (omega arith)
      (omega arith, (omega arith, tt))

-- Two streams, the first of two blocks.
abbrev streams : List Source
streams =
    record { blocks = (1 ∷ [], (3 ∷ []) ∷ []) ∷ (5 ∷ [], []) ∷ []; broken = false }
    ∷ record { blocks = (2 ∷ [], (4 ∷ []) ∷ []) ∷ []; broken = false }
    ∷ []

sorted_here :
    (is_sorted ((1 ∷ []) ∷ (3 ∷ []) ∷ (5 ∷ []) ∷ []) ≡ true)
    × (is_sorted ((2 ∷ []) ∷ (4 ∷ []) ∷ []) ≡ true)
unfolding is_sorted sorted_from lex_less
sorted_here = (refl, refl)

streams-IsSource : All IsSource streams
streams-IsSource = (
  (refl, (omega arith, (omega arith, (omega arith, tt))), sorted_here.0),
  ((refl, (omega arith, (omega arith, tt)), sorted_here.1), tt),
)

merge_block_streams_lem_example :
    (bsm : Merger) × (merge_block_streams never streams ≡ ok bsm)
    × Perm (all_items streams) (items_of bsm.written)
    × (is_sorted (items_of bsm.written) ≡ true)
    × IsMerger bsm
    × (bsm.ib.items ≡ [])
merge_block_streams_lem_example = merge_block_streams_lem streams streams-IsSource (omega arith)

abbrev header_of : List ℕ → BlockHeader
header_of item = record {
  common_prefix = [];
  first_item = item;
  marshal_type = 0;
  items_count = 2;
  items_block_offset = 0;
  lens_block_offset = 0;
  items_block_size = 1;
  lens_block_size = 8;
}

passes_here : (item : List ℕ) → check_header (header_of item) ≡ ok tt
unfolding check_header
passes_here item = refl

type_here : valid_type 0 ≡ true
unfolding valid_type
type_here = refl

in_order : headers_sorted (header_of (1 ∷ []) ∷ header_of (2 ∷ []) ∷ []) ≡ true
unfolding headers_sorted sorted_after lex_less
in_order = refl

-- Headers with the same first item are refused.
twice_run : headers_sorted (header_of (1 ∷ []) ∷ header_of (1 ∷ []) ∷ []) ≡ false
unfolding headers_sorted sorted_after lex_less
twice_run = refl

abbrev two_headers : List BlockHeader
two_headers = header_of (1 ∷ []) ∷ header_of (2 ∷ []) ∷ []

header_of-IsGood : (item : List ℕ) → IsU64 (length item) → IsGood (header_of item)
header_of-IsGood item h = (
  (omega arith, h, type_here, omega arith, omega arith, omega arith, omega arith, omega arith),
  passes_here item,
)

two_headers-IsGood : All IsGood two_headers
two_headers-IsGood =
    (header_of-IsGood (1 ∷ []) (omega arith), (header_of-IsGood (2 ∷ []) (omega arith), tt))

two_read : unmarshal_block_headers [] (written [] two_headers) 2 ≡ ok two_headers
two_read =
    unmarshal_block_headers-marshal_header [] (header_of (1 ∷ [])) (header_of (2 ∷ []) ∷ [])
      two_headers-IsGood in_order

unmarshal_block_headers-marshal_header_example :
    unmarshal_block_headers (header_of [] ∷ []) (written [] two_headers) 2
    ≡ ok (header_of [] ∷ two_headers)
unmarshal_block_headers-marshal_header_example =
    unmarshal_block_headers-marshal_header (header_of [] ∷ []) (header_of (1 ∷ []))
      (header_of (2 ∷ []) ∷ []) two_headers-IsGood in_order

unmarshal_block_headers-Increasing_example :
    (bhs : List BlockHeader) × (two_headers ≡ [] ++ bhs) × (length bhs ≡ 2) × Increasing bhs
unmarshal_block_headers-Increasing_example =
    unmarshal_block_headers-Increasing [] (written [] two_headers) 2 two_headers two_read

abbrev row_of : List ℕ → Metaindex.MetaindexRow
row_of item = record {
  first_item = item;
  block_headers_count = 1;
  index_block_offset = 0;
  index_block_size = 40;
}

row_here : (item : List ℕ) → Metaindex.check_row (row_of item) ≡ ok tt
unfolding Metaindex.check_row
row_here item = refl

unmarshal_metaindex_rows-written_example :
    Metaindex.unmarshal_metaindex_rows stored []
      (some (RoundTrip.written [] (row_of (1 ∷ []) ∷ [])))
    ≡ (Metaindex.check_rows (row_of (1 ∷ []) ∷ []) >> ok (row_of (1 ∷ []) ∷ []))
unmarshal_metaindex_rows-written_example =
    RoundTrip.unmarshal_metaindex_rows-written stored 1 [] (row_of (1 ∷ []) ∷ []) stored-IsLossless
      (((omega arith, omega arith, omega arith, omega arith), row_here (1 ∷ [])), tt)

-- Floats as whole numbers.
abbrev whole : Ratios
whole = record { Float = ℕ; quotient = λ a b. a / b; of_int = λ n. n; less = ltb }

abbrev part : ℕ → PartWrapper
part n = record { id = n; items_count = 10; is_in_merge = false }

abbrev parts : List PartWrapper
parts = part 1 ∷ part 2 ∷ part 3 ∷ []

abbrev sorted_items : List (List ℕ)
sorted_items = (1 ∷ []) ∷ (3 ∷ []) ∷ (3 ∷ []) ∷ (5 ∷ []) ∷ []

sorted_items-is_sorted : is_sorted sorted_items ≡ true
unfolding is_sorted sorted_from lex_less
sorted_items-is_sorted = refl

search_run : binary_search_key sorted_items (4 ∷ []) ≡ 3
unfolding binary_search_key search_loop lex_less
search_run = refl

-- A seek from the second of two equal items does not go back to the first.
fast_run : try_fast_seek sorted_items 3 (3 ∷ []) ≡ some 2
unfolding try_fast_seek binary_search_key search_loop lex_less
fast_run = refl

binary_search_key-IsPlace_example :
    IsPlace (4 ∷ []) sorted_items (binary_search_key sorted_items (4 ∷ []))
binary_search_key-IsPlace_example =
    binary_search_key-IsPlace sorted_items (4 ∷ []) sorted_items-is_sorted

try_fast_seek-IsFound_example : IsFound (3 ∷ []) sorted_items 2
try_fast_seek-IsFound_example =
    try_fast_seek-IsFound sorted_items 3 (3 ∷ []) 2 sorted_items-is_sorted fast_run

-- What the merge of the two streams comes to.
abbrev five : List (List ℕ)
five = (1 ∷ []) ∷ (2 ∷ []) ∷ (3 ∷ []) ∷ (4 ∷ []) ∷ (5 ∷ []) ∷ []

abbrev merged : Merger
merged = record {
  ib = empty_block;
  written = record { common_prefix = []; bytes = join five; items = five } ∷ [];
  first_item = 1 ∷ [];
  first_item_caught = true;
  last_item = 5 ∷ [];
  items_count = 5;
  blocks_count = 1;
  items_merged = 5;
}

merge_run : merge_block_streams never streams ≡ ok merged
unfolding merge_block_streams init read_first next count_items count_blocks merge pop_min next_item
    catch_first feed passes take_item add put_back flush_ib last_of lex_less
merge_run = refl

merge_block_streams-ReadsBack_example : All (ReadsBack stored stored-IsLossless 1) merged.written
merge_block_streams-ReadsBack_example =
    merge_block_streams-ReadsBack stored stored-IsLossless 1 streams merged streams-IsSource
      (omega arith) merge_run (omega arith, tt)
