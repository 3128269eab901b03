-- ===== src/Storage/HeaderExamples.antt =====
-- The theorems on ids, headers and rows of the metaindex at concrete inputs.
use victoria_metrics.Base.{ℕ, ◌-◌, ◌^◌, ◌≡◌, refl, arith, true, false, List, [], ◌∷◌, ◌++◌, All}
use victoria_metrics.Base.Outcome.{ok, ◌>>◌}
use victoria_metrics.Encoding.Array.{valid_kind}
use victoria_metrics.Encoding.Delta.{valid_precision}
use victoria_metrics.Storage.Tsid.{Tsid, less}
use victoria_metrics.Storage.BlockHeader.{
  BlockHeader, marshal_header, unmarshal_header, check_header,
}
use victoria_metrics.Storage.BlockHeader.{headers_sorted, unmarshal_block_headers, sorted_after}
use victoria_metrics.Storage.BlockHeader.RoundTrip.{unmarshal-marshal_header}
use victoria_metrics.Storage.BlockHeader.Index.{written, unmarshal_block_headers-written}
use victoria_metrics.Storage.Metaindex.{
  MetaindexRow, marshal_row, unmarshal_row, check_row, empty_row,
}
use victoria_metrics.Storage.Metaindex.RoundTrip.{unmarshal-marshal_row}
use victoria_metrics.Storage.Metaindex.Summary.{registered, Covers, Attains, registered_sums_up}

abbrev id_at : ℕ → Tsid
id_at n = record { metric_group_id = 7; job_id = 1; instance_id = n; metric_id = n }

less12 : less (id_at 1) (id_at 2) ≡ true
unfolding less
less12 = refl

less23 : less (id_at 2) (id_at 3) ≡ true
unfolding less
less23 = refl

less55 : less (id_at 5) (id_at 5) ≡ false
unfolding less
less55 = refl

-- Ten rows from -5 to `t`.
abbrev header_at : ℕ → ℕ → BlockHeader
header_at n t = record {
  tsid = id_at n;
  min_timestamp = 2 ^ 64 - 5;
  max_timestamp = t;
  first_value = 1;
  timestamps_block_offset = 0;
  values_block_offset = 0;
  timestamps_block_size = 20;
  values_block_size = 30;
  rows_count = 10;
  scale = 2 ^ 16 - 3;
  timestamps_marshal_type = 2;
  values_marshal_type = 5;
  precision_bits = 64;
}

unmarshal-marshal_header_example :
    unmarshal_header (marshal_header [] (header_at 9 8) ++ 4 ∷ [])
    ≡ (check_header (header_at 9 8) >> ok (4 ∷ [], header_at 9 8))
unmarshal-marshal_header_example = unmarshal-marshal_header (header_at 9 8) (4 ∷ []) (omega arith)

passes : (n : ℕ) → check_header (header_at n 8) ≡ ok tt
unfolding check_header valid_kind valid_precision
passes n = refl

in_order : headers_sorted (header_at 1 8 ∷ header_at 2 8 ∷ []) ≡ true
unfolding headers_sorted sorted_after less
in_order = refl

unmarshal_block_headers-written_example :
    unmarshal_block_headers [] (written [] (header_at 1 8 ∷ header_at 2 8 ∷ [])) 2
    ≡ ok (header_at 1 8 ∷ header_at 2 8 ∷ [])
unmarshal_block_headers-written_example =
    unmarshal_block_headers-written [] (header_at 1 8) (header_at 2 8 ∷ [])
      ((omega arith, passes 1), ((omega arith, passes 2), tt)) in_order

abbrev a_row : MetaindexRow
a_row = record {
  tsid = id_at 3;
  block_headers_count = 2;
  min_timestamp = 2 ^ 64 - 5;
  max_timestamp = 8;
  index_block_offset = 100;
  index_block_size = 162;
}

unmarshal-marshal_row_example :
    unmarshal_row (marshal_row [] a_row ++ 4 ∷ []) ≡ (check_row a_row >> ok (4 ∷ [], a_row))
unmarshal-marshal_row_example = unmarshal-marshal_row a_row (4 ∷ []) (omega arith)

abbrev two_headers : List BlockHeader
two_headers = header_at 1 8 ∷ header_at 2 6 ∷ []

registered_sums_up_example :
    let mr = registered empty_row two_headers in
    (mr.block_headers_count ≡ 2)
    × (mr.tsid ≡ id_at 1)
    × All (Covers mr) two_headers
    × Attains mr.min_timestamp BlockHeader.min_timestamp two_headers
    × Attains mr.max_timestamp BlockHeader.max_timestamp two_headers
registered_sums_up_example = registered_sums_up (header_at 1 8) (header_at 2 6 ∷ []) (omega arith)
