-- ===== src/Storage/Metaindex.antt =====
-- lib/storage/metaindex_row.go: a row of the metaindex, which sums up the headers of an index block.
-- An io.Reader and zstd are not modelled: the rows are read from bytes that are decompressed already.
pub mod RoundTrip
pub mod Summary
use victoria_metrics.Base.{
  ℕ, zero, suc, ◌+◌, ◌-◌, ◌*◌, ◌%◌, ◌^◌, Bool, true, false, List, [], ◌∷◌, length,
}
use victoria_metrics.Base.{◌==◌, ltb, if◌then◌else◌, not}
use victoria_metrics.Base.Words.{slt64}
use victoria_metrics.Base.Outcome.{Outcome, ok, err, panic, ◌>>=◌, ◌>>◌}
use victoria_metrics.Encoding.Fixed.{marshal_uint32, marshal_uint64, marshal_int64}
use victoria_metrics.Storage.Guarded.{guarded}
use victoria_metrics.Storage.Fields.{take_uint32, take_uint64, take_int64}
use victoria_metrics.Storage.Tsid.{Tsid, TsidError, zero_tsid, marshal_tsid, unmarshal_tsid, less}
use victoria_metrics.Storage.BlockHeader.{BlockHeader, max_block_size}

pub record MetaindexRow : Type 0 where
  pub tsid : Tsid
  pub block_headers_count : ℕ
  pub min_timestamp : ℕ
  pub max_timestamp : ℕ
  pub index_block_offset : ℕ
  pub index_block_size : ℕ

pub data RowError : Type 0 where
  no_count no_min no_max no_offset no_size zero_headers big_index : RowError
  bad_tsid : TsidError → RowError

-- `Reset`: the least and the greatest int64 stand where no header has been seen.
pub empty_row : MetaindexRow
empty_row = record {
  tsid = zero_tsid;
  block_headers_count = 0;
  min_timestamp = 2 ^ 63 - 1;
  max_timestamp = 2 ^ 63;
  index_block_offset = 0;
  index_block_size = 0;
}

unfoldable pub register_block_header : MetaindexRow → BlockHeader → MetaindexRow
register_block_header mr bh =
    let count = (mr.block_headers_count + 1) % 2 ^ 32 in
    if count == 1
    then record mr {
      block_headers_count = count;
      tsid = bh.tsid;
      min_timestamp = bh.min_timestamp;
      max_timestamp = bh.max_timestamp;
    }
    else record mr {
      block_headers_count = count;
      min_timestamp =
          if slt64 bh.min_timestamp mr.min_timestamp then bh.min_timestamp else mr.min_timestamp;
      max_timestamp =
          if slt64 mr.max_timestamp bh.max_timestamp then bh.max_timestamp else mr.max_timestamp;
    }

unfoldable pub marshal_row : List ℕ → MetaindexRow → List ℕ
marshal_row dst mr =
    let dst1 = marshal_tsid dst mr.tsid in
    let dst2 = marshal_uint32 dst1 mr.block_headers_count in
    let dst3 = marshal_int64 dst2 mr.min_timestamp in
    let dst4 = marshal_int64 dst3 mr.max_timestamp in
    let dst5 = marshal_uint64 dst4 mr.index_block_offset in marshal_uint32 dst5 mr.index_block_size

read_tsid_field : List ℕ → Outcome RowError (List ℕ × Tsid)
read_tsid_field src = elim (unmarshal_tsid src) [
  | ok r ↦ ok r
  | err e ↦ err (bad_tsid e)
  | panic ↦ panic
]

-- The tests on the fields, in their order.
unfoldable pub check_row : MetaindexRow → Outcome RowError (Unit {0})
check_row mr =
    if mr.block_headers_count == 0
    then err zero_headers
    else if ltb (2 * 8 * max_block_size) mr.index_block_size
    then err big_index
    else ok tt

-- The rest of `src` and the row.
unfoldable pub unmarshal_row : List ℕ → Outcome RowError (List ℕ × MetaindexRow)
unfolding guarded read_tsid_field
unmarshal_row src0 = do
  (src1, t) ← read_tsid_field src0
  (count, src2) ← guarded 4 no_count take_uint32 src1
  (min, src3) ← guarded 8 no_min take_int64 src2
  (max, src4) ← guarded 8 no_max take_int64 src3
  (offset, src5) ← guarded 8 no_offset take_uint64 src4
  (size, src6) ← guarded 4 no_size take_uint32 src5
  let mr : MetaindexRow = record {
    tsid = t;
    block_headers_count = count;
    min_timestamp = min;
    max_timestamp = max;
    index_block_offset = offset;
    index_block_size = size;
  }
  check_row mr >> ok (src6, mr)
