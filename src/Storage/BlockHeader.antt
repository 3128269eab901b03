-- ===== src/Storage/BlockHeader.antt =====
-- lib/storage/block_header.go: the header of a block of rows of one time series. The timestamps, the
-- first value and the scale are signed, so they are bit patterns.
pub mod RoundTrip
pub mod Index
use victoria_metrics.Base.{ℕ, zero, suc, ◌+◌, ◌*◌, Bool, true, false, List, [], ◌∷◌, ◌++◌, length}
use victoria_metrics.Base.{◌==◌, ltb, if◌then◌else◌, not}
use victoria_metrics.Base.Words.{slt64}
use victoria_metrics.Base.Outcome.{Outcome, ok, err, panic, ◌>>=◌, ◌>>◌}
use victoria_metrics.Encoding.Fixed.{marshal_uint32, marshal_uint64, marshal_int16, marshal_int64}
use victoria_metrics.Encoding.Array.{valid_kind}
use victoria_metrics.Encoding.Delta.{valid_precision}
use victoria_metrics.Storage.Fields.{take_uint32, take_uint64, take_int16, take_int64, take_byte}
use victoria_metrics.Storage.Tsid.{Tsid, TsidError, zero_tsid, marshal_tsid, unmarshal_tsid}
use victoria_metrics.Storage.Tsid.{less}

pub record BlockHeader : Type 0 where
  pub tsid : Tsid
  pub min_timestamp : ℕ
  pub max_timestamp : ℕ
  pub first_value : ℕ
  pub timestamps_block_offset : ℕ
  pub values_block_offset : ℕ
  pub timestamps_block_size : ℕ
  pub values_block_size : ℕ
  pub rows_count : ℕ
  pub scale : ℕ
  pub timestamps_marshal_type : ℕ
  pub values_marshal_type : ℕ
  pub precision_bits : ℕ

pub data HeaderError : Type 0 where
  short_header no_rows bad_timestamps_type bad_values_type bad_precision : HeaderError
  big_timestamps big_values wrong_count unsorted : HeaderError
  bad_tsid : TsidError → HeaderError

-- `maxBlockSize`
abbrev pub max_block_size : ℕ
max_block_size = 64 * 1024

-- `bh.Less(src)`
unfoldable pub header_less : BlockHeader → BlockHeader → Bool
header_less bh src =
    if bh.tsid.metric_id == src.tsid.metric_id
    then slt64 bh.min_timestamp src.min_timestamp
    else less bh.tsid src.tsid

unfoldable pub marshal_header : List ℕ → BlockHeader → List ℕ
marshal_header dst bh =
    let dst1 = marshal_tsid dst bh.tsid in
    let dst2 = marshal_int64 dst1 bh.min_timestamp in
    let dst3 = marshal_int64 dst2 bh.max_timestamp in
    let dst4 = marshal_int64 dst3 bh.first_value in
    let dst5 = marshal_uint64 dst4 bh.timestamps_block_offset in
    let dst6 = marshal_uint64 dst5 bh.values_block_offset in
    let dst7 = marshal_uint32 dst6 bh.timestamps_block_size in
    let dst8 = marshal_uint32 dst7 bh.values_block_size in
    let dst9 = marshal_uint32 dst8 bh.rows_count in
    let dst10 = marshal_int16 dst9 bh.scale in
    dst10 ++ bh.timestamps_marshal_type ∷ bh.values_marshal_type ∷ bh.precision_bits ∷ []

abbrev zero_header : BlockHeader
zero_header = record {
  tsid = zero_tsid;
  min_timestamp = 0;
  max_timestamp = 0;
  first_value = 0;
  timestamps_block_offset = 0;
  values_block_offset = 0;
  timestamps_block_size = 0;
  values_block_size = 0;
  rows_count = 0;
  scale = 0;
  timestamps_marshal_type = 0;
  values_marshal_type = 0;
  precision_bits = 0;
}

-- `marshaledBlockHeaderSize`
pub marshaled_block_header_size : ℕ
unfolding marshal_header
marshaled_block_header_size = length (marshal_header [] zero_header)

read_tsid_field : List ℕ → Outcome HeaderError (List ℕ × Tsid)
read_tsid_field src = elim (unmarshal_tsid src) [
  | ok r ↦ ok r
  | err e ↦ err (bad_tsid e)
  | panic ↦ panic
]

-- The fields, which are read once the source is known to be long enough.
pub read_header : List ℕ → Outcome HeaderError (List ℕ × BlockHeader)
unfolding read_tsid_field
read_header src0 = do
  (src1, t) ← read_tsid_field src0
  (min, src2) ← take_int64 src1
  (max, src3) ← take_int64 src2
  (first, src4) ← take_int64 src3
  (ts_offset, src5) ← take_uint64 src4
  (v_offset, src6) ← take_uint64 src5
  (ts_size, src7) ← take_uint32 src6
  (v_size, src8) ← take_uint32 src7
  (rows, src9) ← take_uint32 src8
  (sc, src10) ← take_int16 src9
  (ts_type, src11) ← take_byte src10
  (v_type, src12) ← take_byte src11
  (bits, src13) ← take_byte src12
  ok (
    src13,
    record {
      tsid = t;
      min_timestamp = min;
      max_timestamp = max;
      first_value = first;
      timestamps_block_offset = ts_offset;
      values_block_offset = v_offset;
      timestamps_block_size = ts_size;
      values_block_size = v_size;
      rows_count = rows;
      scale = sc;
      timestamps_marshal_type = ts_type;
      values_marshal_type = v_type;
      precision_bits = bits;
    },
  )

-- The tests on the fields, in their order.
unfoldable pub check_header : BlockHeader → Outcome HeaderError (Unit {0})
check_header bh =
    if bh.rows_count == 0
    then err no_rows
    else if not (valid_kind bh.timestamps_marshal_type)
    then err bad_timestamps_type
    else if not (valid_kind bh.values_marshal_type)
    then err bad_values_type
    else if not (valid_precision bh.precision_bits)
    then err bad_precision
    else if ltb (2 * 8 * max_block_size) bh.timestamps_block_size
    then err big_timestamps
    else if ltb (2 * 8 * max_block_size) bh.values_block_size
    then err big_values
    else ok tt

-- The rest of `src` and the header.
unfoldable pub unmarshal_header : List ℕ → Outcome HeaderError (List ℕ × BlockHeader)
unfolding marshaled_block_header_size read_header check_header
unmarshal_header src =
    if ltb (length src) marshaled_block_header_size
    then err short_header
    else (do (tail, bh) ← read_header src; check_header bh >> ok (tail, bh))

-- The loop `for len(src) > 0`. Every header takes a byte at least, so `len(src)` rounds are enough.
unfoldable pub read_headers : ℕ → List ℕ → Outcome HeaderError (List BlockHeader)
read_headers fuel [] = ok []
read_headers zero (_ ∷ _) = panic
read_headers (suc fuel) (x ∷ src) =
    unmarshal_header (x ∷ src) >>= λ r. read_headers fuel r.0 >>= λ bhs. ok (r.1 ∷ bhs)

-- `sort.SliceIsSorted` by `TSID.Less`: no item is less than the one before it.
unfoldable pub sorted_after : Tsid → List BlockHeader → Bool
sorted_after t [] = true
sorted_after t (bh ∷ bhs) =
    let rest = sorted_after bh.tsid bhs in if less bh.tsid t then false else rest

unfoldable pub headers_sorted : List BlockHeader → Bool
headers_sorted [] = true
headers_sorted (bh ∷ bhs) = sorted_after bh.tsid bhs

-- A count below 0 panics as 0 does, and is left out.
unfoldable pub unmarshal_block_headers :
    List BlockHeader → List ℕ → ℕ → Outcome HeaderError (List BlockHeader)
unmarshal_block_headers dst src count = if count == 0 then panic else (do
  bhs ← read_headers (length src) src
  (if not (length bhs == count)
      then err wrong_count
      else if not (headers_sorted bhs)
      then err unsorted
      else ok (dst ++ bhs)))
