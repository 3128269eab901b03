-- ===== src/Mergeset/Metaindex.antt =====
-- lib/mergeset/metaindex_row.go: a row of the metaindex for each index block. `ioutil.ReadAll` that
-- fails gives no bytes.
pub mod RoundTrip
use victoria_metrics.Base.{ℕ, zero, suc, ◌*◌, Bool, true, false, not, ◌&&◌, Option, none, some}
use victoria_metrics.Base.{List, [], ◌∷◌, ◌++◌, length, ltb, ◌==◌, if◌then◌else◌}
use victoria_metrics.Base.Outcome.{Outcome, ok, err, panic, ◌>>=◌, ◌>>◌}
use victoria_metrics.Encoding.Array.{Zstd}
use victoria_metrics.Encoding.Fixed.{marshal_uint32, marshal_uint64}
use victoria_metrics.Encoding.Varint.{VarintError, marshal_bytes, unmarshal_bytes}
use victoria_metrics.Storage.Fields.{take_uint32, take_uint64}
use victoria_metrics.Storage.Guarded.{guarded}
use victoria_metrics.Mergeset.Bytes.{lex_less}

abbrev pub max_index_block_size : ℕ
max_index_block_size = 64 * 1024

pub record MetaindexRow : Type 0 where
  pub first_item : List ℕ
  pub block_headers_count : ℕ
  pub index_block_offset : ℕ
  pub index_block_size : ℕ

pub data RowError : Type 0 where
  bad_first_item : VarintError → RowError
  no_count no_offset no_size zero_headers big_index bad_read bad_zstd no_rows unsorted : RowError

unfoldable pub marshal_row : List ℕ → MetaindexRow → List ℕ
marshal_row dst mr =
    let dst1 = marshal_bytes dst mr.first_item in
    let dst2 = marshal_uint32 dst1 mr.block_headers_count in
    let dst3 = marshal_uint64 dst2 mr.index_block_offset in marshal_uint32 dst3 mr.index_block_size

unfoldable pub read_first_item : List ℕ → Outcome RowError (List ℕ × List ℕ)
read_first_item src = elim (unmarshal_bytes src) [
  | ok r ↦ ok r
  | err x ↦ err (bad_first_item x)
  | panic ↦ panic
]

-- The tests on the fields, in their order.
unfoldable pub check_row : MetaindexRow → Outcome RowError (Unit {0})
check_row mr =
    if mr.block_headers_count == 0
    then err zero_headers
    else if ltb (2 * max_index_block_size) mr.index_block_size
    then err big_index
    else ok tt

unfoldable pub unmarshal_row : List ℕ → Outcome RowError (List ℕ × MetaindexRow)
unfolding guarded read_first_item check_row
unmarshal_row src0 = do
  (src1, first) ← read_first_item src0
  (count, src2) ← guarded 4 no_count take_uint32 src1
  (offset, src3) ← guarded 8 no_offset take_uint64 src2
  (size, src4) ← guarded 4 no_size take_uint32 src3
  let mr : MetaindexRow = record {
    first_item = first;
    block_headers_count = count;
    index_block_offset = offset;
    index_block_size = size;
  }
  check_row mr >> ok (src4, mr)

-- The loop `for len(data) > 0`, each round of which takes a byte at least.
unfoldable pub read_rows : ℕ → List ℕ → Outcome RowError (List MetaindexRow)
unfolding unmarshal_row
read_rows fuel [] = ok []
read_rows zero (_ ∷ _) = panic
read_rows (suc fuel) (x ∷ src) =
    unmarshal_row (x ∷ src) >>= λ r. read_rows fuel r.0 >>= λ rows. ok (r.1 ∷ rows)

-- `sort.SliceIsSorted` by `firstItem < firstItem`.
unfoldable pub sorted_after : List ℕ → List MetaindexRow → Bool
sorted_after prev [] = true
sorted_after prev (mr ∷ rows) = not (lex_less mr.first_item prev) && sorted_after mr.first_item rows

unfoldable pub check_rows : List MetaindexRow → Outcome RowError (Unit {0})
unfolding sorted_after
check_rows [] = err no_rows
check_rows (mr ∷ rows) = if sorted_after mr.first_item rows then ok tt else err unsorted

unfoldable pub unmarshal_metaindex_rows :
    Zstd → List MetaindexRow → Option (List ℕ) → Outcome RowError (List MetaindexRow)
unfolding read_rows check_rows
unmarshal_metaindex_rows z dst none = err bad_read
unmarshal_metaindex_rows z dst (some compressed) = elim (z.decompress compressed) [
  | none ↦ err bad_zstd
  | some bytes ↦ read_rows (length bytes) bytes >>= λ rows. check_rows rows >> ok (dst ++ rows)
]
