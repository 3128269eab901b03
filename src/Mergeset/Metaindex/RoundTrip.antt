-- ===== src/Mergeset/Metaindex/RoundTrip.antt =====
-- A metaindex written and read back.
use mathlib.Core.List.{append-nil}
use victoria_metrics.Base.{ℕ, zero, suc, ◌≤◌, ◌<◌, ◌≡◌, refl, sym, ◌∙◌, arith, some, All}
use victoria_metrics.Base.{List, [], ◌∷◌, ◌++◌, length, length-append}
use victoria_metrics.Base.Outcome.{ok, ◌>>=◌, ◌>>◌}
use victoria_metrics.Base.Words.{IsU32, IsU64}
use victoria_metrics.Encoding.Array.{Zstd}
use victoria_metrics.Encoding.Array.RoundTrip.{IsLossless}
use victoria_metrics.Encoding.Fixed.{marshal_uint32, marshal_uint64}
use victoria_metrics.Encoding.Varint.{marshal_bytes}
use victoria_metrics.Encoding.Varint.Unsigned.{unmarshal-marshal_bytes}
use victoria_metrics.Storage.Fields.{then_ok, push_uint32, push_uint64, length-uint32}
use victoria_metrics.Storage.Guarded.{guarded-uint32, guarded-uint64}
use victoria_metrics.Mergeset.Header.RoundTrip.{push_bytes}
use victoria_metrics.Mergeset.Metaindex.{
  MetaindexRow, marshal_row, read_first_item, check_row, unmarshal_row, read_rows, check_rows,
  unmarshal_metaindex_rows, no_count, no_offset, no_size,
}

-- Fields of their widths.
abbrev pub IsRow : MetaindexRow → Type 0
IsRow mr =
    IsU64 (length mr.first_item)
    × IsU32 mr.block_headers_count
    × IsU64 mr.index_block_offset
    × IsU32 mr.index_block_size

abbrev row_bytes : MetaindexRow → List ℕ → List ℕ
row_bytes mr rest =
    marshal_bytes [] mr.first_item
    ++ (marshal_uint32 [] mr.block_headers_count
        ++ (marshal_uint64 [] mr.index_block_offset
            ++ (marshal_uint32 [] mr.index_block_size ++ rest)))

push_row :
    (dst : List ℕ) (mr : MetaindexRow) (rest : List ℕ)
    → IsRow mr
    → marshal_row dst mr ++ rest ≡ dst ++ row_bytes mr rest
unfolding marshal_row
push_row dst mr rest h = simp (push_uint32, push_uint64) (push_bytes dst mr.first_item _ h.0)

unmarshal-row_bytes :
    (mr : MetaindexRow) (rest : List ℕ)
    → IsRow mr
    → unmarshal_row (row_bytes mr rest) ≡ (check_row mr >> ok (rest, mr))
unfolding unmarshal_row
unmarshal-row_bytes mr rest (h0, h1, h2, h3) = then_ok _ (first_item_lem mr.first_item _ h0) (
    then_ok _ (guarded-uint32 no_count mr.block_headers_count _ h1) (
      then_ok _ (guarded-uint64 no_offset mr.index_block_offset _ h2)
        (then_ok _ (guarded-uint32 no_size mr.index_block_size rest h3) refl)))
  where
    first_item_lem :
        (b l : List ℕ) → IsU64 (length b) → read_first_item (marshal_bytes [] b ++ l) ≡ ok (l, b)
    first_item_lem b l h = rw (read_first_item, unmarshal-marshal_bytes b l h) refl

-- A row of its widths that passes the tests.
abbrev pub IsGood : MetaindexRow → Type 0
IsGood mr = IsRow mr × (check_row mr ≡ ok tt)

-- The rows written one behind another.
abbrev pub written : List ℕ → List MetaindexRow → List ℕ
written dst [] = dst
written dst (mr ∷ rows) = written (marshal_row dst mr) rows

abbrev all_bytes : List MetaindexRow → List ℕ
all_bytes [] = []
all_bytes (mr ∷ rows) = row_bytes mr (all_bytes rows)

written_lem :
    (dst : List ℕ) (rows : List MetaindexRow)
    → All IsGood rows
    → written dst rows ≡ dst ++ all_bytes rows
written_lem dst [] h = sym (append-nil dst)
written_lem dst (mr ∷ rows) h =
    written_lem (marshal_row dst mr) rows h.1 ∙ push_row dst mr (all_bytes rows) h.0.0

length-row_bytes : (mr : MetaindexRow) (rest : List ℕ) → length rest < length (row_bytes mr rest)
length-row_bytes mr rest =
    let tail = marshal_uint32 [] mr.index_block_size ++ rest in
    let middle = marshal_uint64 [] mr.index_block_offset ++ tail in
    omega (
      arith,
      length-append (marshal_bytes [] mr.first_item)
          (marshal_uint32 [] mr.block_headers_count ++ middle),
      length-append (marshal_uint32 [] mr.block_headers_count) middle,
      length-append (marshal_uint64 [] mr.index_block_offset) tail,
      length-uint32 mr.index_block_size rest,
    )

read_rows_step :
    (fuel : ℕ) (src : List ℕ)
    → 0 < length src
    → read_rows (suc fuel) src
      ≡ (unmarshal_row src >>= λ r. read_rows fuel r.0 >>= λ rows. ok (r.1 ∷ rows))
unfolding read_rows
read_rows_step fuel [] h = absurd (omega arith)
read_rows_step fuel (x ∷ src) h = refl

read_rows-All :
    (fuel : ℕ) (rows : List MetaindexRow)
    → All IsGood rows
    → length (all_bytes rows) ≤ fuel
    → read_rows fuel (all_bytes rows) ≡ ok rows
unfolding read_rows
read_rows-All zero [] good h = refl
read_rows-All (suc fuel) [] good h = refl
read_rows-All zero (mr ∷ rows) good h = absurd (omega (arith, length-row_bytes mr (all_bytes rows)))
read_rows-All (suc fuel) (mr ∷ rows) good h =
    let size = length-row_bytes mr (all_bytes rows) in
    let read : unmarshal_row (row_bytes mr (all_bytes rows)) ≡ ok (all_bytes rows, mr) =
      unmarshal-row_bytes mr (all_bytes rows) good.0.0 ∙ then_ok _ good.0.1 refl in
    read_rows_step fuel _ (omega (arith, size))
    ∙ then_ok _ read (then_ok _ (read_rows-All fuel rows good.1 (omega (arith, size))) refl)

-- `unmarshalMetaindexRows` appends to `dst` the rows that `Marshal` wrote one behind another, packed by
-- a lossless zstd on any level, when each row has its fields within their widths, a header at least
-- and an index block of at most 128 KB, there is a row, and no first item is less than the one before
-- it; where one of the last two fails, it gives the error that says so.
pub unmarshal_metaindex_rows-written :
    (z : Zstd) (level : ℕ) (dst rows : List MetaindexRow)
    → IsLossless z
    → All IsGood rows
    → unmarshal_metaindex_rows z dst (some (z.compress (written [] rows) level))
      ≡ (check_rows rows >> ok (dst ++ rows))
unfolding unmarshal_metaindex_rows
unmarshal_metaindex_rows-written z level dst rows lossless good =
    rw (unmarshal_metaindex_rows, lossless.undo (written [] rows) level, written_lem [] rows good)
      (then_ok _ (read_rows-All (length (all_bytes rows)) rows good (omega arith)) refl)
