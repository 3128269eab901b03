-- ===== src/Storage/Metaindex/RoundTrip.antt =====
-- Reading a row of the metaindex back.
use victoria_metrics.Base.{ℕ, ◌≡◌, refl, List, [], ◌++◌}
use victoria_metrics.Base.Outcome.{ok, ◌>>◌}
use victoria_metrics.Base.Words.{IsU32, IsU64}
use victoria_metrics.Encoding.Fixed.{marshal_uint32, marshal_uint64, marshal_int64}
use victoria_metrics.Storage.Fields.{then_ok}
use victoria_metrics.Storage.Fields.{push_uint32, push_uint64, push_int64}
use victoria_metrics.Storage.Tsid.{Tsid}
use victoria_metrics.Storage.Tsid.RoundTrip.{IsTsid, tsid_bytes, push_tsid, unmarshal-tsid_bytes}
use victoria_metrics.Storage.Metaindex.{MetaindexRow, marshal_row, unmarshal_row, check_row}
use victoria_metrics.Storage.Metaindex.{read_tsid_field}
use victoria_metrics.Storage.Guarded.{guarded-uint32, guarded-uint64, guarded-int64}
use victoria_metrics.Storage.Metaindex.{no_count, no_min, no_max, no_offset, no_size}

-- Fields of their widths.
abbrev pub IsRow : MetaindexRow → Type 0
IsRow mr =
    IsTsid mr.tsid
    × IsU32 mr.block_headers_count
    × IsU64 mr.min_timestamp
    × IsU64 mr.max_timestamp
    × IsU64 mr.index_block_offset
    × IsU32 mr.index_block_size

abbrev row_bytes : MetaindexRow → List ℕ → List ℕ
row_bytes mr rest = tsid_bytes mr.tsid (
    marshal_uint32 [] mr.block_headers_count
    ++ (marshal_int64 [] mr.min_timestamp
        ++ (marshal_int64 [] mr.max_timestamp
            ++ (marshal_uint64 [] mr.index_block_offset
                ++ (marshal_uint32 [] mr.index_block_size ++ rest)))))

push_row : (mr : MetaindexRow) (rest : List ℕ) → marshal_row [] mr ++ rest ≡ row_bytes mr rest
unfolding marshal_row
push_row mr rest = simp (push_uint32, push_uint64, push_int64, push_tsid)

read_tsid_field-bytes :
    (t : Tsid) (rest : List ℕ) → IsTsid t → read_tsid_field (tsid_bytes t rest) ≡ ok (rest, t)
unfolding read_tsid_field
read_tsid_field-bytes t rest h = rw (unmarshal-tsid_bytes t rest h, read_tsid_field) refl

-- A row's `Unmarshal` reads from the bytes of `Marshal` the row it wrote, whatever follows, when the
-- row has a header at least and its index block is no larger than 1 MB, and the error otherwise.
pub unmarshal-marshal_row :
    (mr : MetaindexRow) (rest : List ℕ)
    → IsRow mr
    → unmarshal_row (marshal_row [] mr ++ rest) ≡ (check_row mr >> ok (rest, mr))
unfolding unmarshal_row
unmarshal-marshal_row mr rest (ht, h1, h2, h3, h4, h5) = rw (push_row mr rest) (
    then_ok _ (read_tsid_field-bytes mr.tsid _ ht) (
      then_ok _ (guarded-uint32 no_count mr.block_headers_count _ h1) (
        then_ok _ (guarded-int64 no_min mr.min_timestamp _ h2) (
          then_ok _ (guarded-int64 no_max mr.max_timestamp _ h3) (
            then_ok _ (guarded-uint64 no_offset mr.index_block_offset _ h4)
              (then_ok _ (guarded-uint32 no_size mr.index_block_size rest h5) refl))))))
