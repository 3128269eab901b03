-- ===== src/Storage/BlockHeader/RoundTrip.antt =====
-- Reading a header back.
use victoria_metrics.Base.{
  ℕ, ◌+◌, ◌≡◌, refl, arith, List, [], ◌∷◌, ◌++◌, length, ltb, le→ltb, false, ◌∙◌,
}
use mathlib.Core.List.{append_assoc}
use victoria_metrics.Base.Outcome.{ok, ◌>>◌}
use victoria_metrics.Base.Words.{IsU16, IsU32, IsU64}
use victoria_metrics.Encoding.Fixed.{marshal_uint32, marshal_uint64, marshal_int16, marshal_int64}
use victoria_metrics.Storage.Fields.{
  take-uint32, take-uint64, take-int64, take-int16, take-byte, then_ok,
}
use victoria_metrics.Storage.Fields.{push_uint32, push_uint64, push_int16, push_int64}
use victoria_metrics.Storage.Fields.{length-uint32, length-uint64, length-int64, length-int16}
use victoria_metrics.Storage.Tsid.{Tsid, marshal_tsid}
use victoria_metrics.Storage.Tsid.RoundTrip.{
  IsTsid, tsid_bytes, push_tsid, length-tsid, unmarshal-tsid_bytes,
}
use victoria_metrics.Storage.BlockHeader.{
  BlockHeader, marshal_header, unmarshal_header, read_header,
}
use victoria_metrics.Storage.BlockHeader.{
  check_header, marshaled_block_header_size, read_tsid_field,
}

-- Fields of their widths.
abbrev pub IsHeader : BlockHeader → Type 0
IsHeader bh =
    IsTsid bh.tsid
    × IsU64 bh.min_timestamp
    × IsU64 bh.max_timestamp
    × IsU64 bh.first_value
    × IsU64 bh.timestamps_block_offset
    × IsU64 bh.values_block_offset
    × IsU32 bh.timestamps_block_size
    × IsU32 bh.values_block_size
    × IsU32 bh.rows_count
    × IsU16 bh.scale

-- The header's bytes with `rest` behind them, from a field on.
abbrev types_bytes : BlockHeader → List ℕ → List ℕ
types_bytes bh rest = bh.timestamps_marshal_type ∷ bh.values_marshal_type ∷ bh.precision_bits ∷ rest

abbrev sizes_bytes : BlockHeader → List ℕ → List ℕ
sizes_bytes bh rest =
    marshal_uint32 [] bh.timestamps_block_size
    ++ (marshal_uint32 [] bh.values_block_size
        ++ (marshal_uint32 [] bh.rows_count ++ (marshal_int16 [] bh.scale ++ types_bytes bh rest)))

abbrev offsets_bytes : BlockHeader → List ℕ → List ℕ
offsets_bytes bh rest =
    marshal_uint64 [] bh.timestamps_block_offset
    ++ (marshal_uint64 [] bh.values_block_offset ++ sizes_bytes bh rest)

abbrev times_bytes : BlockHeader → List ℕ → List ℕ
times_bytes bh rest =
    marshal_int64 [] bh.min_timestamp
    ++ (marshal_int64 [] bh.max_timestamp
        ++ (marshal_int64 [] bh.first_value ++ offsets_bytes bh rest))

abbrev pub header_bytes : BlockHeader → List ℕ → List ℕ
header_bytes bh rest = tsid_bytes bh.tsid (times_bytes bh rest)

pub push_header :
    (dst : List ℕ) (bh : BlockHeader) (rest : List ℕ)
    → marshal_header dst bh ++ rest ≡ dst ++ header_bytes bh rest
unfolding marshal_header
push_header dst bh rest =
    append_assoc _ (bh.timestamps_marshal_type ∷ bh.values_marshal_type ∷ bh.precision_bits ∷ [])
      rest
    ∙ simp (push_int16, push_uint32, push_uint64, push_int64, push_tsid)

length-sizes : (bh : BlockHeader) (rest : List ℕ) → length (sizes_bytes bh rest) ≡ 17 + length rest
length-sizes bh rest = omega (
  arith,
  length-uint32 bh.timestamps_block_size (
      marshal_uint32 [] bh.values_block_size
      ++ (marshal_uint32 [] bh.rows_count ++ (marshal_int16 [] bh.scale ++ types_bytes bh rest))),
  length-uint32 bh.values_block_size
      (marshal_uint32 [] bh.rows_count ++ (marshal_int16 [] bh.scale ++ types_bytes bh rest)),
  length-uint32 bh.rows_count (marshal_int16 [] bh.scale ++ types_bytes bh rest),
  length-int16 bh.scale (types_bytes bh rest),
)

length-offsets :
    (bh : BlockHeader) (rest : List ℕ) → length (offsets_bytes bh rest) ≡ 33 + length rest
length-offsets bh rest = omega (
  arith,
  length-uint64 bh.timestamps_block_offset
      (marshal_uint64 [] bh.values_block_offset ++ sizes_bytes bh rest),
  length-uint64 bh.values_block_offset (sizes_bytes bh rest),
  length-sizes bh rest,
)

pub length-header :
    (bh : BlockHeader) (rest : List ℕ) → length (header_bytes bh rest) ≡ 81 + length rest
length-header bh rest = omega (
  arith,
  length-tsid bh.tsid (times_bytes bh rest),
  length-int64 bh.min_timestamp (
      marshal_int64 [] bh.max_timestamp
      ++ (marshal_int64 [] bh.first_value ++ offsets_bytes bh rest)),
  length-int64 bh.max_timestamp (marshal_int64 [] bh.first_value ++ offsets_bytes bh rest),
  length-int64 bh.first_value (offsets_bytes bh rest),
  length-offsets bh rest,
)

size_lem : marshaled_block_header_size ≡ 81
unfolding marshaled_block_header_size marshal_header marshal_tsid marshal_uint64 marshal_uint32
    marshal_int64 marshal_int16
size_lem = refl

read_tsid_field-bytes :
    (t : Tsid) (rest : List ℕ) → IsTsid t → read_tsid_field (tsid_bytes t rest) ≡ ok (rest, t)
unfolding read_tsid_field
read_tsid_field-bytes t rest h = rw (unmarshal-tsid_bytes t rest h, read_tsid_field) refl

read_header-bytes :
    (bh : BlockHeader) (rest : List ℕ)
    → IsHeader bh
    → read_header (header_bytes bh rest) ≡ ok (rest, bh)
unfolding read_header
read_header-bytes bh rest (ht, h1, h2, h3, h4, h5, h6, h7, h8, h9) =
    then_ok _ (read_tsid_field-bytes bh.tsid _ ht) (
      then_ok _ (take-int64 bh.min_timestamp _ h1) (
        then_ok _ (take-int64 bh.max_timestamp _ h2) (
          then_ok _ (take-int64 bh.first_value _ h3) (
            then_ok _ (take-uint64 bh.timestamps_block_offset _ h4) (
              then_ok _ (take-uint64 bh.values_block_offset _ h5) (
                then_ok _ (take-uint32 bh.timestamps_block_size _ h6) (
                  then_ok _ (take-uint32 bh.values_block_size _ h7) (
                    then_ok _ (take-uint32 bh.rows_count _ h8) (
                      then_ok _ (take-int16 bh.scale _ h9) (
                        then_ok _ (take-byte bh.timestamps_marshal_type _) (
                          then_ok _ (take-byte bh.values_marshal_type _)
                            (then_ok _ (take-byte bh.precision_bits rest) refl))))))))))))

long_enough :
    (bh : BlockHeader) (rest : List ℕ)
    → ltb (length (header_bytes bh rest)) marshaled_block_header_size ≡ false
long_enough bh rest = le→ltb _ _ (omega (arith, size_lem, length-header bh rest))

pub unmarshal-header_bytes :
    (bh : BlockHeader) (rest : List ℕ)
    → IsHeader bh
    → unmarshal_header (header_bytes bh rest) ≡ (check_header bh >> ok (rest, bh))
unfolding unmarshal_header
unmarshal-header_bytes bh rest h =
    rw (long_enough bh rest) (then_ok _ (read_header-bytes bh rest h) refl)

-- `Unmarshal` reads from the bytes of `Marshal` the header it wrote, whatever follows, when the
-- header passes the tests on its fields, and otherwise gives the error of the first test that fails.
pub unmarshal-marshal_header :
    (bh : BlockHeader) (rest : List ℕ)
    → IsHeader bh
    → unmarshal_header (marshal_header [] bh ++ rest) ≡ (check_header bh >> ok (rest, bh))
unmarshal-marshal_header bh rest h = rw (push_header [] bh rest) (unmarshal-header_bytes bh rest h)
