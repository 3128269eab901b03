-- ===== src/Mergeset/Header/RoundTrip.antt =====
-- A header of a block of items read back.
use mathlib.Core.List.{append_assoc}
use victoria_metrics.Base.{ℕ, ◌≡◌, refl, ◌∙◌, arith, true, List, [], ◌∷◌, ◌++◌, length}
use victoria_metrics.Base.Outcome.{ok, ◌>>◌}
use victoria_metrics.Base.Words.{IsU32, IsU64}
use victoria_metrics.Encoding.Fixed.{marshal_uint32, marshal_uint64}
use victoria_metrics.Encoding.Varint.{VarintError, marshal_bytes, marshal_var_uint64}
use victoria_metrics.Encoding.Varint.Unsigned.{marshal_var_uint64s_lem, unmarshal-marshal_bytes}
use victoria_metrics.Storage.Fields.{then_ok, take_byte, take-byte, push_uint32, push_uint64}
use victoria_metrics.Storage.Guarded.{guarded_lem, guarded-uint32, guarded-uint64}
use victoria_metrics.Mergeset.Codec.{valid_type}
use victoria_metrics.Mergeset.Header.{
  BlockHeader, HeaderError, marshal_header, read_bytes, check_type, check_header, unmarshal_header,
}
use victoria_metrics.Mergeset.Header.{
  bad_prefix, bad_first_item, no_type, no_count, no_items_offset, no_lens_offset, no_items_size,
  no_lens_size,
}

-- Fields of their widths, and a known encoding.
abbrev pub IsHeader : BlockHeader → Type 0
IsHeader bh =
    IsU64 (length bh.common_prefix)
    × IsU64 (length bh.first_item)
    × (valid_type bh.marshal_type ≡ true)
    × IsU32 bh.items_count
    × IsU64 bh.items_block_offset
    × IsU64 bh.lens_block_offset
    × IsU32 bh.items_block_size
    × IsU32 bh.lens_block_size

abbrev pub header_bytes : BlockHeader → List ℕ → List ℕ
header_bytes bh rest =
    marshal_bytes [] bh.common_prefix
    ++ (marshal_bytes [] bh.first_item
        ++ (bh.marshal_type
            ∷ (marshal_uint32 [] bh.items_count
                ++ (marshal_uint64 [] bh.items_block_offset
                    ++ (marshal_uint64 [] bh.lens_block_offset
                        ++ (marshal_uint32 [] bh.items_block_size
                            ++ (marshal_uint32 [] bh.lens_block_size ++ rest)))))))

pub push_bytes :
    (dst b rest : List ℕ)
    → IsU64 (length b)
    → marshal_bytes dst b ++ rest ≡ dst ++ (marshal_bytes [] b ++ rest)
unfolding marshal_bytes marshal_var_uint64
push_bytes dst b rest h =
    rw
      (
        marshal_var_uint64s_lem dst (length b ∷ []) (h, tt),
        marshal_var_uint64s_lem [] (length b ∷ []) (h, tt),
      )
      (simp append_assoc)

push_byte : (dst : List ℕ) (v : ℕ) (rest : List ℕ) → (dst ++ v ∷ []) ++ rest ≡ dst ++ v ∷ rest
push_byte dst v rest = append_assoc dst (v ∷ []) rest

pub push_header :
    (dst : List ℕ) (bh : BlockHeader) (rest : List ℕ)
    → IsHeader bh
    → marshal_header dst bh ++ rest ≡ dst ++ header_bytes bh rest
unfolding marshal_header
push_header dst bh rest h =
    simp (push_uint32, push_uint64, push_byte)
      (push_bytes (marshal_bytes dst bh.common_prefix) bh.first_item _ h.1
        ∙ push_bytes dst bh.common_prefix _ h.0)

read_bytes_lem :
    (e : VarintError → HeaderError) (b rest : List ℕ)
    → IsU64 (length b)
    → read_bytes e (marshal_bytes [] b ++ rest) ≡ ok (rest, b)
unfolding read_bytes
read_bytes_lem e b rest h = rw (read_bytes, unmarshal-marshal_bytes b rest h) refl

type_lem : (mt : ℕ) → valid_type mt ≡ true → check_type mt ≡ ok tt
unfolding check_type
type_lem mt h = rw (check_type, h) refl

pub unmarshal-header_bytes :
    (bh : BlockHeader) (rest : List ℕ)
    → IsHeader bh
    → unmarshal_header (header_bytes bh rest) ≡ (check_header bh >> ok (rest, bh))
unfolding unmarshal_header
unmarshal-header_bytes bh rest (h0, h1, h2, h3, h4, h5, h6, h7) =
    then_ok _ (read_bytes_lem bad_prefix bh.common_prefix _ h0) (
      then_ok _ (read_bytes_lem bad_first_item bh.first_item _ h1) (
        then_ok _ (guarded_lem 1 no_type take_byte _ _ (omega arith) (take-byte bh.marshal_type _))
          (then_ok _ (type_lem bh.marshal_type h2) (
            then_ok _ (guarded-uint32 no_count bh.items_count _ h3) (
              then_ok _ (guarded-uint64 no_items_offset bh.items_block_offset _ h4) (
                then_ok _ (guarded-uint64 no_lens_offset bh.lens_block_offset _ h5) (
                  then_ok _ (guarded-uint32 no_items_size bh.items_block_size _ h6)
                    (then_ok _ (guarded-uint32 no_lens_size bh.lens_block_size rest h7) refl))))))))

-- The header of a block of items: `Unmarshal` reads from the bytes of `Marshal` the header it wrote,
-- whatever follows, when the header has an item at least and its blocks are no larger than the
-- limits, and the error otherwise. Its fields are within their widths and its encoding is known.
pub unmarshal-marshal_header :
    (bh : BlockHeader) (rest : List ℕ)
    → IsHeader bh
    → unmarshal_header (marshal_header [] bh ++ rest) ≡ (check_header bh >> ok (rest, bh))
unmarshal-marshal_header bh rest h =
    rw (push_header [] bh rest h) (unmarshal-header_bytes bh rest h)
