-- ===== src/Mergeset/Header.antt =====
-- lib/mergeset/block_header.go: the header of a block of items, and those of an index block.
pub mod RoundTrip
pub mod Index
use victoria_metrics.Base.{ℕ, zero, suc, ◌*◌, Bool, true, false, not, ◌&&◌, List, [], ◌∷◌, ◌++◌}
use victoria_metrics.Base.{ltb, ◌==◌, if◌then◌else◌}
use victoria_metrics.Base.Outcome.{Outcome, ok, err, panic, ◌>>=◌, ◌>>◌}
use victoria_metrics.Encoding.Fixed.{marshal_uint32, marshal_uint64}
use victoria_metrics.Encoding.Varint.{VarintError, marshal_bytes, unmarshal_bytes}
use victoria_metrics.Storage.Fields.{take_uint32, take_uint64, take_byte}
use victoria_metrics.Storage.Guarded.{guarded}
use victoria_metrics.Mergeset.Bytes.{lex_less}
use victoria_metrics.Mergeset.Block.{max_inmemory_block_size}
use victoria_metrics.Mergeset.Codec.{valid_type}

pub record BlockHeader : Type 0 where
  pub common_prefix : List ℕ
  pub first_item : List ℕ
  pub marshal_type : ℕ
  pub items_count : ℕ
  pub items_block_offset : ℕ
  pub lens_block_offset : ℕ
  pub items_block_size : ℕ
  pub lens_block_size : ℕ

pub data HeaderError : Type 0 where
  bad_prefix bad_first_item : VarintError → HeaderError
  no_type bad_type no_count no_items_offset no_lens_offset no_items_size no_lens_size : HeaderError
  zero_items big_items big_lens headers_tail unsorted : HeaderError

unfoldable pub marshal_header : List ℕ → BlockHeader → List ℕ
marshal_header dst bh =
    let dst1 = marshal_bytes dst bh.common_prefix in
    let dst2 = marshal_bytes dst1 bh.first_item in
    let dst3 = dst2 ++ bh.marshal_type ∷ [] in
    let dst4 = marshal_uint32 dst3 bh.items_count in
    let dst5 = marshal_uint64 dst4 bh.items_block_offset in
    let dst6 = marshal_uint64 dst5 bh.lens_block_offset in
    let dst7 = marshal_uint32 dst6 bh.items_block_size in marshal_uint32 dst7 bh.lens_block_size

-- A byte string, behind the rest of the source.
unfoldable pub read_bytes :
    (VarintError → HeaderError) → List ℕ → Outcome HeaderError (List ℕ × List ℕ)
read_bytes e src = elim (unmarshal_bytes src) [ ok r ↦ ok r | err x ↦ err (e x) | panic ↦ panic ]

-- The tests on the fields, in their order.
unfoldable pub check_header : BlockHeader → Outcome HeaderError (Unit {0})
check_header bh =
    if bh.items_count == 0
    then err zero_items
    else if ltb (2 * max_inmemory_block_size) bh.items_block_size
    then err big_items
    else if ltb (2 * 8 * max_inmemory_block_size) bh.lens_block_size
    then err big_lens
    else ok tt

unfoldable pub check_type : ℕ → Outcome HeaderError (Unit {0})
unfolding valid_type
check_type mt = if valid_type mt then ok tt else err bad_type

unfoldable pub unmarshal_header : List ℕ → Outcome HeaderError (List ℕ × BlockHeader)
unfolding guarded read_bytes check_type check_header
unmarshal_header src0 = do
  (src1, cp) ← read_bytes bad_prefix src0
  (src2, first) ← read_bytes bad_first_item src1
  (mt, src3) ← guarded 1 no_type take_byte src2
  _ ← check_type mt
  (count, src4) ← guarded 4 no_count take_uint32 src3
  (items_offset, src5) ← guarded 8 no_items_offset take_uint64 src4
  (lens_offset, src6) ← guarded 8 no_lens_offset take_uint64 src5
  (items_size, src7) ← guarded 4 no_items_size take_uint32 src6
  (lens_size, src8) ← guarded 4 no_lens_size take_uint32 src7
  let bh : BlockHeader = record {
    common_prefix = cp;
    first_item = first;
    marshal_type = mt;
    items_count = count;
    items_block_offset = items_offset;
    lens_block_offset = lens_offset;
    items_block_size = items_size;
    lens_block_size = lens_size;
  }
  check_header bh >> ok (src8, bh)

-- The loop of `unmarshalBlockHeaders`, and the test behind it.
unfoldable pub read_headers : ℕ → List ℕ → Outcome HeaderError (List BlockHeader)
unfolding unmarshal_header
read_headers zero [] = ok []
read_headers zero (_ ∷ _) = err headers_tail
read_headers (suc n) src =
    unmarshal_header src >>= λ r. read_headers n r.0 >>= λ bhs. ok (r.1 ∷ bhs)

-- `sort.SliceIsSorted` by `firstItem <= firstItem`: no first item is at most the one in front of it.
unfoldable pub sorted_after : List ℕ → List BlockHeader → Bool
sorted_after prev [] = true
sorted_after prev (bh ∷ bhs) = lex_less prev bh.first_item && sorted_after bh.first_item bhs

unfoldable pub headers_sorted : List BlockHeader → Bool
unfolding sorted_after
headers_sorted [] = true
headers_sorted (bh ∷ bhs) = sorted_after bh.first_item bhs

-- A count below 0 panics as 0 does, and is left out.
unfoldable pub unmarshal_block_headers :
    List BlockHeader → List ℕ → ℕ → Outcome HeaderError (List BlockHeader)
unfolding read_headers headers_sorted
unmarshal_block_headers dst src count =
    if count == 0
    then panic
    else read_headers count src >>= λ bhs.
        if headers_sorted bhs then ok (dst ++ bhs) else err unsorted
