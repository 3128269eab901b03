-- ===== src/Mergeset/Codec.antt =====
-- lib/mergeset/encoding.go: a block of items and its two encodings. After `updateCommonPrefix` every
-- item starts with the common prefix, so the slices `item[cpLen:]` are in range.
-- The buffers of `sb` and `ib` are written from their start, so the results do not depend on what was
-- in them; on an error the callers drop the block. A product with the float 0.9 is compared as ten
-- times one length with nine times the other.
pub mod Deltas
pub mod Shape
pub mod RoundTrip
use victoria_metrics.Base.{ℕ, zero, suc, ◌+◌, ◌-◌, ◌*◌, ◌%◌, ◌^◌, bit_xor}
use victoria_metrics.Base.{Bool, true, false, not, ◌||◌, Option, none, some}
use victoria_metrics.Base.{
  List, [], ◌∷◌, ◌++◌, map, length, take, drop, ltb, leb, ◌==◌, if◌then◌else◌,
}
use victoria_metrics.Base.Outcome.{Outcome, ok, err, panic, ◌>>=◌, ◌>>◌}
use victoria_metrics.Base.Words.{sub64, add64}
use victoria_metrics.Encoding.Fixed.{marshal_uint64, unmarshal_uint64}
use victoria_metrics.Encoding.Varint.{VarintError, marshal_var_uint64s, unmarshal_var_uint64s}
use victoria_metrics.Encoding.Array.{Zstd}
use victoria_metrics.Mergeset.Bytes.{common_prefix_len}
use victoria_metrics.Mergeset.Block.{InmemoryBlock, update_common_prefix, is_sorted, sort, join}

pub record StorageBlock : Type 0 where
  pub items_data : List ℕ
  pub lens_data : List ℕ

pub data BlockError : Type 0 where
  unsorted unknown_type bad_lens_zstd bad_items_zstd short_len lens_tail short_items : BlockError
  items_tail big_prefix big_prev_prefix wrong_data_len : BlockError
  bad_prefix_lens bad_lens : VarintError → BlockError

-- What `marshalData` returns, and the storage block that it fills.
pub record Marshaled : Type 0 where
  pub sb : StorageBlock
  pub first_item : List ℕ
  pub common_prefix : List ℕ
  pub items_count : ℕ
  pub marshal_type : ℕ

-- `marshalTypePlain` and `marshalTypeZSTD`
abbrev pub type_plain : ℕ
type_plain = 0

abbrev pub type_zstd : ℕ
type_zstd = 1

unfoldable pub valid_type : ℕ → Bool
valid_type mt = leb mt 1

unfoldable pub put_lens : List ℕ → List (List ℕ) → List ℕ
put_lens dst [] = dst
put_lens dst (s ∷ ss) = put_lens (marshal_uint64 dst (length s % 2 ^ 64)) ss

-- `marshalDataPlain`, on the items behind the first without their common prefix.
unfoldable pub marshal_data_plain : List (List ℕ) → StorageBlock
unfolding put_lens
marshal_data_plain ss = record { items_data = join ss; lens_data = put_lens [] ss }

-- The lengths of the prefixes that neighbours share.
unfoldable pub prefix_lens : List ℕ → List (List ℕ) → List ℕ
prefix_lens prev [] = []
prefix_lens prev (s ∷ ss) = common_prefix_len prev s ∷ prefix_lens s ss

-- What is left of each item behind these prefixes.
unfoldable pub suffixes : List ℕ → List (List ℕ) → List ℕ
suffixes prev [] = []
suffixes prev (s ∷ ss) = drop (common_prefix_len prev s) s ++ suffixes s ss

-- `xs[i] = v ^ prev; prev = v`
unfoldable pub xors : ℕ → List ℕ → List ℕ
xors prev [] = []
xors prev (v ∷ vs) = bit_xor v prev ∷ xors v vs

-- `vs[i+1] = x ^ vs[i]`
unfoldable pub unxors : ℕ → List ℕ → List ℕ
unxors prev [] = []
unxors prev (x ∷ xs) = let v = bit_xor x prev in v ∷ unxors v xs

module _ (z : Zstd) where
  -- `marshalData`
  unfoldable pub marshal_data : InmemoryBlock → List ℕ → List ℕ → ℕ → Outcome BlockError Marshaled
  unfolding marshal_data_plain prefix_lens suffixes xors
  marshal_data ib first_dst cp_dst level = elim ib.items [
    | [] ↦ panic
    | x ∷ xs ↦
        let n = suc (length xs) in
        let cp_len = length ib.common_prefix in
        let s = drop cp_len x in
        let ss = map (drop cp_len) xs in
        let size = length ib.bytes - cp_len * n in
        let b_lens = marshal_var_uint64s [] (xors 0 (prefix_lens s ss)) in
        let b_lens2 = marshal_var_uint64s b_lens (xors (length s) (map length ss)) in
        let items_data = z.compress (suffixes s ss) level in
        let packed : StorageBlock = record {
          items_data = items_data;
          lens_data = z.compress b_lens2 level;
        } in
        let plain = ltb size 64 || ltb n 10 || ltb (9 * size) (10 * length items_data) in
        if leb (2 ^ 32) n
        then panic
        else ok (record {
          sb = if plain then marshal_data_plain ss else packed;
          first_item = first_dst ++ x;
          common_prefix = cp_dst ++ ib.common_prefix;
          items_count = n;
          marshal_type = if plain then type_plain else type_zstd;
        })
  ]

  unfoldable pub marshal_sorted_data :
      InmemoryBlock → List ℕ → List ℕ → ℕ → Outcome BlockError Marshaled
  marshal_sorted_data ib = marshal_data (update_common_prefix ib)

  unfoldable pub marshal_unsorted_data :
      InmemoryBlock → List ℕ → List ℕ → ℕ → Outcome BlockError Marshaled
  marshal_unsorted_data ib =
      marshal_data (update_common_prefix (if is_sorted ib.items then ib else sort ib))

-- The loop on `lensData` of `unmarshalDataPlain`.
unfoldable pub read_lens : ℕ → List ℕ → Outcome BlockError (List ℕ)
read_lens zero [] = ok []
read_lens zero (_ ∷ _) = err lens_tail
read_lens (suc n) b =
    let rest = read_lens n (drop 8 b) in
    if ltb (length b) 8
    then err short_len
    else unmarshal_uint64 b >>= λ v. rest >>= λ vs. ok (v ∷ vs)

-- Its loop on `itemsData`.
unfoldable pub plain_items : List ℕ → List ℕ → List ℕ → Outcome BlockError (List (List ℕ))
plain_items cp [] [] = ok []
plain_items cp [] (_ ∷ _) = err items_tail
plain_items cp (n ∷ lens) b =
    let rest = plain_items cp lens (drop n b) in
    if ltb (length b) n then err short_items else rest >>= λ items. ok ((cp ++ take n b) ∷ items)

unfoldable pub unmarshal_data_plain :
    StorageBlock → List ℕ → List ℕ → ℕ → Outcome BlockError (List (List ℕ))
unfolding read_lens plain_items
unmarshal_data_plain sb first cp count = read_lens (count - 1) sb.lens_data >>= λ lens.
    plain_items cp lens sb.items_data >>= λ items. ok (first ∷ items)

-- The loop on the decompressed items of `UnmarshalData`, and the test behind it.
unfoldable pub zstd_items :
    List ℕ → List ℕ → List ℕ → List ℕ → List ℕ → Outcome BlockError (List (List ℕ))
zstd_items cp prev (n ∷ lens) (p ∷ prefixes) b =
    let item = take p prev ++ take (n - p) b in
    let rest = zstd_items cp item lens prefixes (drop (n - p) b) in
    if ltb n p
    then err big_prefix
    else if ltb (length b) (n - p)
    then err short_items
    else if ltb (length prev) p
    then err big_prev_prefix
    else rest >>= λ items. ok ((cp ++ item) ∷ items)
zstd_items cp prev _ _ [] = ok []
zstd_items cp prev _ _ (_ ∷ _) = err items_tail

-- `dataLen`
unfoldable pub sum_lens : ℕ → List ℕ → ℕ
sum_lens total [] = total
sum_lens total (n ∷ lens) = sum_lens (add64 total n) lens

-- The test that the items are sorted, and the block.
unfoldable pub finish : List ℕ → List (List ℕ) → Outcome BlockError InmemoryBlock
finish cp items =
    if is_sorted items
    then ok (record { common_prefix = cp; bytes = join items; items = items })
    else err unsorted

module _ (z : Zstd) where
  unfoldable pub decompress : BlockError → List ℕ → Outcome BlockError (List ℕ)
  decompress e b = elim (z.decompress b) [ none ↦ err e | some r ↦ ok r ]

  -- `prefixLens[1:]` and `lens[1:]`. `2*itemsCount` is a uint32: where it wraps, the slice
  -- `lb.lens[itemsCount:]` is out of range.
  unfoldable pub read_both_lens : ℕ → ℕ → List ℕ → Outcome BlockError (List ℕ × List ℕ)
  unfolding decompress unxors
  read_both_lens count first_len lens_data = decompress bad_lens_zstd lens_data >>= λ b.
      if leb (2 ^ 32) (2 * count) then panic else elim (unmarshal_var_uint64s (count - 1) b) [
        | panic ↦ panic
        | err e ↦ err (bad_prefix_lens e)
        | ok (xs, tail) ↦ elim (unmarshal_var_uint64s (count - 1) tail) [
          | panic ↦ panic
          | err e ↦ err (bad_lens e)
          | ok (ys, []) ↦ ok (unxors 0 xs, unxors first_len ys)
          | ok (ys, _ ∷ _) ↦ err lens_tail
        ]
      ]

  unfoldable pub unmarshal_data_zstd :
      StorageBlock → List ℕ → List ℕ → ℕ → Outcome BlockError (List (List ℕ))
  unfolding read_both_lens decompress zstd_items sum_lens
  unmarshal_data_zstd sb first cp count =
      let first_len = sub64 (length first) (length cp) in
      read_both_lens count first_len sb.lens_data >>= λ r.
      decompress bad_items_zstd sb.items_data >>= λ b.
      if ltb (length first) (length cp)
      then panic
      else zstd_items cp (drop (length cp) first) r.1 r.0 b >>= λ items.
          if length (join (first ∷ items)) % 2 ^ 64
            == sum_lens (add64 (length cp * count) first_len) r.1
          then ok (first ∷ items)
          else err wrong_data_len

  -- `UnmarshalData`
  unfoldable pub unmarshal_data :
      StorageBlock → List ℕ → List ℕ → ℕ → ℕ → Outcome BlockError InmemoryBlock
  unfolding unmarshal_data_plain unmarshal_data_zstd finish
  unmarshal_data sb first cp count mt =
      if count == 0
      then panic
      else if mt == type_plain
      then unmarshal_data_plain sb first cp count >>= finish cp
      else if mt == type_zstd
      then unmarshal_data_zstd sb first cp count >>= finish cp
      else err unknown_type
