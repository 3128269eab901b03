-- ===== src/Mergeset/Codec/RoundTrip.antt =====
-- A block of items encoded and decoded.
use mathlib.Core.List.{Perm, append-nil}
use mathlib.Core.List.Perm.{rfl}
use victoria_metrics.Base.{ℕ, suc, ◌+◌, ◌*◌, ◌-◌, ◌^◌, ◌<◌, ◌≡◌, refl, sym, ap, subst, ◌∙◌, arith}
use victoria_metrics.Base.{
  Bool, true, false, inl, inr, Bool-cases, ltb, leb, if◌then◌else◌, ==_iff, le→ltb,
}
use victoria_metrics.Base.{List, [], ◌∷◌, ◌++◌, map, length, drop, All, length-append}
use victoria_metrics.Base.Outcome.{ok, ◌>>=◌}
use victoria_metrics.Base.Words.{IsU64, sub64}
use victoria_metrics.Encoding.Varint.{marshal_var_uint64s, unmarshal_var_uint64s}
use victoria_metrics.Encoding.Varint.Unsigned.{varints, marshal_var_uint64s_lem, unmarshal-varints}
use victoria_metrics.Encoding.Array.{Zstd}
use victoria_metrics.Encoding.Array.RoundTrip.{IsLossless}
use victoria_metrics.Storage.Fields.{then_ok}
use victoria_metrics.Mergeset.Block.{
  InmemoryBlock, is_sorted, sort, sort_items, join, prefix_of, update_common_prefix,
}
use victoria_metrics.Mergeset.Block.Prefix.{StartWith, prefix_of-StartWith}
use victoria_metrics.Mergeset.Block.Order.{sort_items-is_sorted, sort_items-Perm}
use victoria_metrics.Mergeset.Codec.{
  BlockError, marshal_data_plain, marshal_data, marshal_sorted_data, marshal_unsorted_data,
  unmarshal_data_zstd, unmarshal_data, finish, decompress, read_both_lens,
}
use victoria_metrics.Mergeset.Codec.{
  prefix_lens, suffixes, xors, bad_lens_zstd, bad_items_zstd, type_plain, type_zstd,
}
use victoria_metrics.Mergeset.Codec.Deltas.{
  AreShort, unxors-xors, xors-All, length-xors, prefix_lens-All, length-prefix_lens,
  zstd_items-suffixes,
}
use victoria_metrics.Mergeset.Codec.Shape.{
  length-map-drop, map-StartWith, length-map-length, drop-AreShort, plain_back, data_len,
  length-sort_items, sort_items-AreShort, not_zero, block_of,
}

module _ (z : Zstd) (lossless : IsLossless z) where
  decompress_back :
      (e : BlockError) (b : List ℕ) (level : ℕ) → decompress z e (z.compress b level) ≡ ok b
  unfolding decompress
  decompress_back e b level = rw (decompress, lossless.undo b level) refl

  lens_back :
      (count first : ℕ) (ps ls : List ℕ) (level : ℕ)
      → 2 * count < 2 ^ 32
      → count - 1 ≡ length ps
      → length ls ≡ length ps
      → IsU64 first
      → All IsU64 ps
      → All IsU64 ls
      → read_both_lens z count first (
          z.compress
            (marshal_var_uint64s (marshal_var_uint64s [] (xors 0 ps)) (xors first ls))
            level)
        ≡ ok (ps, ls)
  unfolding read_both_lens
  lens_back count first ps ls level small e e' h hp hl =
      let xs = xors 0 ps in
      let ys = xors first ls in
      let xs_short = xors-All 0 ps (omega arith) hp in
      let ys_short = xors-All first ls h hl in
      let b : marshal_var_uint64s (marshal_var_uint64s [] xs) ys ≡ varints xs ++ varints ys =
        marshal_var_uint64s_lem (marshal_var_uint64s [] xs) ys ys_short
        ∙ ap (λ l. l ++ varints ys) (marshal_var_uint64s_lem [] xs xs_short) in
      let n : count - 1 ≡ length xs = e ∙ sym (length-xors 0 ps) in
      let m : count - 1 ≡ length ys = e ∙ sym e' ∙ sym (length-xors first ls) in
      let one : unmarshal_var_uint64s (count - 1) (varints xs ++ varints ys) ≡ ok (xs, varints ys) =
        subst (λ k. unmarshal_var_uint64s k (varints xs ++ varints ys) ≡ ok (xs, varints ys))
          (sym n) (unmarshal-varints xs (varints ys) xs_short) in
      let two : unmarshal_var_uint64s (count - 1) (varints ys) ≡ ok (ys, []) =
        subst (λ k. unmarshal_var_uint64s k (varints ys) ≡ ok (ys, [])) (sym m)
          (subst (λ l. unmarshal_var_uint64s (length ys) l ≡ ok (ys, [])) (append-nil (varints ys))
            (unmarshal-varints ys [] ys_short)) in
      let fits : leb (2 ^ 32) (2 * count) ≡ false = ground arith in
      rw
        (
          b,
          decompress_back bad_lens_zstd (varints xs ++ varints ys) level,
          fits,
          one,
          two,
          unxors-xors 0 ps (omega arith) hp,
          unxors-xors first ls h hl,
        )
        refl

  zstd_back :
      (cp x : List ℕ) (xs : List (List ℕ)) (level : ℕ)
      → suc (length xs) < 2 ^ 31
      → AreShort (x ∷ xs)
      → StartWith cp (x ∷ xs)
      → let s = drop (length cp) x in
        let ss = map (drop (length cp)) xs in
        unmarshal_data_zstd z
          (record {
            items_data = z.compress (suffixes s ss) level;
            lens_data =
                z.compress
                  (marshal_var_uint64s
                    (marshal_var_uint64s [] (xors 0 (prefix_lens s ss)))
                    (xors (length s) (map length ss)))
                  level;
          })
          x
          cp
          (suc (length xs))
        ≡ ok (x ∷ xs)
  unfolding unmarshal_data_zstd
  zstd_back cp x xs level small short starts =
      let s = drop (length cp) x in
      let ss = map (drop (length cp)) xs in
      let n = suc (length xs) in
      let size : length ss ≡ length xs = length-map-drop (length cp) xs in
      let ss_short = drop-AreShort (length cp) xs short.1 in
      let whole : length cp + length s ≡ length x = sym (length-append cp s) ∙ ap length starts.0 in
      let first : sub64 (length x) (length cp) ≡ length s = omega (arith, whole, short.0) in
      let lens =
        lens_back n (length s) (prefix_lens s ss) (map length ss) level (omega arith)
          (omega (arith, size, length-prefix_lens s ss))
          (length-map-length ss ∙ sym (length-prefix_lens s ss)) (omega (arith, whole, short.0))
          (prefix_lens-All s ss ss_short) ss_short in
      let items : map (λ t. cp ++ t) ss ≡ xs = map-StartWith cp xs starts.1 in
      let in_range : ltb (length x) (length cp) ≡ false =
        le→ltb (length x) (length cp) (omega (arith, whole)) in
      let known =
        subst
          (λ f.
            read_both_lens z n f (
              z.compress
                (marshal_var_uint64s (marshal_var_uint64s [] (xors 0 (prefix_lens s ss)))
                  (xors (length s) (map length ss)))
                level)
            ≡ ok (prefix_lens s ss, map length ss))
          (sym first) lens in
      then_ok _ known (
        then_ok _ (decompress_back bad_items_zstd (suffixes s ss) level) (
          rw
            (
              in_range,
              zstd_items-suffixes cp s ss,
              items,
              (==_iff _ _).1 (sym (data_len cp x xs short starts)),
            )
            refl))

  -- Whichever of the two encodings is taken.
  either_back :
      (cp x : List ℕ) (xs : List (List ℕ)) (level : ℕ)
      → suc (length xs) < 2 ^ 31
      → AreShort (x ∷ xs)
      → StartWith cp (x ∷ xs)
      → is_sorted (x ∷ xs) ≡ true
      → (plain : Bool)
      → let s = drop (length cp) x in
        let ss = map (drop (length cp)) xs in
        unmarshal_data z
          (if plain then marshal_data_plain ss else record {
            items_data = z.compress (suffixes s ss) level;
            lens_data =
                z.compress
                  (marshal_var_uint64s
                    (marshal_var_uint64s [] (xors 0 (prefix_lens s ss)))
                    (xors (length s) (map length ss)))
                  level;
          })
          x
          cp
          (suc (length xs))
          (if plain then type_plain else type_zstd)
        ≡ ok (record { common_prefix = cp; bytes = join (x ∷ xs); items = x ∷ xs })
  unfolding unmarshal_data finish
  either_back cp x xs level small short starts sorted true =
      rw (unmarshal_data, not_zero xs, plain_back cp x xs short.1 starts.1, sorted) refl
  either_back cp x xs level small short starts sorted false =
      rw (unmarshal_data, not_zero xs, zstd_back cp x xs level small short starts, sorted) refl

  -- A block that is marshaled with a prefix that its items share.
  back :
      (cp bytes : List ℕ) (items : List (List ℕ)) (level : ℕ)
      → 0 < length items
      → length items < 2 ^ 31
      → AreShort items
      → StartWith cp items
      → is_sorted items ≡ true
      → (marshal_data z (record { common_prefix = cp; bytes = bytes; items = items }) [] [] level
          >>= λ m. unmarshal_data z m.sb m.first_item m.common_prefix m.items_count m.marshal_type)
        ≡ ok (record { common_prefix = cp; bytes = join items; items = items })
  unfolding marshal_data
  back cp bytes [] level some_item small short starts sorted = absurd (omega arith)
  back cp bytes (x ∷ xs) level some_item small short starts sorted =
      let fits : leb (2 ^ 32) (suc (length xs)) ≡ false = ground arith in
      rw fits (either_back cp x xs level small short starts sorted _)

  -- `UnmarshalData` gives back the block that `MarshalSortedData` wrote, with its common prefix, on any
  -- level of a lossless zstd: every block of at least one and fewer than 2^31 items, which are sorted
  -- and shorter than 2^64 bytes.
  pub unmarshal-marshal_sorted_data :
      (ib : InmemoryBlock) (level : ℕ)
      → 0 < length ib.items
      → length ib.items < 2 ^ 31
      → AreShort ib.items
      → is_sorted ib.items ≡ true
      → (marshal_sorted_data z ib [] [] level >>= λ m.
          unmarshal_data z m.sb m.first_item m.common_prefix m.items_count m.marshal_type)
        ≡ ok (block_of ib.items)
  unfolding marshal_sorted_data update_common_prefix
  unmarshal-marshal_sorted_data ib level some_item small short sorted =
      back (prefix_of ib.items) ib.bytes ib.items level some_item small short
        (prefix_of-StartWith ib.items) sorted

  -- What `MarshalUnsortedData` makes of a block, with items in any order, is read back by
  -- `UnmarshalData` as a block of the same items, sorted, whose data and common prefix are those of
  -- these items: of at least one and fewer than 2^31 items, each shorter than 2^64 bytes, under a
  -- lossless zstd on any level.
  pub unmarshal-marshal_unsorted_data :
      (ib : InmemoryBlock) (level : ℕ)
      → 0 < length ib.items
      → length ib.items < 2 ^ 31
      → AreShort ib.items
      → (out : InmemoryBlock) × ((marshal_unsorted_data z ib [] [] level >>= λ m.
            unmarshal_data z m.sb m.first_item m.common_prefix m.items_count m.marshal_type)
          ≡ ok out)
        × Perm ib.items out.items
        × (is_sorted out.items ≡ true)
        × (out ≡ block_of out.items)
  unfolding marshal_unsorted_data update_common_prefix sort
  unmarshal-marshal_unsorted_data ib level some_item small short =
      elim (Bool-cases (is_sorted ib.items)) [
        | inl h ↦ (
          block_of ib.items,
          rw h (
              back (prefix_of ib.items) ib.bytes ib.items level some_item small short
                (prefix_of-StartWith ib.items) h),
          rfl,
          h,
          refl,
        )
        | inr h ↦
            let items = sort_items ib.items in
            let same : length items ≡ length ib.items = length-sort_items ib.items in
            (
              block_of items,
              rw h (
                  back (prefix_of items) (join items) items level (omega (arith, same))
                    (omega (arith, same)) (sort_items-AreShort ib.items short)
                    (prefix_of-StartWith items) (sort_items-is_sorted ib.items)),
              sort_items-Perm ib.items,
              sort_items-is_sorted ib.items,
              refl,
            )
      ]
