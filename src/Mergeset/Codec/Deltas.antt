-- ===== src/Mergeset/Codec/Deltas.antt =====
-- The loops of the codec, each against its reader.
use victoria_metrics.Base.{ℕ, suc, ◌%◌, ◌^◌, ◌-◌, ◌≡◌, refl, sym, ap, ◌∙◌, arith}
use victoria_metrics.Base.{List, [], ◌∷◌, ◌++◌, map, length, take, drop, All}
use victoria_metrics.Base.Bits.Xor.{bit_xor-lt_pow, bit_xor_back}
use mathlib.Core.List.{append-nil}
use victoria_metrics.Base.{
  length-append, take-append, drop-append, take-append-drop, length-drop, le→ltb,
}
use victoria_metrics.Base.Words.{IsU64}
use victoria_metrics.Base.Outcome.{ok}
use victoria_metrics.Encoding.Fixed.{marshal_uint64}
use victoria_metrics.Encoding.Fixed.RoundTrip.{unmarshal-marshal_uint64}
use victoria_metrics.Storage.Fields.{push_uint64, length-uint64, drop_uint64}
use victoria_metrics.Mergeset.Bytes.{common_prefix_len}
use victoria_metrics.Mergeset.Block.{join}
use victoria_metrics.Mergeset.Block.Prefix.{
  take-common_prefix_len, common_prefix_len-le, common_prefix_len-le_left,
}
use victoria_metrics.Mergeset.Codec.{
  xors, unxors, prefix_lens, suffixes, put_lens, read_lens, plain_items, zstd_items, BlockError,
}

pub unxors-xors : (p : ℕ) (vs : List ℕ) → IsU64 p → All IsU64 vs → unxors p (xors p vs) ≡ vs
unfolding xors unxors
unxors-xors p [] h hs = refl
unxors-xors p (v ∷ vs) h hs =
    rw (bit_xor_back 64 v p hs.0 h) (ap (λ l. v ∷ l) (unxors-xors v vs hs.0 hs.1))

pub xors-All : (p : ℕ) (vs : List ℕ) → IsU64 p → All IsU64 vs → All IsU64 (xors p vs)
unfolding xors
xors-All p [] h hs = tt
xors-All p (v ∷ vs) h hs = (bit_xor-lt_pow 64 v p hs.0 h, xors-All v vs hs.0 hs.1)

pub length-xors : (p : ℕ) (vs : List ℕ) → length (xors p vs) ≡ length vs
unfolding xors
length-xors p [] = refl
length-xors p (v ∷ vs) = ap suc (length-xors v vs)

-- Items whose lengths are a uint64.
abbrev pub AreShort : List (List ℕ) → Type 0
AreShort ss = All IsU64 (map length ss)

pub prefix_lens-All :
    (prev : List ℕ) (ss : List (List ℕ)) → AreShort ss → All IsU64 (prefix_lens prev ss)
unfolding prefix_lens
prefix_lens-All prev [] h = tt
prefix_lens-All prev (s ∷ ss) h =
    (omega (arith, common_prefix_len-le prev s, h.0), prefix_lens-All s ss h.1)

pub length-prefix_lens :
    (prev : List ℕ) (ss : List (List ℕ)) → length (prefix_lens prev ss) ≡ length ss
unfolding prefix_lens
length-prefix_lens prev [] = refl
length-prefix_lens prev (s ∷ ss) = ap suc (length-prefix_lens s ss)

-- The plain encoding: the lengths, then the items.
lens_bytes : List (List ℕ) → List ℕ
lens_bytes [] = []
lens_bytes (s ∷ ss) = marshal_uint64 [] (length s) ++ lens_bytes ss

put_lens_lem :
    (dst : List ℕ) (ss : List (List ℕ)) → AreShort ss → put_lens dst ss ≡ dst ++ lens_bytes ss
unfolding put_lens lens_bytes
put_lens_lem dst [] h = sym (append-nil dst)
put_lens_lem dst (s ∷ ss) h =
    let small : length s % 2 ^ 64 ≡ length s = omega (arith, h.0) in
    rw small (
      put_lens_lem (marshal_uint64 dst (length s)) ss h.1
      ∙ push_uint64 dst (length s) (lens_bytes ss))

read_lens_lem :
    (ss : List (List ℕ)) → AreShort ss → read_lens (length ss) (lens_bytes ss) ≡ ok (map length ss)
unfolding read_lens lens_bytes
read_lens_lem [] h = refl
read_lens_lem (s ∷ ss) h =
    rw
      (
        le→ltb (length (marshal_uint64 [] (length s) ++ lens_bytes ss)) 8
            (omega (arith, length-uint64 (length s) (lens_bytes ss))),
        unmarshal-marshal_uint64 {E = BlockError} (length s) (lens_bytes ss) h.0,
        drop_uint64 (length s) (lens_bytes ss),
        read_lens_lem ss h.1,
      )
      refl

pub read_lens-put_lens :
    (ss : List (List ℕ)) → AreShort ss → read_lens (length ss) (put_lens [] ss) ≡ ok (map length ss)
read_lens-put_lens ss h = rw (put_lens_lem [] ss h) (read_lens_lem ss h)

pub plain_items-join :
    (cp : List ℕ) (ss : List (List ℕ))
    → plain_items cp (map length ss) (join ss) ≡ ok (map (λ s. cp ++ s) ss)
unfolding plain_items
plain_items-join cp [] = refl
plain_items-join cp (s ∷ ss) =
    rw
      (
        le→ltb (length (s ++ join ss)) (length s) (omega (arith, length-append s (join ss))),
        drop-append s (join ss),
        take-append s (join ss),
        plain_items-join cp ss,
      )
      refl

-- Behind the prefix that it shares with the item in front.
shared :
    (prev s : List ℕ)
    → take (common_prefix_len prev s) prev ++ drop (common_prefix_len prev s) s ≡ s
shared prev s = rw (take-common_prefix_len prev s) (take-append-drop (common_prefix_len prev s) s)

pub zstd_items-suffixes :
    (cp prev : List ℕ) (ss : List (List ℕ))
    → zstd_items cp prev (map length ss) (prefix_lens prev ss) (suffixes prev ss)
      ≡ ok (map (λ s. cp ++ s) ss)
unfolding zstd_items prefix_lens suffixes
zstd_items-suffixes cp prev [] = refl
zstd_items-suffixes cp prev (s ∷ ss) =
    let p = common_prefix_len prev s in
    let b = suffixes s ss in
    let size : length s - p ≡ length (drop p s) = sym (length-drop p s) in
    rw
      (
        size,
        take-append (drop p s) b,
        drop-append (drop p s) b,
        shared prev s,
        le→ltb (length s) p (common_prefix_len-le prev s),
        le→ltb (length (drop p s ++ b)) (length (drop p s))
            (omega (arith, length-append (drop p s) b)),
        le→ltb (length prev) p (common_prefix_len-le_left prev s),
        zstd_items-suffixes cp s ss,
      )
      refl
