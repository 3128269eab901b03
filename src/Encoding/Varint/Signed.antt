-- ===== src/Encoding/Varint/Signed.antt =====
-- The signed varints are the unsigned ones over zig-zag: the int8 fast paths change nothing.
use victoria_metrics.Base.{ℕ, zero, suc, ◌%◌, ◌<◌, ◌≡◌, refl, ap, ap₂}
use victoria_metrics.Base.{arith, List, [], ◌∷◌, ◌++◌, All, length, map}
use victoria_metrics.Base.Outcome.{Outcome, ok, err, panic, ◌>>=◌}
use victoria_metrics.Base.Order.{lt_wf}
use victoria_metrics.Base.Words.{IsU64}
use victoria_metrics.Encoding.Fixed.{zigzag, unzigzag}
use victoria_metrics.Encoding.Fixed.ZigZag.{zigzag64_pos, zigzag64_neg, zigzag8_pos, zigzag8_neg}
use victoria_metrics.Encoding.Fixed.ZigZag.{unzigzag8_even, unzigzag8_odd, unzigzag64_even}
use victoria_metrics.Encoding.Fixed.ZigZag.{unzigzag64_odd, zigzag64-lt, unzigzag-zigzag64}
use victoria_metrics.Encoding.Varint.{VarintError, put_int64, put_uint64, sext8}
use victoria_metrics.Encoding.Varint.{
  marshal_var_int64s, marshal_var_uint64s, get_int64, get_uint64,
}
use victoria_metrics.Encoding.Varint.{unmarshal_var_uint64s, unmarshal_var_int64s}
use victoria_metrics.Encoding.Varint.{
  marshal_var_int64, unmarshal_var_int64, marshal_var_uint64, unmarshal_var_uint64,
}
use victoria_metrics.Encoding.Varint.Groups.{put_groups_lem, others_nil}
use victoria_metrics.Encoding.Varint.Unsigned.{
  unmarshal-marshal_var_uint64s, unmarshal-marshal_var_uint64,
}

put_int64_lem : (dst : List ℕ) (v : ℕ) → IsU64 v → put_int64 dst v ≡ put_uint64 dst (zigzag 64 v)
unfolding put_int64 put_uint64
put_int64_lem dst v h = ground (
  arith,
  zigzag64_pos v,
  zigzag64_neg v,
  zigzag8_pos (v % 256),
  zigzag8_neg (v % 256),
  others_nil 0 (zigzag 64 v),
  put_groups_lem 0 dst (zigzag 64 v) (lt_wf.apply (zigzag 64 v)),
)

-- For every list of int64, `MarshalVarInt64s` writes what `MarshalVarUint64s` writes for the
-- zig-zag values.
pub marshal_var_int64s-zigzag :
    (dst vs : List ℕ)
    → All IsU64 vs
    → marshal_var_int64s dst vs ≡ marshal_var_uint64s dst (map (zigzag 64) vs)
unfolding marshal_var_int64s marshal_var_uint64s
marshal_var_int64s-zigzag dst [] h = refl
marshal_var_int64s-zigzag dst (v ∷ vs) h =
    rw (put_int64_lem dst v h.0) (marshal_var_int64s-zigzag (put_uint64 dst (zigzag 64 v)) vs h.1)

sext8_lem : (c : ℕ) → c < 128 → sext8 (unzigzag 8 c) ≡ unzigzag 64 c
sext8_lem c h =
    ground (arith, unzigzag8_even c, unzigzag8_odd c, unzigzag64_even c, unzigzag64_odd c)

abbrev decoded : ℕ × List ℕ → Outcome VarintError (ℕ × List ℕ)
decoded (u, tail) = ok (unzigzag 64 u, tail)

get_int64_lem : (src : List ℕ) → get_int64 src ≡ (get_uint64 src >>= decoded)
unfolding get_int64 get_uint64
get_int64_lem [] = refl
get_int64_lem (c ∷ rest) = ground (arith, sext8_lem c)

abbrev prepend : ℕ → List ℕ × List ℕ → Outcome VarintError (List ℕ × List ℕ)
prepend u r = ok (u ∷ r.0, r.1)

abbrev all_decoded : List ℕ × List ℕ → Outcome VarintError (List ℕ × List ℕ)
all_decoded r = ok (map (unzigzag 64) r.0, r.1)

-- One item off both readers, when they agree on the `n` items behind it.
item_agree :
    (n : ℕ) (m : Outcome VarintError (ℕ × List ℕ))
    → ((tail : List ℕ)
        → unmarshal_var_int64s n tail ≡ (unmarshal_var_uint64s n tail >>= all_decoded))
    → (m >>= decoded >>= λ r. unmarshal_var_int64s n r.1 >>= prepend r.0)
      ≡ (m >>= (λ r. unmarshal_var_uint64s n r.1 >>= prepend r.0) >>= all_decoded)
item_agree n (ok (u, tail)) ih = ground (arith, ih tail)
item_agree n (err e) ih = refl
item_agree n panic ih = refl

-- On any input `UnmarshalVarInt64s` answers what `UnmarshalVarUint64s` does, errors included, with
-- every item turned back from zig-zag.
pub unmarshal_var_int64s-zigzag :
    (n : ℕ) (src : List ℕ)
    → unmarshal_var_int64s n src
      ≡ (unmarshal_var_uint64s n src >>= λ r. ok (map (unzigzag 64) r.0, r.1))
unfolding unmarshal_var_int64s unmarshal_var_uint64s
unmarshal_var_int64s-zigzag zero src = refl
unmarshal_var_int64s-zigzag (suc n) src =
    rw (get_int64_lem src)
      (item_agree n (get_uint64 src) (λ tail. unmarshal_var_int64s-zigzag n tail))

zigzag-All : (vs : List ℕ) → All IsU64 vs → All IsU64 (map (zigzag 64) vs)
zigzag-All [] h = tt
zigzag-All (v ∷ vs) h = (zigzag64-lt v h.0, zigzag-All vs h.1)

map-unzigzag : (vs : List ℕ) → All IsU64 vs → map (unzigzag 64) (map (zigzag 64) vs) ≡ vs
map-unzigzag [] h = refl
map-unzigzag (v ∷ vs) h = ap₂ ◌∷◌ (unzigzag-zigzag64 v h.0) (map-unzigzag vs h.1)

length-zigzag : (vs : List ℕ) → length (map (zigzag 64) vs) ≡ length vs
length-zigzag [] = refl
length-zigzag (v ∷ vs) = ap suc (length-zigzag vs)

-- `UnmarshalVarInt64s` reads back every list of int64 that `MarshalVarInt64s` appended to an empty
-- slice, and leaves exactly the bytes that follow.
pub unmarshal-marshal_var_int64s :
    (vs rest : List ℕ)
    → All IsU64 vs
    → unmarshal_var_int64s (length vs) (marshal_var_int64s [] vs ++ rest) ≡ ok (vs, rest)
unmarshal-marshal_var_int64s vs rest h =
    rw (marshal_var_int64s-zigzag [] vs h, unmarshal_var_int64s-zigzag, ← length-zigzag vs)
      (rw (unmarshal-marshal_var_uint64s (map (zigzag 64) vs) rest (zigzag-All vs h))
        (ap (λ (us : List ℕ). ok (us, rest)) (map-unzigzag vs h)))

-- The same for one int64.
pub unmarshal-marshal_var_int64 :
    (v : ℕ) (rest : List ℕ)
    → IsU64 v
    → unmarshal_var_int64 (marshal_var_int64 [] v ++ rest) ≡ ok (v, rest)
unfolding unmarshal_var_int64 marshal_var_int64 unmarshal_var_uint64 marshal_var_uint64
unmarshal-marshal_var_int64 v rest h =
    rw (marshal_var_int64s-zigzag [] (v ∷ []) (h, tt), get_int64_lem)
      (rw (unmarshal-marshal_var_uint64 (zigzag 64 v) rest (zigzag64-lt v h))
        (ap (λ (u : ℕ). ok (u, rest)) (unzigzag-zigzag64 v h)))
