-- ===== src/Encoding/Varint/Unsigned.antt =====
-- Lists of uint64 and byte strings, written and read back.
pub mod Shape
use mathlib.Core.List.{append_assoc, append-nil}
use victoria_metrics.Base.{ℕ, zero, suc, ◌+◌, ◌*◌, ◌/◌, ◌%◌, ◌^◌, ◌≤◌, ◌<◌, ◌≡◌, refl, sym, ap, ◌∙◌}
use victoria_metrics.Base.{
  arith, inl, inr, List, [], ◌∷◌, ◌++◌, ltb, All, length, take-append, drop-append,
}
use victoria_metrics.Base.{length-append, Bool-cases, ap₂, drop, take}
use victoria_metrics.Base.Outcome.{Outcome, ok, ◌>>=◌}
use victoria_metrics.Base.Words.{IsU64}
use victoria_metrics.Base.Order.{lt_wf}
use victoria_metrics.Encoding.Varint.{put_uint64, get_uint64, marshal_var_uint64s}
use victoria_metrics.Encoding.Varint.{unmarshal_var_uint64s, marshal_var_uint64}
use victoria_metrics.Encoding.Varint.{unmarshal_var_uint64, marshal_bytes, unmarshal_bytes}
use victoria_metrics.Encoding.Varint.Groups.{first, others, put_groups_lem, get_groups_lem}
use victoria_metrics.Encoding.Varint.Groups.{others_nil, mask_low}

-- One number: what `put_uint64` appends. A uint64 has at most ten groups.
pub put_uint64_lem :
    (dst : List ℕ) (u : ℕ) → IsU64 u → put_uint64 dst u ≡ dst ++ first u ∷ others 9 u
unfolding put_uint64
put_uint64_lem dst u h = ground (arith, others_nil 9 u, put_groups_lem 9 dst u (lt_wf.apply u))

pub get_uint64_lem :
    (u : ℕ) (rest : List ℕ) → IsU64 u → get_uint64 (first u ∷ others 9 u ++ rest) ≡ ok (u, rest)
unfolding get_uint64
get_uint64_lem u rest h =
    ground (arith, others_nil 9 u, mask_low (first u), get_groups_lem 9 u 0 1 0 rest)

-- The encodings of a list, one after the other.
pub varints : List ℕ → List ℕ
varints [] = []
varints (u ∷ us) = first u ∷ others 9 u ++ varints us

pub marshal_var_uint64s_lem :
    (dst us : List ℕ) → All IsU64 us → marshal_var_uint64s dst us ≡ dst ++ varints us
unfolding marshal_var_uint64s varints
marshal_var_uint64s_lem dst [] h = sym (append-nil dst)
marshal_var_uint64s_lem dst (u ∷ us) h =
    marshal_var_uint64s_lem (put_uint64 dst u) us h.1
    ∙ ap (λ (d : List ℕ). d ++ varints us) (put_uint64_lem dst u h.0)
    ∙ append_assoc dst (first u ∷ others 9 u) (varints us)

pub unmarshal-varints :
    (us rest : List ℕ)
    → All IsU64 us
    → unmarshal_var_uint64s (length us) (varints us ++ rest) ≡ ok (us, rest)
unfolding unmarshal_var_uint64s varints
unmarshal-varints [] rest h = refl
unmarshal-varints (u ∷ us) rest h =
    rw (append_assoc (others 9 u) (varints us) rest)
      (rw (get_uint64_lem u (varints us ++ rest) h.0) (rw (unmarshal-varints us rest h.1)))

-- `UnmarshalVarUint64s` reads back every list of uint64 that `MarshalVarUint64s` appended to an
-- empty slice, and leaves exactly the bytes that follow.
pub unmarshal-marshal_var_uint64s :
    (us rest : List ℕ)
    → All IsU64 us
    → unmarshal_var_uint64s (length us) (marshal_var_uint64s [] us ++ rest) ≡ ok (us, rest)
unmarshal-marshal_var_uint64s us rest h =
    rw (marshal_var_uint64s_lem [] us h) (unmarshal-varints us rest h)

pub unmarshal-marshal_var_uint64 :
    (u : ℕ) (rest : List ℕ)
    → IsU64 u
    → unmarshal_var_uint64 (marshal_var_uint64 [] u ++ rest) ≡ ok (u, rest)
unfolding unmarshal_var_uint64 marshal_var_uint64 varints
unmarshal-marshal_var_uint64 u rest h =
    rw (marshal_var_uint64s_lem [] (u ∷ []) (h, tt), append-nil) (get_uint64_lem u rest h)

-- Behind a size that fits, `UnmarshalBytes` cuts the tail there.
pub unmarshal_bytes_lem :
    (src : List ℕ) {n : ℕ} {tail : List ℕ}
    → unmarshal_var_uint64 src ≡ ok (n, tail)
    → n ≤ length tail
    → unmarshal_bytes src ≡ ok (drop n tail, take n tail)
unfolding unmarshal_bytes
unmarshal_bytes_lem src e h = ground arith

-- `UnmarshalBytes` splits off exactly the bytes that `MarshalBytes` wrote to an empty slice, and
-- returns the bytes behind them, when the number of bytes is a uint64.
pub unmarshal-marshal_bytes :
    (b rest : List ℕ)
    → IsU64 (length b)
    → unmarshal_bytes (marshal_bytes [] b ++ rest) ≡ ok (rest, b)
unfolding marshal_bytes
unmarshal-marshal_bytes b rest h = rw (append_assoc (marshal_var_uint64 [] (length b)) b rest) (
    unmarshal_bytes_lem _ (unmarshal-marshal_var_uint64 (length b) (b ++ rest) h)
      (omega (arith, length-append b rest))
    ∙ ap₂ (λ (t h : List ℕ). ok (t, h)) (drop-append b rest) (take-append b rest))
