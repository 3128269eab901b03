-- ===== src/Encoding/Fixed/RoundTrip.antt =====
-- Reading back what the fixed-width writers append.
use victoria_metrics.Base.{ℕ, ◌+◌, ◌*◌, ◌/◌, ◌%◌, ◌^◌, ◌<◌, ◌≡◌, arith, ap, ◌∙◌}
use victoria_metrics.Base.{bit_or, List, [], ◌++◌}
use victoria_metrics.Base.Bits.{bit_or_join}
use native.Mathlib.Nat.{mod-eq_of_lt}
use victoria_metrics.Base.Outcome.{ok}
use victoria_metrics.Base.Words.{IsByte, IsU16, IsU32, IsU64, shl}
use victoria_metrics.Encoding.Fixed.{or_bytes, marshal_uint16, unmarshal_uint16}
use victoria_metrics.Encoding.Fixed.{marshal_uint32, unmarshal_uint32}
use victoria_metrics.Encoding.Fixed.{marshal_uint64, unmarshal_uint64}
use victoria_metrics.Encoding.Fixed.{zigzag, unzigzag, marshal_int16, unmarshal_int16}
use victoria_metrics.Encoding.Fixed.{marshal_int64, unmarshal_int64}
use victoria_metrics.Encoding.Fixed.ZigZag.{zigzag16-lt, unzigzag-zigzag16, zigzag64-lt}
use victoria_metrics.Encoding.Fixed.ZigZag.{unzigzag-zigzag64}

or16 : (b0 b1 : ℕ) → IsByte b0 → IsByte b1 → bit_or (shl 16 b0 8) b1 ≡ b0 * 2 ^ 8 + b1
or16 b0 b1 h0 h1 = omega (arith, bit_or_join 8 (shl 16 b0 8) b1 (omega arith) h1)

or32 :
    (b0 b1 b2 b3 : ℕ)
    → IsByte b0
    → IsByte b1
    → IsByte b2
    → IsByte b3
    → bit_or (bit_or (bit_or (shl 32 b0 24) (shl 32 b1 16)) (shl 32 b2 8)) b3
      ≡ b0 * 2 ^ 24 + b1 * 2 ^ 16 + b2 * 2 ^ 8 + b3
or32 b0 b1 b2 b3 h0 h1 h2 h3 =
    rw (bit_or_join 24 (shl 32 b0 24) (shl 32 b1 16) (omega arith) (omega arith)) (
      rw (bit_or_join 16 (shl 32 b0 24 + shl 32 b1 16) (shl 32 b2 8) (omega arith) (omega arith)) (
        omega
          (arith, bit_or_join 8 (shl 32 b0 24 + shl 32 b1 16 + shl 32 b2 8) b3 (omega arith) h3)))

-- One more byte, `k` bits from the bottom.
or_byte :
    (k x b : ℕ)
    → x % 2 ^ (k + 8) ≡ 0
    → b * 2 ^ k < 2 ^ (k + 8)
    → b * 2 ^ k < 2 ^ 64
    → bit_or x (shl 64 b k) ≡ x + b * 2 ^ k
or_byte k x b e h fits = rw (mod-eq_of_lt fits) (bit_or_join (k + 8) x (b * 2 ^ k) e h)

or_bytes_lem :
    (b0 b1 b2 b3 b4 b5 b6 b7 : ℕ)
    → IsByte b0
    → IsByte b1
    → IsByte b2
    → IsByte b3
    → IsByte b4
    → IsByte b5
    → IsByte b6
    → IsByte b7
    → or_bytes b0 b1 b2 b3 b4 b5 b6 b7
      ≡ b0 * 2 ^ 56
        + b1 * 2 ^ 48
        + b2 * 2 ^ 40
        + b3 * 2 ^ 32
        + b4 * 2 ^ 24
        + b5 * 2 ^ 16
        + b6 * 2 ^ 8
        + b7
unfolding or_bytes
or_bytes_lem b0 b1 b2 b3 b4 b5 b6 b7 h0 h1 h2 h3 h4 h5 h6 h7 =
    let x0 : ℕ = b0 * 2 ^ 56 in
    let x1 : ℕ = x0 + b1 * 2 ^ 48 in
    let x2 : ℕ = x1 + b2 * 2 ^ 40 in
    let x3 : ℕ = x2 + b3 * 2 ^ 32 in
    let x4 : ℕ = x3 + b4 * 2 ^ 24 in
    let x5 : ℕ = x4 + b5 * 2 ^ 16 in
    let x6 : ℕ = x5 + b6 * 2 ^ 8 in
    let top : shl 64 b0 56 ≡ x0 = omega arith in
    rw top (
      rw (or_byte 48 x0 b1 (omega arith) (omega arith) (omega arith)) (
        rw (or_byte 40 x1 b2 (omega arith) (omega arith) (omega arith)) (
          rw (or_byte 32 x2 b3 (omega arith) (omega arith) (omega arith)) (
            rw (or_byte 24 x3 b4 (omega arith) (omega arith) (omega arith)) (
              rw (or_byte 16 x4 b5 (omega arith) (omega arith) (omega arith)) (
                rw (or_byte 8 x5 b6 (omega arith) (omega arith) (omega arith))
                  (bit_or_join 8 x6 b7 (omega arith) h7)))))))

-- The bytes of a uint64 put together again.
or_bytes_u64 :
    (u : ℕ)
    → IsU64 u
    → or_bytes
        (u / 2 ^ 56 % 256)
        (u / 2 ^ 48 % 256)
        (u / 2 ^ 40 % 256)
        (u / 2 ^ 32 % 256)
        (u / 2 ^ 24 % 256)
        (u / 2 ^ 16 % 256)
        (u / 2 ^ 8 % 256)
        (u % 256)
      ≡ u
or_bytes_u64 u h = omega (
  arith,
  or_bytes_lem (u / 2 ^ 56 % 256) (u / 2 ^ 48 % 256) (u / 2 ^ 40 % 256) (u / 2 ^ 32 % 256)
      (u / 2 ^ 24 % 256) (u / 2 ^ 16 % 256) (u / 2 ^ 8 % 256) (u % 256) (omega arith) (omega arith)
      (omega arith) (omega arith) (omega arith) (omega arith) (omega arith) (omega arith),
)

pub unmarshal-marshal_uint16 :
    {E : Type 0} (u : ℕ) (rest : List ℕ)
    → IsU16 u
    → unmarshal_uint16 {E = E} (marshal_uint16 [] u ++ rest) ≡ ok u
unfolding marshal_uint16 unmarshal_uint16
unmarshal-marshal_uint16 u rest h =
    ap ok (or16 (u / 2 ^ 8 % 256) (u % 256) (omega arith) (omega arith) ∙ omega arith)

pub unmarshal-marshal_uint32 :
    {E : Type 0} (u : ℕ) (rest : List ℕ)
    → IsU32 u
    → unmarshal_uint32 {E = E} (marshal_uint32 [] u ++ rest) ≡ ok u
unfolding marshal_uint32 unmarshal_uint32
unmarshal-marshal_uint32 u rest h = ap ok (
    or32 (u / 2 ^ 24 % 256) (u / 2 ^ 16 % 256) (u / 2 ^ 8 % 256) (u % 256) (omega arith)
      (omega arith) (omega arith) (omega arith)
    ∙ omega arith)

pub unmarshal-marshal_uint64 :
    {E : Type 0} (u : ℕ) (rest : List ℕ)
    → IsU64 u
    → unmarshal_uint64 {E = E} (marshal_uint64 [] u ++ rest) ≡ ok u
unfolding marshal_uint64 unmarshal_uint64
unmarshal-marshal_uint64 u rest h = ap ok (or_bytes_u64 u h)

pub unmarshal-marshal_int16 :
    {E : Type 0} (v : ℕ) (rest : List ℕ)
    → IsU16 v
    → unmarshal_int16 {E = E} (marshal_int16 [] v ++ rest) ≡ ok v
unfolding marshal_int16 unmarshal_int16
unmarshal-marshal_int16 v rest h = ap ok (ap (unzigzag 16) whole ∙ unzigzag-zigzag16 v h)
  where
    u : ℕ
    u = zigzag 16 v

    whole : bit_or (shl 16 (u / 2 ^ 8 % 256) 8) (u % 256) ≡ u
    whole =
        or16 (u / 2 ^ 8 % 256) (u % 256) (omega arith) (omega arith)
        ∙ omega (arith, zigzag16-lt v h)

-- `UnmarshalInt64` reads back every int64 that `MarshalInt64` appended, whatever follows it.
pub unmarshal-marshal_int64 :
    {E : Type 0} (v : ℕ) (rest : List ℕ)
    → IsU64 v
    → unmarshal_int64 {E = E} (marshal_int64 [] v ++ rest) ≡ ok v
unfolding marshal_int64 unmarshal_int64
unmarshal-marshal_int64 v rest h =
    ap ok (ap (unzigzag 64) (or_bytes_u64 (zigzag 64 v) (zigzag64-lt v h)) ∙ unzigzag-zigzag64 v h)
