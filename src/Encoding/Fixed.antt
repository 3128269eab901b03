-- ===== src/Encoding/Fixed.antt =====
-- lib/encoding/int.go: integers of fixed width, big endian, with zig-zag for the signed ones.
-- Go panics on an index out of range, so `_ = src[7]` is the `panic` of a short source.
pub mod ZigZag
pub mod RoundTrip
use victoria_metrics.Base.{ℕ, ◌+◌, ◌-◌, ◌*◌, ◌/◌, ◌%◌, ◌^◌, bit_or, bit_xor, List, [], ◌∷◌, ◌++◌}
use victoria_metrics.Base.Words.{shl, sar}
use victoria_metrics.Base.Outcome.{Outcome, ok, panic}

-- `byte(u)`
abbrev byte : ℕ → ℕ
byte u = u % 256

unfoldable pub marshal_uint16 : List ℕ → ℕ → List ℕ
marshal_uint16 dst u = dst ++ byte (u / 2 ^ 8) ∷ byte u ∷ []

unfoldable pub unmarshal_uint16 : {E : Type 0} → List ℕ → Outcome E ℕ
unmarshal_uint16 (b0 ∷ b1 ∷ _) = ok (bit_or (shl 16 b0 8) b1)
unmarshal_uint16 _ = panic

unfoldable pub marshal_uint32 : List ℕ → ℕ → List ℕ
marshal_uint32 dst u = dst ++ byte (u / 2 ^ 24) ∷ byte (u / 2 ^ 16) ∷ byte (u / 2 ^ 8) ∷ byte u ∷ []

unfoldable pub unmarshal_uint32 : {E : Type 0} → List ℕ → Outcome E ℕ
unmarshal_uint32 (b0 ∷ b1 ∷ b2 ∷ b3 ∷ _) =
    ok (bit_or (bit_or (bit_or (shl 32 b0 24) (shl 32 b1 16)) (shl 32 b2 8)) b3)
unmarshal_uint32 _ = panic

unfoldable pub marshal_uint64 : List ℕ → ℕ → List ℕ
marshal_uint64 dst u =
    dst
    ++ byte (u / 2 ^ 56)
      ∷ byte (u / 2 ^ 48)
      ∷ byte (u / 2 ^ 40)
      ∷ byte (u / 2 ^ 32)
      ∷ byte (u / 2 ^ 24)
      ∷ byte (u / 2 ^ 16)
      ∷ byte (u / 2 ^ 8)
      ∷ byte u
      ∷ []

-- `uint64(b0)<<56 | uint64(b1)<<48 | … | uint64(b7)`
unfoldable pub or_bytes : ℕ → ℕ → ℕ → ℕ → ℕ → ℕ → ℕ → ℕ → ℕ
or_bytes b0 b1 b2 b3 b4 b5 b6 b7 =
    let x2 = bit_or (bit_or (shl 64 b0 56) (shl 64 b1 48)) (shl 64 b2 40) in
    let x4 = bit_or (bit_or x2 (shl 64 b3 32)) (shl 64 b4 24) in
    bit_or (bit_or (bit_or x4 (shl 64 b5 16)) (shl 64 b6 8)) b7

unfoldable pub unmarshal_uint64 : {E : Type 0} → List ℕ → Outcome E ℕ
unmarshal_uint64 (b0 ∷ b1 ∷ b2 ∷ b3 ∷ b4 ∷ b5 ∷ b6 ∷ b7 ∷ _) = ok (or_bytes b0 b1 b2 b3 b4 b5 b6 b7)
unmarshal_uint64 _ = panic

-- `(v << 1) ^ (v >> (w - 1))` on a signed `v` of `w` bits.
unfoldable pub zigzag : ℕ → ℕ → ℕ
zigzag w v = bit_xor (shl w v 1) (sar w v (w - 1))

-- `int(u >> 1) ^ (int(u << (w - 1)) >> (w - 1))` on an unsigned `u` of `w` bits.
unfoldable pub unzigzag : ℕ → ℕ → ℕ
unzigzag w u = bit_xor (u / 2 ^ 1) (sar w (shl w u (w - 1)) (w - 1))

unfoldable pub marshal_int16 : List ℕ → ℕ → List ℕ
marshal_int16 dst v = let u = zigzag 16 v in dst ++ byte (u / 2 ^ 8) ∷ byte u ∷ []

unfoldable pub unmarshal_int16 : {E : Type 0} → List ℕ → Outcome E ℕ
unmarshal_int16 (b0 ∷ b1 ∷ _) = ok (unzigzag 16 (bit_or (shl 16 b0 8) b1))
unmarshal_int16 _ = panic

unfoldable pub marshal_int64 : List ℕ → ℕ → List ℕ
unfolding marshal_uint64
marshal_int64 dst v = marshal_uint64 dst (zigzag 64 v)

unfoldable pub unmarshal_int64 : {E : Type 0} → List ℕ → Outcome E ℕ
unmarshal_int64 (b0 ∷ b1 ∷ b2 ∷ b3 ∷ b4 ∷ b5 ∷ b6 ∷ b7 ∷ _) =
    ok (unzigzag 64 (or_bytes b0 b1 b2 b3 b4 b5 b6 b7))
unmarshal_int64 _ = panic
