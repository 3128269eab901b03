-- ===== src/Encoding/Array/Kind.antt =====
-- lib/encoding/encoding.go: the values of `MarshalType`.
use Prim.Native.Nat.{ℕ}

abbrev pub zstd_nearest_delta2 : ℕ
zstd_nearest_delta2 = 1

abbrev pub delta_const : ℕ
delta_const = 2

abbrev pub const : ℕ
const = 3

abbrev pub zstd_nearest_delta : ℕ
zstd_nearest_delta = 4

abbrev pub nearest_delta2 : ℕ
nearest_delta2 = 5

abbrev pub nearest_delta : ℕ
nearest_delta = 6
