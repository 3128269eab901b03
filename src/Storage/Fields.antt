-- ===== src/Storage/Fields.antt =====
-- lib/storage: the fields of a fixed-width row, `x = encoding.UnmarshalUint64(src); src = src[8:]`
-- and its like. A reader gives the value and the rest; a source that is too short is a panic.
use mathlib.Core.List.{append_assoc}
use victoria_metrics.Base.{ℕ, ◌+◌, ◌≡◌, refl, ap, ◌∙◌, arith, List, [], ◌∷◌, ◌++◌, length, drop}
use victoria_metrics.Base.Outcome.{Outcome, ok, panic, ◌>>=◌}
use victoria_metrics.Base.Words.{IsU16, IsU32, IsU64}
use victoria_metrics.Encoding.Fixed.{
  marshal_uint32, unmarshal_uint32, marshal_uint64, unmarshal_uint64,
}
use victoria_metrics.Encoding.Fixed.{
  marshal_int16, unmarshal_int16, marshal_int64, unmarshal_int64, zigzag,
}
use victoria_metrics.Encoding.Fixed.RoundTrip.{unmarshal-marshal_uint32, unmarshal-marshal_uint64}
use victoria_metrics.Encoding.Fixed.RoundTrip.{unmarshal-marshal_int16, unmarshal-marshal_int64}

module _ {E : Type 0} where
  unfoldable pub take_uint64 : List ℕ → Outcome E (ℕ × List ℕ)
  take_uint64 src = unmarshal_uint64 src >>= λ v. ok (v, drop 8 src)

  unfoldable pub take_uint32 : List ℕ → Outcome E (ℕ × List ℕ)
  take_uint32 src = unmarshal_uint32 src >>= λ v. ok (v, drop 4 src)

  unfoldable pub take_int64 : List ℕ → Outcome E (ℕ × List ℕ)
  take_int64 src = unmarshal_int64 src >>= λ v. ok (v, drop 8 src)

  unfoldable pub take_int16 : List ℕ → Outcome E (ℕ × List ℕ)
  take_int16 src = unmarshal_int16 src >>= λ v. ok (v, drop 2 src)

  unfoldable pub take_byte : List ℕ → Outcome E (ℕ × List ℕ)
  take_byte [] = panic
  take_byte (b ∷ src) = ok (b, src)

-- A bind whose first part is known.
module _ {ℓ κ} {E : Type 0} {A : Type ℓ} {B : Type κ} where
  pub then_ok :
      {m : Outcome E A} {a : A} (f : A → Outcome E B) {r : Outcome E B}
      → m ≡ ok a
      → f a ≡ r
      → (m >>= f) ≡ r
  then_ok f h k = ap (λ o. o >>= f) h ∙ k

pub drop_uint64 : (v : ℕ) (rest : List ℕ) → drop 8 (marshal_uint64 [] v ++ rest) ≡ rest
unfolding marshal_uint64
drop_uint64 v rest = refl

drop_uint32 : (v : ℕ) (rest : List ℕ) → drop 4 (marshal_uint32 [] v ++ rest) ≡ rest
unfolding marshal_uint32
drop_uint32 v rest = refl

drop_int64 : (v : ℕ) (rest : List ℕ) → drop 8 (marshal_int64 [] v ++ rest) ≡ rest
unfolding marshal_int64 marshal_uint64
drop_int64 v rest = refl

drop_int16 : (v : ℕ) (rest : List ℕ) → drop 2 (marshal_int16 [] v ++ rest) ≡ rest
unfolding marshal_int16
drop_int16 v rest = refl

module _ {E : Type 0} where
  pub take-uint64 :
      (v : ℕ) (rest : List ℕ)
      → IsU64 v
      → take_uint64 {E = E} (marshal_uint64 [] v ++ rest) ≡ ok (v, rest)
  unfolding take_uint64
  take-uint64 v rest h =
      rw (unmarshal-marshal_uint64 {E = E} v rest h) (ap (λ l. ok (v, l)) (drop_uint64 v rest))

  pub take-uint32 :
      (v : ℕ) (rest : List ℕ)
      → IsU32 v
      → take_uint32 {E = E} (marshal_uint32 [] v ++ rest) ≡ ok (v, rest)
  unfolding take_uint32
  take-uint32 v rest h =
      rw (unmarshal-marshal_uint32 {E = E} v rest h) (ap (λ l. ok (v, l)) (drop_uint32 v rest))

  pub take-int64 :
      (v : ℕ) (rest : List ℕ)
      → IsU64 v
      → take_int64 {E = E} (marshal_int64 [] v ++ rest) ≡ ok (v, rest)
  unfolding take_int64
  take-int64 v rest h =
      rw (unmarshal-marshal_int64 {E = E} v rest h) (ap (λ l. ok (v, l)) (drop_int64 v rest))

  pub take-int16 :
      (v : ℕ) (rest : List ℕ)
      → IsU16 v
      → take_int16 {E = E} (marshal_int16 [] v ++ rest) ≡ ok (v, rest)
  unfolding take_int16
  take-int16 v rest h =
      rw (unmarshal-marshal_int16 {E = E} v rest h) (ap (λ l. ok (v, l)) (drop_int16 v rest))

  pub take-byte : (v : ℕ) (rest : List ℕ) → take_byte {E = E} (v ∷ rest) ≡ ok (v, rest)
  unfolding take_byte
  take-byte v rest = refl

-- What a writer appends does not depend on what is there.
pub push_uint64 :
    (dst : List ℕ) (v : ℕ) (rest : List ℕ)
    → marshal_uint64 dst v ++ rest ≡ dst ++ (marshal_uint64 [] v ++ rest)
unfolding marshal_uint64
push_uint64 dst v rest = append_assoc dst _ rest

pub push_uint32 :
    (dst : List ℕ) (v : ℕ) (rest : List ℕ)
    → marshal_uint32 dst v ++ rest ≡ dst ++ (marshal_uint32 [] v ++ rest)
unfolding marshal_uint32
push_uint32 dst v rest = append_assoc dst _ rest

pub push_int64 :
    (dst : List ℕ) (v : ℕ) (rest : List ℕ)
    → marshal_int64 dst v ++ rest ≡ dst ++ (marshal_int64 [] v ++ rest)
unfolding marshal_int64
push_int64 dst v rest = push_uint64 dst _ rest

pub push_int16 :
    (dst : List ℕ) (v : ℕ) (rest : List ℕ)
    → marshal_int16 dst v ++ rest ≡ dst ++ (marshal_int16 [] v ++ rest)
unfolding marshal_int16
push_int16 dst v rest = append_assoc dst _ rest

pub length-uint64 : (v : ℕ) (rest : List ℕ) → length (marshal_uint64 [] v ++ rest) ≡ 8 + length rest
unfolding marshal_uint64
length-uint64 v rest = omega arith

pub length-uint32 : (v : ℕ) (rest : List ℕ) → length (marshal_uint32 [] v ++ rest) ≡ 4 + length rest
unfolding marshal_uint32
length-uint32 v rest = omega arith

pub length-int64 : (v : ℕ) (rest : List ℕ) → length (marshal_int64 [] v ++ rest) ≡ 8 + length rest
unfolding marshal_int64
length-int64 v rest = omega (arith, length-uint64 (zigzag 64 v) rest)

pub length-int16 : (v : ℕ) (rest : List ℕ) → length (marshal_int16 [] v ++ rest) ≡ 2 + length rest
unfolding marshal_int16
length-int16 v rest = omega arith
