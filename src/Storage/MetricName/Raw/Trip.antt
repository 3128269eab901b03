-- ===== src/Storage/MetricName/Raw/Trip.antt =====
-- `unmarshalRaw` reads what `MarshalMetricNameRaw` writes.
use mathlib.Core.List.{append_assoc, append-nil}
use victoria_metrics.Base.{
  ℕ, zero, suc, ◌+◌, ◌%◌, ◌^◌, ◌≤◌, ◌<◌, ◌≡◌, refl, sym, ap, ap₂, ◌∙◌, arith,
}
use victoria_metrics.Base.{
  Bool, true, false, List, [], ◌∷◌, ◌++◌, length, length-append, take, drop, ◌==◌,
}
use victoria_metrics.Base.{
  if◌then◌else◌, take-append, drop-append, All, Bool-cases, inl, inr, le→ltb,
}
use victoria_metrics.Base.Outcome.{ok}
use victoria_metrics.Encoding.Fixed.{marshal_uint16, unmarshal_uint16}
use victoria_metrics.Encoding.Fixed.RoundTrip.{unmarshal-marshal_uint16}
use victoria_metrics.Storage.MetricName.{MetricName, equal, name_key}
use victoria_metrics.Storage.MetricName.Raw.Named.{named_by, name_of, named_by-name_of}
use victoria_metrics.Storage.MetricName.Raw.{Label, RawError, clip, fit_label, fit_labels}
use victoria_metrics.Storage.MetricName.Raw.{
  marshal_bytes_fast, unmarshal_bytes_fast, marshal_labels,
}
use victoria_metrics.Storage.MetricName.Raw.{store_pair, unmarshal_pairs, unmarshal_raw}
use victoria_metrics.Storage.MetricName.Raw.{marshal_metric_name_raw}

marshal_uint16-append : (dst : List ℕ) (u : ℕ) → marshal_uint16 dst u ≡ dst ++ marshal_uint16 [] u
unfolding marshal_uint16
marshal_uint16-append dst u = refl

marshal_bytes_fast-append :
    (dst s : List ℕ) → marshal_bytes_fast dst s ≡ dst ++ marshal_bytes_fast [] s
unfolding marshal_bytes_fast
marshal_bytes_fast-append dst s =
    ap (λ (l : List ℕ). l ++ s) (marshal_uint16-append dst (length s % 2 ^ 16))
    ∙ append_assoc dst (marshal_uint16 [] (length s % 2 ^ 16)) s

two_bytes : (u : ℕ) (rest : List ℕ) → drop 2 (marshal_uint16 [] u ++ rest) ≡ rest
unfolding marshal_uint16
two_bytes u rest = refl

length-two_bytes : (u : ℕ) (rest : List ℕ) → length (marshal_uint16 [] u ++ rest) ≡ 2 + length rest
unfolding marshal_uint16
length-two_bytes u rest = omega arith

unmarshal_bytes_fast_lem :
    (src tail : List ℕ) (n : ℕ)
    → 2 ≤ length src
    → unmarshal_uint16 {E = RawError} src ≡ ok n
    → drop 2 src ≡ tail
    → n ≤ length tail
    → unmarshal_bytes_fast src ≡ ok (drop n tail, take n tail)
unfolding unmarshal_bytes_fast
unmarshal_bytes_fast_lem src tail n long e d h =
    rw (le→ltb (length src) 2 long) (rw (e, d) (rw (le→ltb (length tail) n h)))

unmarshal-marshal_bytes_fast :
    (s rest : List ℕ)
    → length s < 2 ^ 16
    → unmarshal_bytes_fast (marshal_bytes_fast [] s ++ rest) ≡ ok (rest, s)
unfolding marshal_bytes_fast
unmarshal-marshal_bytes_fast s rest h =
    let n = length s % 2 ^ 16 in
    let same : n ≡ length s = omega arith in
    rw (append_assoc (marshal_uint16 [] n) s rest) (
      unmarshal_bytes_fast_lem (marshal_uint16 [] n ++ (s ++ rest)) (s ++ rest) n
        (omega (arith, length-two_bytes n (s ++ rest)))
        (unmarshal-marshal_uint16 n (s ++ rest) (omega arith)) (two_bytes n (s ++ rest))
        (omega (arith, length-append s rest))
      ∙ rw same (ap₂ (λ (t h : List ℕ). ok (t, h)) (drop-append s rest) (take-append s rest)))

-- A label's bytes, none without a value.
abbrev pair : Label → List ℕ
pair l =
    if length l.value == 0
    then []
    else marshal_bytes_fast [] l.name ++ marshal_bytes_fast [] l.value

abbrev pairs : List Label → List ℕ
pairs [] = []
pairs (l ∷ ls) = pair l ++ pairs ls

pair-append :
    (dst : List ℕ) (l : Label)
    → (if length l.value == 0
        then dst
        else marshal_bytes_fast (marshal_bytes_fast dst l.name) l.value)
      ≡ dst ++ pair l
pair-append dst l = elim (Bool-cases (length l.value == 0)) [
  | inl none ↦ rw none (sym (append-nil dst))
  | inr some ↦ rw some (
      marshal_bytes_fast-append (marshal_bytes_fast dst l.name) l.value
      ∙ ap (λ (b : List ℕ). b ++ marshal_bytes_fast [] l.value)
          (marshal_bytes_fast-append dst l.name)
      ∙ append_assoc dst (marshal_bytes_fast [] l.name) (marshal_bytes_fast [] l.value))
]

marshal_labels-pairs : (dst : List ℕ) (ls : List Label) → marshal_labels dst ls ≡ dst ++ pairs ls
unfolding marshal_labels
marshal_labels-pairs dst [] = sym (append-nil dst)
marshal_labels-pairs dst (l ∷ ls) =
    marshal_labels-pairs
      (if length l.value == 0
        then dst
        else marshal_bytes_fast (marshal_bytes_fast dst l.name) l.value)
      ls
    ∙ ap (λ (b : List ℕ). b ++ pairs ls) (pair-append dst l)
    ∙ append_assoc dst (pair l) (pairs ls)

-- The sizes fit an uint16.
abbrev IsFit : Label → Type 0
IsFit l = (length l.name < 2 ^ 16) × (length l.value < 2 ^ 16)

length-take_le : (n : ℕ) (b : List ℕ) → length (take n b) ≤ n
length-take_le zero b = omega arith
length-take_le (suc n) [] = omega arith
length-take_le (suc n) (x ∷ b) = omega (arith, length-take_le n b)

length-clip : (max : ℕ) (b : List ℕ) → length (clip max b) ≤ max
unfolding clip
length-clip max b = ground (arith, length-take_le max b)

chosen :
    (b c : Bool) (n : List ℕ)
    → length n < 2 ^ 16
    → length (if b then n else if c then [] else n) < 2 ^ 16
chosen true c n h = h
chosen false true n h = omega arith
chosen false false n h = h

fit_label-IsFit : (l : Label) → IsFit (fit_label l)
unfolding fit_label
fit_label-IsFit l =
    let name = clip 256 l.name in
    (
      chosen (length (clip 16384 l.value) == 0) (equal name name_key) name
          (omega (arith, length-clip 256 l.name)),
      omega (arith, length-clip 16384 l.value),
    )

fit_labels-All : (n : ℕ) (ls : List Label) → All IsFit (fit_labels n ls)
unfolding fit_labels
fit_labels-All zero ls = tt
fit_labels-All (suc n) [] = tt
fit_labels-All (suc n) (l ∷ ls) = (fit_label-IsFit l, fit_labels-All n ls)

unmarshal_pairs_step :
    (fuel : ℕ) (mn : MetricName) (src mid tail k v : List ℕ)
    → 0 < length src
    → unmarshal_bytes_fast src ≡ ok (mid, k)
    → unmarshal_bytes_fast mid ≡ ok (tail, v)
    → unmarshal_pairs (suc fuel) mn src ≡ unmarshal_pairs fuel (store_pair mn k v) tail
unfolding unmarshal_pairs
unmarshal_pairs_step fuel mn [] mid tail k v h e f = absurd (omega arith)
unmarshal_pairs_step fuel mn (x ∷ src) mid tail k v h e f =
    rw (e, unmarshal_pairs) (rw (f, unmarshal_pairs))

length-marshal_bytes_fast : (s : List ℕ) → length (marshal_bytes_fast [] s) ≡ 2 + length s
unfolding marshal_bytes_fast marshal_uint16
length-marshal_bytes_fast s = omega arith

unmarshal_pairs-pair :
    (fuel : ℕ) (mn : MetricName) (l : Label) (rest : List ℕ)
    → IsFit l
    → (length l.value == 0) ≡ false
    → unmarshal_pairs (suc fuel) mn (pair l ++ rest)
      ≡ unmarshal_pairs fuel (store_pair mn l.name l.value) rest
unmarshal_pairs-pair fuel mn l rest fit some =
    let name = marshal_bytes_fast [] l.name in
    let value = marshal_bytes_fast [] l.value in
    rw (some, append_assoc name value rest)
      (unmarshal_pairs_step fuel mn (name ++ (value ++ rest)) (value ++ rest) rest l.name l.value
        (omega (arith, length-append name (value ++ rest), length-marshal_bytes_fast l.name))
        (unmarshal-marshal_bytes_fast l.name (value ++ rest) fit.0)
        (unmarshal-marshal_bytes_fast l.value rest fit.1))

unmarshal_pairs-done : (fuel : ℕ) (mn : MetricName) → unmarshal_pairs fuel mn [] ≡ ok mn
unfolding unmarshal_pairs
unmarshal_pairs-done zero mn = refl
unmarshal_pairs-done (suc fuel) mn = refl

pair_takes : (l : Label) → (length l.value == 0) ≡ false → 1 ≤ length (pair l)
pair_takes l some = rw some (
    omega (
      arith,
      length-append (marshal_bytes_fast [] l.name) (marshal_bytes_fast [] l.value),
      length-marshal_bytes_fast l.name,
    ))

unmarshal-pairs :
    (fuel : ℕ) (mn : MetricName) (ls : List Label)
    → All IsFit ls
    → length (pairs ls) ≤ fuel
    → unmarshal_pairs fuel mn (pairs ls) ≡ ok (named_by mn ls)
unfolding named_by
unmarshal-pairs fuel mn [] fit h = unmarshal_pairs-done fuel mn
unmarshal-pairs zero mn (l ∷ ls) fit h = elim (Bool-cases (length l.value == 0)) [
  | inl none ↦ rw none (unmarshal-pairs zero mn ls fit.1 (rw none at h))
  | inr some ↦ absurd (omega (arith, pair_takes l some, length-append (pair l) (pairs ls)))
]
unmarshal-pairs (suc fuel) mn (l ∷ ls) fit h = elim (Bool-cases (length l.value == 0)) [
  | inl none ↦ rw none (unmarshal-pairs (suc fuel) mn ls fit.1 (rw none at h))
  | inr some ↦
      unmarshal_pairs-pair fuel mn l (pairs ls) fit.0 some
      ∙ unmarshal-pairs fuel (store_pair mn l.name l.value) ls fit.1
          (omega (arith, pair_takes l some, length-append (pair l) (pairs ls)))
      ∙ rw some
]

-- For every list of labels, `unmarshalRaw` reads from the bytes of `MarshalMetricNameRaw` the name
-- `name_of`, which is built from the first 30 labels, cut to 256 bytes of name and 16 KB of value, and
-- of these from those that then have a value: the group is the last value under the empty name or
-- `__name__` (empty if there is none), and the others are the tags in their order.
pub unmarshal_raw-marshal_metric_name_raw :
    (labels : List Label) → unmarshal_raw (marshal_metric_name_raw [] labels) ≡ ok (name_of labels)
unfolding unmarshal_raw marshal_metric_name_raw
unmarshal_raw-marshal_metric_name_raw labels =
    let ls = fit_labels 30 labels in
    rw (marshal_labels-pairs [] ls) (
      unmarshal-pairs (length (pairs ls)) (record { group = []; tags = [] }) ls
        (fit_labels-All 30 labels) (omega arith)
      ∙ ap ok (named_by-name_of labels))
