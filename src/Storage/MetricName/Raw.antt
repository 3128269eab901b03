-- ===== src/Storage/MetricName/Raw.antt =====
-- lib/storage/metric_name.go: the labels of an inserted row as bytes, `MarshalMetricNameRaw` and
-- `unmarshalRaw`. Go changes the labels in place while it sizes `dst`; here `fit_label` is the label
-- after that, and the second loop reads it.
pub mod Named
pub mod Trip
use victoria_metrics.Base.{ℕ, zero, suc, ◌+◌, ◌%◌, ◌^◌, ◌*◌, Bool, true, false}
use victoria_metrics.Base.{List, [], ◌∷◌, ◌++◌, length, take, drop, ◌==◌, ltb, if◌then◌else◌}
use victoria_metrics.Base.Outcome.{Outcome, ok, err, panic, ◌>>=◌}
use victoria_metrics.Encoding.Fixed.{marshal_uint16, unmarshal_uint16}
use victoria_metrics.Storage.MetricName.{MetricName, equal, name_key, add_tag}

pub data RawError : Type 0 where
  no_size short_src : RawError
  bad_key bad_value : RawError → RawError

-- `prompb.Label`
pub record Label : Type 0 where
  pub name : List ℕ
  pub value : List ℕ

abbrev pub max_label_name_len : ℕ
max_label_name_len = 256

abbrev pub max_label_value_len : ℕ
max_label_value_len = 16 * 1024

abbrev pub max_labels_per_timeseries : ℕ
max_labels_per_timeseries = 30

-- `if len(b) > max { b = b[:max] }`
pub clip : ℕ → List ℕ → List ℕ
clip max b = if ltb max (length b) then take max b else b

pub fit_label : Label → Label
unfolding clip equal
fit_label l =
    let name = clip max_label_name_len l.name in
    let value = clip max_label_value_len l.value in
    record {
      name = if length value == 0 then name else if equal name name_key then [] else name;
      value = value;
    }

pub marshal_bytes_fast : List ℕ → List ℕ → List ℕ
marshal_bytes_fast dst s = marshal_uint16 dst (length s % 2 ^ 16) ++ s

-- The second loop, over labels that fit.
pub marshal_labels : List ℕ → List Label → List ℕ
unfolding marshal_bytes_fast
marshal_labels dst [] = dst
marshal_labels dst (l ∷ ls) =
    marshal_labels
      (if length l.value == 0
        then dst
        else marshal_bytes_fast (marshal_bytes_fast dst l.name) l.value)
      ls

pub fit_labels : ℕ → List Label → List Label
unfolding fit_label
fit_labels zero ls = []
fit_labels (suc n) [] = []
fit_labels (suc n) (l ∷ ls) = fit_label l ∷ fit_labels n ls

unfoldable pub marshal_metric_name_raw : List ℕ → List Label → List ℕ
unfolding marshal_labels fit_labels
marshal_metric_name_raw dst labels =
    marshal_labels dst (fit_labels max_labels_per_timeseries labels)

-- The tail and the bytes.
pub unmarshal_bytes_fast : List ℕ → Outcome RawError (List ℕ × List ℕ)
unmarshal_bytes_fast src = if ltb (length src) 2 then err no_size else (do
  n ← unmarshal_uint16 src
  let tail = drop 2 src
  if ltb (length tail) n then err short_src else ok (drop n tail, take n tail))

-- What one decoded pair does to the name.
pub store_pair : MetricName → List ℕ → List ℕ → MetricName
unfolding add_tag
store_pair mn [] v = record mn { group = v }
store_pair mn (x ∷ k) v = add_tag mn (x ∷ k) v

-- The loop `for len(src) > 0`. Every pair takes four bytes at least.
pub unmarshal_pairs : ℕ → MetricName → List ℕ → Outcome RawError MetricName
unmarshal_pairs fuel mn [] = ok mn
unmarshal_pairs zero mn (_ ∷ _) = panic
unmarshal_pairs (suc fuel) mn (x ∷ src) = elim (unmarshal_bytes_fast (x ∷ src)) [
  | err e ↦ err (bad_key e)
  | panic ↦ panic
  | ok (tail, k) ↦ elim (unmarshal_bytes_fast tail) [
    | err e ↦ err (bad_value e)
    | panic ↦ panic
    | ok (tail', v) ↦ unmarshal_pairs fuel (store_pair mn k v) tail'
  ]
]

unfoldable pub unmarshal_raw : List ℕ → Outcome RawError MetricName
unfolding unmarshal_bytes_fast store_pair unmarshal_pairs
unmarshal_raw src = unmarshal_pairs (length src) (record { group = []; tags = [] }) src
