-- ===== src/Storage/Examples.antt =====
-- Runs of the storage's codecs on small inputs, and the theorems at such inputs.
use victoria_metrics.Base.{ℕ, ◌≢◌, ◌≡◌, refl, List, [], ◌∷◌, ◌++◌}
use victoria_metrics.Base.Outcome.{ok, err, panic, ◌>>=◌}
use victoria_metrics.Storage.TagValue.{marshal_tag_value, unmarshal_tag_value, duplicate_key}
use victoria_metrics.Storage.TagValue.RoundTrip.{unmarshal-marshal_tag_value}
use victoria_metrics.Storage.TagValue.Ends.{Ends, unmarshal_tag_value-Ends}
use victoria_metrics.Storage.MetricName.{MetricName, marshal, unmarshal, check_tags}
use victoria_metrics.Storage.MetricName.{equal, name_key, check_keys}
use victoria_metrics.Storage.MetricName.Laws.{}
use victoria_metrics.Storage.MetricName.RoundTrip.{unmarshal-marshal, unmarshal-ne-panic}
use victoria_metrics.Storage.MetricName.Raw.{Label, marshal_metric_name_raw, unmarshal_raw}
use victoria_metrics.Storage.MetricName.Raw.Trip.{unmarshal_raw-marshal_metric_name_raw}
use victoria_metrics.Storage.MetricName.Raw.Named.{name_of}

abbrev job : List ℕ
job = b'j' ∷ b'o' ∷ b'b' ∷ []

abbrev zone : List ℕ
zone = b'z' ∷ []

-- A value with a separator and the escape character in it.
abbrev odd_value : List ℕ
odd_value = 7 ∷ 1 ∷ 0 ∷ 9 ∷ []

abbrev up : MetricName
up = record {
  group = b'u' ∷ b'p' ∷ [];
  tags = record { key = job; value = odd_value } ∷ record { key = zone; value = 5 ∷ [] } ∷ [];
}

abbrev down : MetricName
down = record { group = b'd' ∷ []; tags = record { key = zone; value = 6 ∷ [] } ∷ [] }

abbrev bare : MetricName
bare = record { group = []; tags = [] }

-- Keys that are equal but not in a row pass the test.
apart_run :
    check_tags (
      record { key = job; value = [] }
      ∷ record { key = zone; value = [] }
      ∷ record { key = job; value = [] }
      ∷ [])
    ≡ ok tt
unfolding check_tags check_keys equal
apart_run = refl

adjacent_run :
    check_tags (record { key = job; value = [] } ∷ record { key = job; value = [] } ∷ [])
    ≡ err (duplicate_key job)
unfolding check_tags check_keys equal
adjacent_run = refl

unmarshal-marshal_tag_value_example :
    unmarshal_tag_value (3 ∷ []) (marshal_tag_value [] odd_value ++ 8 ∷ [])
    ≡ ok (8 ∷ [], 3 ∷ [] ++ odd_value)
unmarshal-marshal_tag_value_example = unmarshal-marshal_tag_value (3 ∷ []) odd_value (8 ∷ [])

unmarshal_tag_value-Ends_example :
    Ends (5 ∷ 0 ∷ b'7' ∷ 1 ∷ []) (unmarshal_tag_value [] (5 ∷ 0 ∷ b'7' ∷ 1 ∷ []))
unmarshal_tag_value-Ends_example = unmarshal_tag_value-Ends [] (5 ∷ 0 ∷ b'7' ∷ 1 ∷ [])

unmarshal-marshal_example : unmarshal (marshal [] up) ≡ (check_tags up.tags >>= λ _. ok up)
unmarshal-marshal_example = unmarshal-marshal up

unmarshal-ne-panic_example : unmarshal (5 ∷ 1 ∷ 6 ∷ []) ≢ panic
unmarshal-ne-panic_example = unmarshal-ne-panic (5 ∷ 1 ∷ 6 ∷ [])

-- The group, a label without a value, and a tag.
abbrev three_labels : List Label
three_labels =
    record { name = name_key; value = b'u' ∷ b'p' ∷ [] }
    ∷ record { name = zone; value = [] }
    ∷ record { name = job; value = odd_value }
    ∷ []

unmarshal_raw-marshal_metric_name_raw_example :
    unmarshal_raw (marshal_metric_name_raw [] three_labels) ≡ ok (name_of three_labels)
unmarshal_raw-marshal_metric_name_raw_example = unmarshal_raw-marshal_metric_name_raw three_labels

name_of_run :
    name_of three_labels
    ≡ record { group = b'u' ∷ b'p' ∷ []; tags = record { key = job; value = odd_value } ∷ [] }
unfolding equal
name_of_run = refl
