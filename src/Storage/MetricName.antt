-- ===== src/Storage/MetricName.antt =====
-- lib/storage/metric_name.go: the name of a time series, its group and its tags. A method that
-- changes `mn` returns the new name. Slices of `mn` are not shared with another name, so a method
-- that filters `mn.Tags` in place is a filter. A Go string is its bytes, and a nil slice is empty.
-- `sortTags` orders by `sort.Sort`, which fixes no order between equal keys: it is not modelled, and
-- no method here calls it.
pub mod Laws
pub mod RoundTrip
pub mod Raw
use victoria_metrics.Base.{ℕ, zero, suc, ◌+◌, ◌%◌, ◌^◌, Bool, true, false, ◌&&◌, ◌||◌, not}
use victoria_metrics.Base.{List, [], ◌∷◌, ◌++◌, length, take, drop, ◌==◌, ltb, leb, if◌then◌else◌}
use victoria_metrics.Base.Outcome.{Outcome, ok, err, panic, ◌>>=◌}
use victoria_metrics.Encoding.Fixed.{marshal_uint16, unmarshal_uint16}
use victoria_metrics.Storage.TagValue.{Tag, TagError, marshal_tag_value, unmarshal_tag_value}
use victoria_metrics.Storage.TagValue.{
  marshal_tag, unmarshal_tag, bad_group, bad_tag, duplicate_key,
}

pub record MetricName : Type 0 where
  pub group : List ℕ
  pub tags : List Tag

-- `bytes.Equal`, and `==` on strings.
unfoldable pub equal : List ℕ → List ℕ → Bool
equal [] [] = true
equal (x ∷ xs) (y ∷ ys) = x == y && equal xs ys
equal _ _ = false

-- `metricGroupTagKey`
abbrev pub name_key : List ℕ
name_key = b'_' ∷ b'_' ∷ b'n' ∷ b'a' ∷ b'm' ∷ b'e' ∷ b'_' ∷ b'_' ∷ []

unfoldable pub has_tag : List (List ℕ) → List ℕ → Bool
unfolding equal
has_tag [] key = false
has_tag (t ∷ tags) key = if equal t key then true else has_tag tags key

pub add_tag : MetricName → List ℕ → List ℕ → MetricName
add_tag mn k v = record mn { tags = mn.tags ++ record { key = k; value = v } ∷ [] }

pub reset_metric_group : MetricName → MetricName
reset_metric_group mn = record mn { group = [] }

-- The tags that a loop with `if keep { mn.AddTagBytes(tag.Key, tag.Value) }` leaves.
pub keep_tags : (List ℕ → Bool) → List Tag → List Tag
keep_tags keep [] = []
keep_tags keep (tag ∷ tags) =
    let rest = keep_tags keep tags in if keep tag.key then tag ∷ rest else rest

pub remove_tags_on : MetricName → List (List ℕ) → MetricName
unfolding reset_metric_group keep_tags
remove_tags_on mn [] = record (reset_metric_group mn) { tags = [] }
remove_tags_on mn (t ∷ ts) =
    let mn' = if has_tag (t ∷ ts) name_key then mn else reset_metric_group mn in
    record mn' { tags = keep_tags (has_tag (t ∷ ts)) mn.tags }

pub remove_tag : MetricName → List ℕ → MetricName
unfolding reset_metric_group keep_tags equal
remove_tag mn k =
    if equal k name_key
    then reset_metric_group mn
    else record mn { tags = keep_tags (λ j. not (equal j k)) mn.tags }

pub remove_tags_ignoring : MetricName → List (List ℕ) → MetricName
unfolding reset_metric_group keep_tags
remove_tags_ignoring mn [] = mn
remove_tags_ignoring mn (t ∷ ts) =
    let mn' = if has_tag (t ∷ ts) name_key then reset_metric_group mn else mn in
    record mn' { tags = keep_tags (λ j. not (has_tag (t ∷ ts) j)) mn.tags }

pub first_value : List ℕ → List Tag → List ℕ
first_value k [] = []
first_value k (tag ∷ tags) = if equal tag.key k then tag.value else first_value k tags

unfoldable pub get_tag_value : MetricName → List ℕ → List ℕ
unfolding equal first_value
get_tag_value mn k = if equal k name_key then mn.group else first_value k mn.tags

-- The inner loop of `AddMissingTags`: is the key among `tags`?
pub found_key : List ℕ → List Tag → Bool
found_key k [] = false
found_key k (tag ∷ tags) = if equal tag.key k then true else found_key k tags

-- Its outer loop over `src.Tags`.
pub add_missing : List (List ℕ) → List Tag → List Tag → List Tag
add_missing add tags [] = tags
add_missing add tags (s ∷ src) =
    add_missing add
      (if has_tag add s.key && not (found_key s.key tags) then tags ++ s ∷ [] else tags) src

pub add_missing_tags : MetricName → List (List ℕ) → MetricName → MetricName
unfolding found_key add_missing
add_missing_tags mn add src = record {
  group = if has_tag add name_key then src.group else mn.group;
  tags = add_missing add mn.tags src.tags;
}

pub marshal_tags : List ℕ → List Tag → List ℕ
marshal_tags dst [] = dst
marshal_tags dst (tag ∷ tags) = marshal_tags (marshal_tag dst tag) tags

-- `Marshal`: the group, then the tags. Sizing `dst` beforehand changes no byte.
unfoldable pub marshal : List ℕ → MetricName → List ℕ
unfolding marshal_tags
marshal dst mn = marshal_tags (marshal_tag_value dst mn.group) mn.tags

-- The loop `for len(src) > 0`. Every tag takes a byte at least, so `len(src)` rounds are enough.
pub unmarshal_tags : ℕ → List ℕ → Outcome TagError (List Tag)
unmarshal_tags fuel [] = ok []
unmarshal_tags zero (_ ∷ _) = panic
unmarshal_tags (suc fuel) (x ∷ src) = elim (unmarshal_tag (x ∷ src)) [
  | err e ↦ err (bad_tag e)
  | panic ↦ panic
  | ok (tail, tag) ↦ unmarshal_tags fuel tail >>= λ tags. ok (tag ∷ tags)
]

-- Is a key equal to the one before it? The first such key.
unfoldable pub check_keys : List ℕ → List Tag → Outcome TagError (Unit {0})
check_keys prev [] = ok tt
check_keys prev (t ∷ tags) =
    if equal t.key prev then err (duplicate_key prev) else check_keys t.key tags

unfoldable pub check_tags : List Tag → Outcome TagError (Unit {0})
unfolding check_keys
check_tags [] = ok tt
check_tags (t ∷ tags) = check_keys t.key tags

unfoldable pub unmarshal : List ℕ → Outcome TagError MetricName
unfolding unmarshal_tags check_tags
unmarshal src = elim (unmarshal_tag_value [] src) [
  | err e ↦ err (bad_group e)
  | panic ↦ panic
  | ok (tail, g) ↦ unmarshal_tags (length tail) tail >>= λ tags.
      check_tags tags >>= λ _. ok (record { group = g; tags = tags })
]
