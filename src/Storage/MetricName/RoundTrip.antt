-- ===== src/Storage/MetricName/RoundTrip.antt =====
-- A name is read back, unless two tags in a row have one key; and reading always ends.
use mathlib.Core.List.{append_assoc, append-nil}
use victoria_metrics.Base.{ℕ, zero, suc, ◌≤◌, ◌<◌, ◌≡◌, ◌≢◌, refl, sym, ap, ◌∙◌, arith}
use victoria_metrics.Base.{List, [], ◌∷◌, ◌++◌, length}
use victoria_metrics.Base.Outcome.{Outcome, ok, err, panic, ◌>>=◌}
use victoria_metrics.Storage.TagValue.{Tag, TagError, marshal_tag, marshal_tag_value, unmarshal_tag}
use victoria_metrics.Storage.TagValue.{unmarshal_tag_value, bad_tag, bad_group}
use victoria_metrics.Storage.TagValue.RoundTrip.{marshal_tag-append}
use victoria_metrics.Storage.TagValue.RoundTrip.{unmarshal-marshal_tag, unmarshal-marshal_tag_value}
use victoria_metrics.Storage.TagValue.Ends.{Ends, unmarshal_tag-Ends, unmarshal_tag_value-Ends}
use victoria_metrics.Storage.MetricName.{
  MetricName, marshal_tags, unmarshal_tags, check_tags, check_keys,
}
use victoria_metrics.Storage.MetricName.{marshal, unmarshal}

-- All the tags' bytes.
abbrev all_tags : List Tag → List ℕ
all_tags [] = []
all_tags (tag ∷ tags) = marshal_tag [] tag ++ all_tags tags

marshal_tags_lem : (dst : List ℕ) (tags : List Tag) → marshal_tags dst tags ≡ dst ++ all_tags tags
unfolding marshal_tags
marshal_tags_lem dst [] = sym (append-nil dst)
marshal_tags_lem dst (tag ∷ tags) =
    marshal_tags_lem (marshal_tag dst tag) tags
    ∙ ap (λ (l : List ℕ). l ++ all_tags tags) (marshal_tag-append dst tag)
    ∙ append_assoc dst (marshal_tag [] tag) (all_tags tags)

unmarshal_tags_step :
    (fuel : ℕ) (src tail : List ℕ) (tag : Tag)
    → unmarshal_tag src ≡ ok (tail, tag)
    → length tail < length src
    → unmarshal_tags (suc fuel) src ≡ (unmarshal_tags fuel tail >>= λ tags. ok (tag ∷ tags))
unfolding unmarshal_tags
unmarshal_tags_step fuel [] tail tag e less = absurd (omega arith)
unmarshal_tags_step fuel (x ∷ src) tail tag e less = rw (e, unmarshal_tags)

tag_takes : (tag : Tag) (rest : List ℕ) → length rest < length (marshal_tag [] tag ++ rest)
tag_takes tag rest =
    rw (unmarshal-marshal_tag tag rest) at (unmarshal_tag-Ends (marshal_tag [] tag ++ rest))

unmarshal-all_tags :
    (fuel : ℕ) (tags : List Tag)
    → length (all_tags tags) ≤ fuel
    → unmarshal_tags fuel (all_tags tags) ≡ ok tags
unmarshal-all_tags zero [] h = unfold unmarshal_tags in refl
unmarshal-all_tags (suc fuel) [] h = unfold unmarshal_tags in refl
unmarshal-all_tags zero (tag ∷ tags) h = absurd (omega (arith, tag_takes tag (all_tags tags)))
unmarshal-all_tags (suc fuel) (tag ∷ tags) h =
    let less = tag_takes tag (all_tags tags) in
    rw
      (unmarshal_tags_step fuel (marshal_tag [] tag ++ all_tags tags) (all_tags tags) tag
        (unmarshal-marshal_tag tag (all_tags tags)) less)
      (rw (unmarshal-all_tags fuel tags (omega arith)))

unmarshal_lem :
    (src tail g : List ℕ)
    → unmarshal_tag_value [] src ≡ ok (tail, g)
    → unmarshal src ≡ (
        unmarshal_tags (length tail) tail >>= λ tags.
        check_tags tags >>= λ _. ok (record { group = g; tags = tags }))
unfolding unmarshal
unmarshal_lem src tail g e = rw (e, unmarshal)

-- `Unmarshal` gives back every name that `Marshal` wrote to an empty slice whose tags pass the test
-- for equal keys in a row, and the error of that test for every other name.
pub unmarshal-marshal :
    (mn : MetricName) → unmarshal (marshal [] mn) ≡ (check_tags mn.tags >>= λ _. ok mn)
unfolding marshal
unmarshal-marshal mn = rw (marshal_tags_lem (marshal_tag_value [] mn.group) mn.tags) (
    unmarshal_lem _ (all_tags mn.tags) mn.group
      (unmarshal-marshal_tag_value [] mn.group (all_tags mn.tags))
    ∙ rw (unmarshal-all_tags (length (all_tags mn.tags)) mn.tags (omega arith)))

more_tags :
    (List ℕ → Outcome TagError (List Tag))
    → Outcome TagError (List ℕ × Tag)
    → Outcome TagError (List Tag)
more_tags read m = elim m [
  | err e ↦ err (bad_tag e)
  | panic ↦ panic
  | ok (tail, tag) ↦ read tail >>= λ tags. ok (tag ∷ tags)
]

prepended :
    (tag : Tag) (m : Outcome TagError (List Tag))
    → m ≢ panic
    → (m >>= λ tags. ok (tag ∷ tags)) ≢ panic
prepended tag (ok tags) h = λ p. cc
prepended tag (err e) h = λ p. cc
prepended tag panic h = absurd (h refl)

by_tag :
    (read : List ℕ → Outcome TagError (List Tag)) (m : Outcome TagError (List ℕ × Tag))
    (src : List ℕ)
    → Ends src m
    → ((tail : List ℕ) → length tail < length src → read tail ≢ panic)
    → more_tags read m ≢ panic
unfolding more_tags
by_tag read (ok (tail, tag)) src h ih = prepended tag (read tail) (ih tail h)
by_tag read (err e) src h ih = λ p. cc
by_tag read panic src h ih = absurd h

unmarshal_tags-ne-panic :
    (fuel : ℕ) (src : List ℕ) → length src ≤ fuel → unmarshal_tags fuel src ≢ panic
unfolding unmarshal_tags more_tags
unmarshal_tags-ne-panic zero [] h = λ p. cc
unmarshal_tags-ne-panic (suc fuel) [] h = λ p. cc
unmarshal_tags-ne-panic zero (x ∷ src) h = absurd (omega arith)
unmarshal_tags-ne-panic (suc fuel) (x ∷ src) h =
    by_tag (unmarshal_tags fuel) (unmarshal_tag (x ∷ src)) (x ∷ src) (unmarshal_tag-Ends (x ∷ src))
      (λ tail less. unmarshal_tags-ne-panic fuel tail (omega arith))

check_keys-ne-panic : (prev : List ℕ) (tags : List Tag) → check_keys prev tags ≢ panic
unfolding check_keys
check_keys-ne-panic prev [] = λ p. cc
check_keys-ne-panic prev (t ∷ tags) = ground (arith, check_keys-ne-panic t.key tags)

check_tags-ne-panic : (tags : List Tag) → check_tags tags ≢ panic
unfolding check_tags
check_tags-ne-panic [] = λ p. cc
check_tags-ne-panic (t ∷ tags) = check_keys-ne-panic t.key tags

abbrev name_of : List ℕ → List Tag → Outcome TagError MetricName
name_of g ts = ok (record { group = g; tags = ts })

named_ne_panic :
    (g : List ℕ) (m : Outcome TagError (List Tag))
    → m ≢ panic
    → (m >>= λ tags. check_tags tags >>= λ _. name_of g tags) ≢ panic
named_ne_panic g (ok tags) h = checked tags (check_tags tags) (check_tags-ne-panic tags)
  where
    checked :
        (tags : List Tag) (c : Outcome TagError (Unit {0}))
        → c ≢ panic
        → (c >>= λ _. name_of g tags) ≢ panic
    checked tags (ok u) h = λ p. cc
    checked tags (err e) h = λ p. cc
    checked tags panic h = absurd (h refl)
named_ne_panic g (err e) h = λ p. cc
named_ne_panic g panic h = absurd (h refl)

-- On any bytes `Unmarshal` returns a name or an error: none of its loops runs on.
pub unmarshal-ne-panic : (src : List ℕ) → unmarshal src ≢ panic
unfolding unmarshal
unmarshal-ne-panic src = by_group (unmarshal_tag_value [] src) (unmarshal_tag_value-Ends [] src)
  where
    by_group :
        (m : Outcome TagError (List ℕ × List ℕ))
        → Ends src m
        → (elim m [
          | err e ↦ err (bad_group e)
          | panic ↦ panic
          | ok (tail, g) ↦
              unmarshal_tags (length tail) tail >>= λ tags. check_tags tags >>= λ _. name_of g tags
        ])
          ≢ panic
    by_group (ok (tail, g)) h =
        named_ne_panic g (unmarshal_tags (length tail) tail)
          (unmarshal_tags-ne-panic (length tail) tail (omega arith))
    by_group (err e) h = λ p. cc
    by_group panic h = absurd h
