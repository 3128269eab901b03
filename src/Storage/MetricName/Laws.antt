-- ===== src/Storage/MetricName/Laws.antt =====
-- What each method does to the value that `GetTagValue` finds, for every key.
use victoria_metrics.Base.{ℕ, ◌≡◌, refl, ap, arith, Bool, true, false, ◌&&◌, not, inl, inr}
use victoria_metrics.Base.{List, [], ◌∷◌, ◌++◌, if◌then◌else◌, Bool-cases}
use victoria_metrics.Storage.TagValue.{Tag}
use victoria_metrics.Storage.MetricName.{
  MetricName, equal, has_tag, name_key, keep_tags, first_value,
}
use victoria_metrics.Storage.MetricName.{remove_tags_on, remove_tag, remove_tags_ignoring}
use victoria_metrics.Storage.MetricName.{get_tag_value, found_key, add_missing, add_missing_tags}

pub equal→eq : (a b : List ℕ) → equal a b ≡ true → a ≡ b
unfolding equal
equal→eq [] [] h = refl
equal→eq [] (y ∷ ys) h = cc
equal→eq (x ∷ xs) [] h = cc
equal→eq (x ∷ xs) (y ∷ ys) h = ground (arith, equal→eq xs ys)

pub equal_self : (a : List ℕ) → equal a a ≡ true
unfolding equal
equal_self [] = refl
equal_self (x ∷ xs) = ground (arith, equal_self xs)

first_value-keep_tags :
    (keep : List ℕ → Bool) (k : List ℕ) (tags : List Tag)
    → first_value k (keep_tags keep tags) ≡ (if keep k then first_value k tags else [])
unfolding keep_tags first_value
first_value-keep_tags keep k [] = ground arith
first_value-keep_tags keep k (tag ∷ tags) = elim (Bool-cases (equal tag.key k)) [
  | inl same ↦
      let e = equal→eq tag.key k same in
      ground (arith, ap keep e, first_value-keep_tags keep k tags)
  | inr other ↦ ground (arith, first_value-keep_tags keep k tags)
]

has_tag-nil : (k : List ℕ) → has_tag [] k ≡ false
unfolding has_tag
has_tag-nil k = refl

-- Behind `RemoveTagsOn` exactly the keys of `onTags` keep their values, `__name__` among them;
-- every other key has none.
pub get_tag_value-remove_tags_on :
    (mn : MetricName) (on : List (List ℕ)) (k : List ℕ)
    → get_tag_value (remove_tags_on mn on) k ≡ (if has_tag on k then get_tag_value mn k else [])
unfolding remove_tags_on get_tag_value
get_tag_value-remove_tags_on mn [] k = ground (arith, has_tag-nil k)
get_tag_value-remove_tags_on mn (t ∷ ts) k =
    ground (arith, equal→eq k name_key, first_value-keep_tags (has_tag (t ∷ ts)) k mn.tags)

-- Behind `RemoveTagsIgnoring` exactly the keys of `ignoringTags` lose their values, `__name__` among
-- them; every other key keeps its value.
pub get_tag_value-remove_tags_ignoring :
    (mn : MetricName) (ignoring : List (List ℕ)) (k : List ℕ)
    → get_tag_value (remove_tags_ignoring mn ignoring) k
      ≡ (if has_tag ignoring k then [] else get_tag_value mn k)
unfolding remove_tags_ignoring get_tag_value
get_tag_value-remove_tags_ignoring mn [] k = ground (arith, has_tag-nil k)
get_tag_value-remove_tags_ignoring mn (t ∷ ts) k =
    ground
      (arith, equal→eq k name_key, first_value-keep_tags (λ j. not (has_tag (t ∷ ts) j)) k mn.tags)

-- Behind `RemoveTag` the key has no value, and every other key keeps its own.
pub get_tag_value-remove_tag :
    (mn : MetricName) (j k : List ℕ)
    → get_tag_value (remove_tag mn j) k ≡ (if equal k j then [] else get_tag_value mn k)
unfolding remove_tag get_tag_value
get_tag_value-remove_tag mn j k = ground (
  arith,
  equal→eq k j,
  equal→eq k name_key,
  equal→eq j name_key,
  equal_self name_key,
  first_value-keep_tags (λ i. not (equal i j)) k mn.tags,
)

first_value-absent :
    (k : List ℕ) (tags : List Tag) → found_key k tags ≡ false → first_value k tags ≡ []
unfolding found_key first_value
first_value-absent k [] h = refl
first_value-absent k (tag ∷ tags) h = ground (arith, first_value-absent k tags)

found_key-append :
    (k : List ℕ) (tags : List Tag) (s : Tag)
    → found_key k (tags ++ s ∷ []) ≡ (if found_key k tags then true else equal s.key k)
unfolding found_key
found_key-append k [] s = ground arith
found_key-append k (tag ∷ tags) s = ground (arith, found_key-append k tags s)

first_value-append :
    (k : List ℕ) (tags : List Tag) (s : Tag)
    → first_value k (tags ++ s ∷ [])
      ≡ (if found_key k tags then first_value k tags else if equal s.key k then s.value else [])
unfolding found_key first_value
first_value-append k [] s = ground arith
first_value-append k (tag ∷ tags) s = ground (arith, first_value-append k tags s)

first_value-nil : (k : List ℕ) → first_value k [] ≡ []
unfolding first_value
first_value-nil k = refl

first_value-cons :
    (k : List ℕ) (s : Tag) (src : List Tag)
    → first_value k (s ∷ src) ≡ (if equal s.key k then s.value else first_value k src)
unfolding first_value
first_value-cons k s src = refl

first_value-add_missing :
    (add : List (List ℕ)) (k : List ℕ) (tags src : List Tag)
    → first_value k (add_missing add tags src) ≡ (
        if found_key k tags
        then first_value k tags
        else if has_tag add k
        then first_value k src
        else [])
unfolding add_missing
first_value-add_missing add k tags [] = ground (arith, first_value-absent k tags, first_value-nil k)
first_value-add_missing add k tags (s ∷ src) =
    let added = has_tag add s.key && not (found_key s.key tags) in
    elim (Bool-cases added) [
      | inl new ↦ rw new (
          ground (
            arith,
            equal→eq s.key k,
            first_value-cons k s src,
            found_key-append k tags s,
            first_value-append k tags s,
            first_value-add_missing add k (tags ++ s ∷ []) src,
          ))
      | inr old ↦ rw old (
          ground (
            arith,
            equal→eq s.key k,
            first_value-cons k s src,
            first_value-add_missing add k tags src,
          ))
    ]

-- Behind `AddMissingTags` a key of `addTags` has the value of `src` if `mn` had no such tag, and
-- every other key keeps its value; `__name__` among `addTags` always takes the group of `src`.
pub get_tag_value-add_missing_tags :
    (mn src : MetricName) (add : List (List ℕ)) (k : List ℕ)
    → get_tag_value (add_missing_tags mn add src) k ≡ (
        if equal k name_key
        then (if has_tag add name_key then src.group else mn.group)
        else if found_key k mn.tags
        then get_tag_value mn k
        else if has_tag add k
        then get_tag_value src k
        else [])
unfolding add_missing_tags get_tag_value
get_tag_value-add_missing_tags mn src add k =
    ground (arith, first_value-add_missing add k mn.tags src.tags)
