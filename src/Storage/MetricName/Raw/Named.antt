-- ===== src/Storage/MetricName/Raw/Named.antt =====
-- The metric name that the labels of an inserted row stand for, said without the bytes.
use mathlib.Core.List.{append_assoc, append-nil}
use victoria_metrics.Base.{ℕ, zero, suc, ◌*◌, ◌≡◌, refl, sym, ap, ◌∙◌, arith, Bool, true}
use victoria_metrics.Base.{List, [], ◌∷◌, ◌++◌, length, take, ◌==◌, if◌then◌else◌, Bool-cases}
use victoria_metrics.Base.{inl, inr, ltb, ◌≤◌}
use victoria_metrics.Storage.TagValue.{Tag}
use victoria_metrics.Storage.MetricName.{MetricName, equal, name_key, add_tag}
use victoria_metrics.Storage.MetricName.Raw.{Label, clip, fit_label, fit_labels, store_pair}

-- At most 256 bytes of name and 16 KB of value.
abbrev pub cut : Label → Label
cut l = record { name = take 256 l.name; value = take (16 * 1024) l.value }

-- The labels that have a value, cut.
abbrev pub kept : List Label → List Label
kept [] = []
kept (l ∷ ls) = let rest = kept ls in if length (cut l).value == 0 then rest else cut l ∷ rest

-- The empty name and `__name__` are names of the group.
abbrev pub names_group : List ℕ → Bool
names_group [] = true
names_group (x ∷ name) =
    equal (x ∷ name) (b'_' ∷ b'_' ∷ b'n' ∷ b'a' ∷ b'm' ∷ b'e' ∷ b'_' ∷ b'_' ∷ [])

-- The last value that a name of the group has, or `group`.
abbrev pub group_of : List ℕ → List Label → List ℕ
group_of group [] = group
group_of group (l ∷ ls) = group_of (if names_group l.name then l.value else group) ls

-- The other labels, in their order.
abbrev pub tags_of : List Label → List Tag
tags_of [] = []
tags_of (l ∷ ls) =
    let rest = tags_of ls in
    if names_group l.name then rest else record { key = l.name; value = l.value } ∷ rest

-- The name of a row: what its first 30 labels say.
abbrev pub name_of : List Label → MetricName
name_of labels =
    let ls = kept (take 30 labels) in record { group = group_of [] ls; tags = tags_of ls }

-- The name that labels make, the first one first.
unfoldable pub named_by : MetricName → List Label → MetricName
named_by mn [] = mn
named_by mn (l ∷ ls) =
    named_by (if length l.value == 0 then mn else store_pair mn l.name l.value) ls

take-all : (n : ℕ) (b : List ℕ) → length b ≤ n → take n b ≡ b
take-all zero [] h = refl
take-all zero (x ∷ b) h = absurd (omega arith)
take-all (suc n) [] h = refl
take-all (suc n) (x ∷ b) h = ap (◌∷◌ x) (take-all n b (omega arith))

clip-take : (max : ℕ) (b : List ℕ) → clip max b ≡ take max b
unfolding clip
clip-take max b = elim (Bool-cases (ltb max (length b))) [
  | inl long ↦ rw long refl
  | inr fits ↦ rw fits (sym (take-all max b (ground (arith, fits))))
]

abbrev fitted_name : Label → List ℕ
fitted_name l = if length l.value == 0 then l.name else if equal l.name name_key then [] else l.name

fit_label-cut :
    (l : Label) → fit_label l ≡ record { name = fitted_name (cut l); value = (cut l).value }
unfolding fit_label
fit_label-cut l = rw (clip-take 256 l.name, clip-take 16384 l.value) refl

-- What one pair does to the name.
abbrev with_pair : MetricName → List ℕ → List ℕ → MetricName
with_pair mn n v =
    if names_group n
    then record mn { group = v }
    else record mn { tags = mn.tags ++ record { key = n; value = v } ∷ [] }

store_pair-with_pair :
    (mn : MetricName) (n v : List ℕ)
    → store_pair mn (if equal n name_key then [] else n) v ≡ with_pair mn n v
unfolding store_pair add_tag equal
store_pair-with_pair mn [] v = refl
store_pair-with_pair mn (x ∷ n) v = elim (Bool-cases (equal (x ∷ n) name_key)) [
  | inl group ↦ rw group refl
  | inr tag ↦ rw tag refl
]

-- What the labels `ls` make of the name `mn`.
abbrev joined : MetricName → List Label → MetricName
joined mn ls = record { group = group_of mn.group ls; tags = mn.tags ++ tags_of ls }

joined-with_pair :
    (mn : MetricName) (l : Label) (ls : List Label)
    → joined (with_pair mn l.name l.value) ls ≡ joined mn (l ∷ ls)
joined-with_pair mn l ls = elim (Bool-cases (names_group l.name)) [
  | inl group ↦ rw group refl
  | inr tag ↦ rw tag (
      ap (λ (tags : List Tag). record { group = group_of mn.group ls; tags = tags })
        (append_assoc mn.tags (record { key = l.name; value = l.value } ∷ []) (tags_of ls)))
]

named_by-joined :
    (n : ℕ) (mn : MetricName) (ls : List Label)
    → named_by mn (fit_labels n ls) ≡ joined mn (kept (take n ls))
unfolding named_by fit_labels
named_by-joined zero mn ls =
    ap (λ (tags : List Tag). record { group = mn.group; tags = tags }) (sym (append-nil mn.tags))
named_by-joined (suc n) mn [] =
    ap (λ (tags : List Tag). record { group = mn.group; tags = tags }) (sym (append-nil mn.tags))
named_by-joined (suc n) mn (l ∷ ls) = elim (Bool-cases (length (cut l).value == 0)) [
  | inl none ↦ rw (fit_label-cut l) (rw none (named_by-joined n mn ls))
  | inr some ↦
      let name = (cut l).name in
      let value = (cut l).value in
      let mn' = with_pair mn name value in
      rw (fit_label-cut l) (
        rw some (
          rw (store_pair-with_pair mn name value)
            (named_by-joined n mn' ls ∙ joined-with_pair mn (cut l) (kept (take n ls)))))
]

pub named_by-name_of :
    (labels : List Label)
    → named_by (record { group = []; tags = [] }) (fit_labels 30 labels) ≡ name_of labels
named_by-name_of labels = named_by-joined 30 (record { group = []; tags = [] }) labels
