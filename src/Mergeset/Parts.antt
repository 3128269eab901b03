-- ===== src/Mergeset/Parts.antt =====
-- lib/mergeset/table.go: the choice of the parts to merge. `float64` is the parameter `Ratios`: the
-- quotient of two counts, an int as a float, and `<`; nothing is asked of them. A part is its header's
-- number of items, its flag and a number of its own. `none` is a panic.
pub mod Window
pub mod Choice
use victoria_metrics.Base.{
  ℕ, zero, suc, ◌+◌, ◌-◌, ◌/◌, ◌%◌, ◌^◌, min, max, Bool, true, false, Option, none, some,
}
use victoria_metrics.Base.{List, [], ◌∷◌, ◌++◌, length, take, drop, ltb, if◌then◌else◌}

pub record PartWrapper : Type 0 where
  pub id : ℕ
  pub items_count : ℕ
  pub is_in_merge : Bool

pub record Ratios : Type 1 where
  pub Float : Type 0
  pub quotient : ℕ → ℕ → Float
  pub of_int : ℕ → Float
  pub less : Float → Float → Bool

abbrev pub default_parts_to_merge : ℕ
default_parts_to_merge = 15

abbrev pub final_parts_to_merge : ℕ
final_parts_to_merge = 2

-- The parts that are not too big.
unfoldable pub filter_small : ℕ → List PartWrapper → List PartWrapper
filter_small limit [] = []
filter_small limit (pw ∷ src) =
    let rest = filter_small limit src in if ltb limit pw.items_count then rest else pw ∷ rest

unfoldable pub insert_part : PartWrapper → List PartWrapper → List PartWrapper
insert_part pw [] = pw ∷ []
insert_part pw (q ∷ src) =
    let rest = insert_part pw src in
    if ltb q.items_count pw.items_count then q ∷ rest else pw ∷ q ∷ src

-- `sort.Slice` by `itemsCount`. It leaves open the order of parts with equal counts; here they stay as
-- they were.
unfoldable pub sort_parts : List PartWrapper → List PartWrapper
unfolding insert_part
sort_parts [] = []
sort_parts (pw ∷ src) = insert_part pw (sort_parts src)

-- `itemsSum`, a uint64.
unfoldable pub items_sum : ℕ → List PartWrapper → ℕ
items_sum sum [] = sum
items_sum sum (pw ∷ pws) = items_sum ((sum + pw.items_count) % 2 ^ 64) pws

unfoldable pub last_count : ℕ → List PartWrapper → ℕ
last_count n [] = n
last_count n (pw ∷ pws) = last_count pw.items_count pws

module _ (F : Ratios) where
  -- `maxM` and `pws`.
  pub record Best : Type 0 where
    pub max_m : F.Float
    pub pws : List PartWrapper

  -- The body of the search, on the parts `src[j : j+i]`.
  unfoldable pub try_window : ℕ → List PartWrapper → Best → Best
  unfolding items_sum last_count
  try_window max_items window best =
      let sum = items_sum 0 window in
      let m = F.quotient sum (last_count 0 window) in
      if ltb max_items sum
      then best
      else if F.less m best.max_m
      then best
      else record { max_m = m; pws = window }

  -- The loop on `j`, with `rounds` more rounds.
  unfoldable pub try_starts : ℕ → ℕ → ℕ → ℕ → List PartWrapper → Best → Best
  unfolding try_window
  try_starts zero max_items i j src best = best
  try_starts (suc rounds) max_items i j src best =
      try_starts rounds max_items i (suc j) src (try_window max_items (take i (drop j src)) best)

  -- The loop on `i`.
  unfoldable pub try_sizes : ℕ → ℕ → ℕ → List PartWrapper → Best → Best
  unfolding try_starts
  try_sizes zero max_items i src best = best
  try_sizes (suc rounds) max_items i src best =
      try_sizes rounds max_items (suc i) src
        (try_starts (suc (length src) - i) max_items i 0 src best)

  -- `appendPartsToMerge`
  unfoldable pub append_parts_to_merge :
      List PartWrapper → List PartWrapper → ℕ → ℕ → Option (List PartWrapper)
  unfolding filter_small sort_parts try_sizes
  append_parts_to_merge dst src max_parts max_items =
      let small = sort_parts (filter_small (max_items / 2) src) in
      let n = min max_parts (length small) in
      let best = try_sizes (n - 1) max_items 2 small (record { max_m = F.of_int 0; pws = [] }) in
      let min_m = F.of_int (max_parts / 2) in
      let limit = if F.less min_m (F.of_int 2) then F.of_int 2 else min_m in
      if ltb (length src) 2
      then some dst
      else if ltb max_parts 2
      then none
      else if F.less best.max_m limit
      then some dst
      else some (dst ++ best.pws)

  -- The loop of a final merge, down from `maxPartsToMerge`.
  unfoldable pub final_loop : ℕ → List PartWrapper → ℕ → Option (List PartWrapper)
  final_loop zero remaining max_items = some []
  final_loop (suc m) remaining max_items =
      let next = final_loop m remaining max_items in
      if ltb (suc m) final_parts_to_merge
      then some []
      else elim (append_parts_to_merge [] remaining (suc m) max_items) [
        | none ↦ none
        | some [] ↦ next
        | some (pw ∷ pws) ↦ some (pw ∷ pws)
      ]

  -- `isInMerge` of each part set, which must not be.
  unfoldable pub mark : List PartWrapper → Option (List PartWrapper)
  mark [] = some []
  mark (pw ∷ pws) =
      let rest = mark pws in
      if pw.is_in_merge
      then none
      else elim rest [ none ↦ none | some out ↦ some (record pw { is_in_merge = true } ∷ out) ]

  unfoldable pub filter_free : List PartWrapper → List PartWrapper
  filter_free [] = []
  filter_free (pw ∷ pws) = let rest = filter_free pws in if pw.is_in_merge then rest else pw ∷ rest

  -- `getPartsToMerge`, with its parts as they are after it.
  unfoldable pub get_parts_to_merge : List PartWrapper → ℕ → Bool → Option (List PartWrapper)
  unfolding filter_free mark
  get_parts_to_merge pws max_items is_final =
      let remaining = filter_free pws in
      let dst : Option (List PartWrapper) =
        if is_final
        then final_loop default_parts_to_merge remaining max_items
        else append_parts_to_merge [] remaining default_parts_to_merge max_items in
      elim dst [ none ↦ none | some out ↦ mark out ]
