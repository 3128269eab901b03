-- ===== src/Mergeset/Block.antt =====
-- lib/mergeset/encoding.go: the block in memory. Its items are slices of its data; here they are
-- lists, and its data, the field `bytes`, are the items one behind another.
pub mod Prefix
pub mod Order
use victoria_metrics.Base.{ℕ, zero, suc, ◌+◌, ◌*◌, Bool, true, false, not, ◌&&◌, Option, none, some}
use victoria_metrics.Base.{List, [], ◌∷◌, ◌++◌, length, take, ltb, if◌then◌else◌}
use victoria_metrics.Mergeset.Bytes.{lex_less, common_prefix_len}

pub record InmemoryBlock : Type 0 where
  pub common_prefix : List ℕ
  pub bytes : List ℕ
  pub items : List (List ℕ)

-- `Reset`
abbrev pub empty_block : InmemoryBlock
empty_block = record { common_prefix = []; bytes = []; items = [] }

-- The loop of `updateCommonPrefix`, which leaves with no prefix when an item shares no byte.
unfoldable pub shrink : List ℕ → List (List ℕ) → List ℕ
shrink cp [] = cp
shrink cp (item ∷ items) = elim (common_prefix_len cp item) [
  | zero ↦ []
  | suc n ↦ shrink (take (suc n) cp) items
]

unfoldable pub prefix_of : List (List ℕ) → List ℕ
prefix_of [] = []
prefix_of ([] ∷ items) = []
prefix_of ((x ∷ cp) ∷ items) = shrink (x ∷ cp) items

unfoldable pub update_common_prefix : InmemoryBlock → InmemoryBlock
update_common_prefix ib = record ib { common_prefix = prefix_of ib.items }

abbrev pub max_inmemory_block_size : ℕ
max_inmemory_block_size = 64 * 1024

-- `none` is `false`, where `x` does not fit.
unfoldable pub add : InmemoryBlock → List ℕ → Option InmemoryBlock
add ib x =
    if ltb max_inmemory_block_size (length x + length ib.bytes)
    then none
    else some (record ib { bytes = ib.bytes ++ x; items = ib.items ++ x ∷ [] })

unfoldable pub sorted_from : List ℕ → List (List ℕ) → Bool
sorted_from prev [] = true
sorted_from prev (x ∷ xs) = not (lex_less x prev) && sorted_from x xs

-- `sort.SliceIsSorted`: no item is less than the one in front of it.
unfoldable pub is_sorted : List (List ℕ) → Bool
unfolding sorted_from
is_sorted [] = true
is_sorted (x ∷ xs) = sorted_from x xs

unfoldable pub insert : List ℕ → List (List ℕ) → List (List ℕ)
insert x [] = x ∷ []
insert x (y ∷ ys) = if lex_less y x then y ∷ insert x ys else x ∷ y ∷ ys

-- `sort.Slice`. Items that compare equal are the same bytes, so any sorting gives the same items.
unfoldable pub sort_items : List (List ℕ) → List (List ℕ)
unfolding insert
sort_items [] = []
sort_items (x ∷ xs) = insert x (sort_items xs)

abbrev pub join : List (List ℕ) → List ℕ
join [] = []
join (x ∷ xs) = x ++ join xs

-- `sort`, which lays the data out again in the order of the items.
unfoldable pub sort : InmemoryBlock → InmemoryBlock
unfolding sort_items
sort ib = let items = sort_items ib.items in record ib { bytes = join items; items = items }
