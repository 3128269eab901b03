-- ===== src/Mergeset/Search.antt =====
-- lib/mergeset/part_search.go: the place of a key among the sorted items of one block. `item_at` is
-- `items[i]`; every index here is below the number of items.
pub mod Place
use victoria_metrics.Base.{ℕ, zero, suc, ◌+◌, ◌-◌, ◌/◌, Bool, true, false, Option, none, some}
use victoria_metrics.Base.{List, [], ◌∷◌, length, drop, ltb, if◌then◌else◌}
use victoria_metrics.Mergeset.Bytes.{lex_less}

abbrev pub item_at : List (List ℕ) → ℕ → List ℕ
item_at [] i = []
item_at (x ∷ xs) zero = x
item_at (x ∷ xs) (suc i) = item_at xs i

-- The loop of `binarySearchKey` on `i` and `j`. It halves `j - i`, so `len(items)` rounds are enough.
unfoldable pub search_loop : ℕ → List (List ℕ) → List ℕ → ℕ → ℕ → ℕ
search_loop zero items key i j = i
search_loop (suc fuel) items key i j =
    let h = (i + j) / 2 in
    elim (ltb i j) [
      | false ↦ i
      | true ↦ elim (lex_less (item_at items h) key) [
        | true ↦ search_loop fuel items key (suc h) j
        | false ↦ search_loop fuel items key i h
      ]
    ]

unfoldable pub binary_search_key : List (List ℕ) → List ℕ → ℕ
unfolding search_loop
binary_search_key [] key = 0
binary_search_key (x ∷ xs) key =
    if lex_less x key then suc (search_loop (length xs) xs key 0 (length xs)) else 0

-- `tryFastSeek` on the items of the current block and the index in it: the new index, or `none` where
-- it gives false.
unfoldable pub try_fast_seek : List (List ℕ) → ℕ → List ℕ → Option ℕ
unfolding binary_search_key
try_fast_seek items idx k =
    let start = idx - 1 in
    let from = λ (i : ℕ). some (i + binary_search_key (drop i items) k) in
    if ltb idx (length items)
    then (if lex_less (item_at items (length items - 1)) k
        then none
        else if lex_less k (item_at items start)
        then (if lex_less k (item_at items 0) then none else from 0)
        else from start)
    else none
