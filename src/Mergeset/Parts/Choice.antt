-- ===== src/Mergeset/Parts/Choice.antt =====
-- Which parts are chosen, whatever the floats do.
use victoria_metrics.Base.{ℕ, ◌/◌, ◌≡◌}
use victoria_metrics.Base.{true, false}
use victoria_metrics.Base.{List}
use victoria_metrics.Mergeset.Parts.{PartWrapper, filter_small, sort_parts}
use victoria_metrics.Mergeset.Parts.Window.{IsWindow}

-- From 2 to `n` neighbours of the candidates, or no part: the candidates are the parts with half of
-- `max_items` at most, by their number of items.
abbrev pub Chosen : ℕ → ℕ → List PartWrapper → List PartWrapper → Type 0
Chosen n max_items src pws =
    IsWindow n max_items (sort_parts (filter_small (max_items / 2) src)) pws

abbrev IsFree : PartWrapper → Type 0
IsFree pw = pw.is_in_merge ≡ false

abbrev pub marked : PartWrapper → PartWrapper
marked pw = record pw { is_in_merge = true }
