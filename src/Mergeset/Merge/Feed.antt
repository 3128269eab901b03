-- ===== src/Mergeset/Merge/Feed.antt =====
-- One round: the items that go to the pending block, and the streams that are left.
use mathlib.Core.List.{append_assoc, append-nil}
use victoria_metrics.Base.{ℕ, ◌+◌, ◌%◌, ◌^◌, ◌≤◌, ◌<◌, ◌≡◌, ◌⊎◌, refl, sym, ap, ◌∙◌, arith}
use victoria_metrics.Base.{
  true, false, inl, inr, Bool-cases, ltb, le→ltb, ltb→le, Option, none, some,
}
use victoria_metrics.Base.{List, [], ◌∷◌, ◌++◌, length, length-append, All, All-append}
use victoria_metrics.Base.Outcome.{ok}
use victoria_metrics.Storage.Fields.{then_ok}
use victoria_metrics.Mergeset.Block.{InmemoryBlock, add, join, max_inmemory_block_size}
use victoria_metrics.Mergeset.Merge.{Merger, flush_ib, take_item, passes, feed, last_of}

-- The items of the blocks written.
abbrev pub items_of : List InmemoryBlock → List (List ℕ)
items_of [] = []
items_of (b ∷ bs) = b.items ++ items_of bs

-- All the items so far, in their order.
abbrev pub out : Merger → List (List ℕ)
out bsm = items_of bsm.written ++ bsm.ib.items

-- The data of a block are its items, and fit.
abbrev pub IsBlock : InmemoryBlock → Type 0
IsBlock ib = (ib.bytes ≡ join ib.items) × (length ib.bytes ≤ max_inmemory_block_size)

abbrev pub IsWritten : InmemoryBlock → Type 0
IsWritten ib = IsBlock ib × (0 < length ib.items)

abbrev pub EndsWith : List ℕ → List (List ℕ) → Type 0
EndsWith last xs = (xs ≡ []) ⊎ ((front : List (List ℕ)) × (xs ≡ front ++ last ∷ []))

last_of_lem :
    (x : List ℕ) (xs : List (List ℕ))
    → (front : List (List ℕ)) × (x ∷ xs ≡ front ++ last_of x xs ∷ [])
unfolding last_of
last_of_lem x [] = ([], refl)
last_of_lem x (y ∷ ys) = let r = last_of_lem y ys in (x ∷ r.0, ap (λ l. x ∷ l) r.1)

-- The pending block and the blocks written are as they must be, and the header has the number and the
-- last item of the latter.
abbrev pub IsMerger : Merger → Type 0
IsMerger bsm =
    IsBlock bsm.ib
    × All IsWritten bsm.written
    × (bsm.items_count ≡ length (items_of bsm.written) % 2 ^ 64)
    × (bsm.blocks_count ≡ length bsm.written % 2 ^ 64)
    × EndsWith bsm.last_item (items_of bsm.written)

items_of_last :
    (bs : List InmemoryBlock) (b : InmemoryBlock) → items_of (bs ++ b ∷ []) ≡ items_of bs ++ b.items
items_of_last [] b = append-nil b.items
items_of_last (c ∷ bs) b =
    ap (λ l. c.items ++ l) (items_of_last bs b) ∙ sym (append_assoc c.items (items_of bs) b.items)

join_last : (xs : List (List ℕ)) (x : List ℕ) → join (xs ++ x ∷ []) ≡ join xs ++ x
join_last [] x = append-nil x
join_last (y ∷ xs) x = ap (λ l. y ++ l) (join_last xs x) ∙ sym (append_assoc y (join xs) x)

add_lem :
    (ib : InmemoryBlock) (x : List ℕ)
    → length x + length ib.bytes ≤ max_inmemory_block_size
    → add ib x ≡ some (record ib { bytes = ib.bytes ++ x; items = ib.items ++ x ∷ [] })
unfolding add
add_lem ib x h = rw (le→ltb max_inmemory_block_size (length x + length ib.bytes) h) refl

add-none :
    (ib : InmemoryBlock) (x : List ℕ)
    → ltb max_inmemory_block_size (length x + length ib.bytes) ≡ true
    → add ib x ≡ none
unfolding add
add-none ib x h = rw h refl

-- With one item more.
abbrev with_item : Merger → List ℕ → Merger
with_item bsm x = record bsm {
  ib = record bsm.ib { bytes = bsm.ib.bytes ++ x; items = bsm.ib.items ++ x ∷ [] };
}

with_item-IsMerger :
    (bsm : Merger) (x : List ℕ)
    → IsMerger bsm
    → length x + length bsm.ib.bytes ≤ max_inmemory_block_size
    → IsMerger (with_item bsm x)
with_item-IsMerger bsm x h k = (
  (
    ap (λ l. l ++ x) h.0.0 ∙ sym (join_last bsm.ib.items x),
    omega (arith, k, length-append bsm.ib.bytes x),
  ),
  h.1,
  h.2,
  h.3,
  h.4,
)

-- A flush keeps the items in their order, and leaves the pending block empty.
abbrev Flushed : Merger → Merger → Type 0
Flushed bsm b = IsMerger b × (out b ≡ out bsm) × (b.ib.items ≡ []) × (b.ib.bytes ≡ [])

flush_at :
    (bsm : Merger) (cp bytes : List ℕ) (items : List (List ℕ))
    → let b : Merger = record bsm {
      ib = record { common_prefix = cp; bytes = bytes; items = items };
    } in
      IsMerger b → Flushed b (flush_ib b)
unfolding flush_ib
flush_at bsm cp bytes [] h = (h, refl, refl, h.0.0)
flush_at bsm cp bytes (x ∷ xs) h =
    let ib : InmemoryBlock = record { common_prefix = cp; bytes = bytes; items = x ∷ xs } in
    let more = items_of_last bsm.written ib in
    let count = ap length more ∙ length-append (items_of bsm.written) (x ∷ xs) in
    let blocks = length-append bsm.written (ib ∷ []) in
    let last = last_of_lem x xs in
    (
      (
        (refl, omega arith),
        All-append IsWritten bsm.written (ib ∷ []) h.1 ((h.0, omega arith), tt),
        omega (arith, count, h.2),
        omega (arith, blocks, h.3),
        inr (
          items_of bsm.written ++ last.0,
          more
              ∙ ap (λ l. items_of bsm.written ++ l) last.1
              ∙ sym (append_assoc (items_of bsm.written) last.0 (last_of x xs ∷ [])),
        ),
      ),
      append-nil (items_of (bsm.written ++ ib ∷ [])) ∙ more,
      refl,
      refl,
    )

pub flush_ib_lem : (bsm : Merger) → IsMerger bsm → Flushed bsm (flush_ib bsm)
flush_ib_lem bsm h = flush_at bsm bsm.ib.common_prefix bsm.ib.bytes bsm.ib.items h

-- An item that fits a block is taken.
abbrev Took : Merger → List (List ℕ) → Merger → Type 0
Took bsm xs b = IsMerger b × (out b ≡ out bsm ++ xs)

take_item_lem :
    (bsm : Merger) (x : List ℕ)
    → IsMerger bsm
    → length x ≤ max_inmemory_block_size
    → (b : Merger) × Took bsm (x ∷ []) b × (take_item bsm x ≡ ok b)
unfolding take_item
take_item_lem bsm x h small =
    elim (Bool-cases (ltb max_inmemory_block_size (length x + length bsm.ib.bytes))) [
      | inr e ↦
          let fits = ltb→le max_inmemory_block_size (length x + length bsm.ib.bytes) e in
          (
            with_item bsm x,
            (
              with_item-IsMerger bsm x h fits,
              sym (append_assoc (items_of bsm.written) bsm.ib.items (x ∷ [])),
            ),
            rw (take_item, add_lem bsm.ib x fits) refl,
          )
      | inl e ↦
          let f = flush_ib_lem bsm h in
          let fits : length x + length (flush_ib bsm).ib.bytes ≤ max_inmemory_block_size =
            omega (arith, small, ap length f.3) in
          (
            with_item (flush_ib bsm) x,
            (
              with_item-IsMerger (flush_ib bsm) x f.0 fits,
              sym (append_assoc (items_of (flush_ib bsm).written) (flush_ib bsm).ib.items (x ∷ []))
                  ∙ ap (λ l. l ++ x ∷ []) f.1,
            ),
            rw (take_item, add-none bsm.ib x e, add_lem (flush_ib bsm).ib x fits) refl,
          )
    ]

-- The items that one round takes are the first ones, up to one that the limit stops.
abbrev pub Passed : Option (List ℕ) → List (List ℕ) → Type 0
Passed limit taken = All (λ t. passes limit t ≡ true) taken

-- The item that is left in front does not pass.
abbrev pub Stops : Option (List ℕ) → List (List ℕ) → Type 0
Stops limit [] = Unit
Stops limit (x ∷ xs) = passes limit x ≡ false

pub feed_lem :
    (bsm : Merger) (limit : Option (List ℕ)) (xs : List (List ℕ))
    → IsMerger bsm
    → All (λ x. length x ≤ max_inmemory_block_size) xs
    → (b : Merger) × (taken : List (List ℕ)) × (left : List (List ℕ)) × (feed bsm limit xs
        ≡ ok (b, left))
      × Took bsm taken b
      × (xs ≡ taken ++ left)
      × Passed limit taken
      × Stops limit left
unfolding feed
feed_lem bsm limit [] h small = (bsm, [], [], refl, (h, sym (append-nil (out bsm))), refl, tt, tt)
feed_lem bsm limit (x ∷ xs) h small = elim (Bool-cases (passes limit x)) [
  | inr e ↦ (bsm, [], x ∷ xs, rw (feed, e) refl, (h, sym (append-nil (out bsm))), refl, tt, e)
  | inl e ↦
      let t = take_item_lem bsm x h small.0 in
      let f = feed_lem t.0 limit xs t.1.0 small.1 in
      (
        f.0,
        x ∷ f.1,
        f.2,
        rw (feed, e) (then_ok (λ b. feed b limit xs) t.2 f.3),
        (f.4.0, f.4.1 ∙ ap (λ l. l ++ f.1) t.1.1 ∙ append_assoc (out bsm) (x ∷ []) f.1),
        ap (λ l. x ∷ l) f.5,
        (e, f.6),
        f.7,
      )
]
