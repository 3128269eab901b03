-- ===== src/Mergeset/Merge/Round.antt =====
-- The rounds of a merge of sorted streams.
use mathlib.Core.List.{append_assoc, append-nil, Perm}
use mathlib.Core.List.Perm.{rfl, trans, append_left}
use victoria_metrics.Base.{ℕ, zero, suc, ◌+◌, ◌≤◌, ◌<◌, ◌≡◌, refl, sym, ap, subst, ◌∙◌, arith}
use victoria_metrics.Base.{Bool, true, false, Option, some, if◌then◌else◌}
use victoria_metrics.Base.{
  List, [], ◌∷◌, ◌++◌, length, length-append, All, All-map, All-left, All-right,
}
use victoria_metrics.Base.Outcome.{ok, ◌>>=◌}
use victoria_metrics.Storage.Fields.{then_ok}
use victoria_metrics.Mergeset.Block.{max_inmemory_block_size}
use victoria_metrics.Mergeset.Merge.{
  Reader, Merger, flush_ib, next_item, passes, catch_first, put_back, pop_min, merge,
}
use victoria_metrics.Mergeset.Merge.Ascending.{
  ◌⊑◌, ⊑-trans, Ascending, Ascending-left, Ascending-right, Ascending-between,
}
use victoria_metrics.Mergeset.Merge.Heap.{
  flat, stream, pool, pop_min_lem, next_item-below, passes_low, put_back_lem,
}
use victoria_metrics.Mergeset.Merge.Feed.{out, IsMerger, flush_ib_lem, feed_lem, Stops}

abbrev pub Fits : List (List ℕ) → Type 0
Fits xs = All (λ x. length x ≤ max_inmemory_block_size) xs

-- A stream that its reader reads to the end, whose items fit a block and follow those before.
abbrev pub Follows : List (List ℕ) → Reader → Type 0
Follows before r = (r.source.broken ≡ false) × Fits (stream r) × Ascending (before ++ stream r)

-- The items that a round takes leave every other stream in order.
pub others-Follow :
    (before taken : List (List ℕ)) (qs : List Reader)
    → Ascending (before ++ taken)
    → All (λ t. All (λ (q : Reader). t ⊑ q.first_item) qs) taken
    → All (Follows before) qs
    → All (Follows (before ++ taken)) qs
others-Follow before taken [] h k f = tt
others-Follow before taken (q ∷ qs) h k f = (
  (f.0.0, f.0.1, Ascending-between before taken (stream q) h f.0.2 (All-map below taken k)),
  others-Follow before taken qs h (All-map (λ t e. e.1) taken k) f.1,
)
  where
    below :
        (t : List ℕ) → All (λ (s : Reader). t ⊑ s.first_item) (q ∷ qs) → All (λ c. t ⊑ c) (stream q)
    below t e =
        let own : Ascending (stream q) = Ascending-right before (stream q) f.0.2 in
        (
          e.0,
          All-map (λ y l. ⊑-trans t q.first_item y e.0 l) (q.others ++ flat q.source.blocks) own.0,
        )

-- A merge that never is stopped.
abbrev pub never : ℕ → Bool
never n = false

-- What a merge of these streams behind these items comes to.
abbrev pub Merged : ℕ → List Reader → Merger → Type 0
Merged fuel rs bsm =
    (done : Merger) × (merge never fuel rs bsm ≡ ok done)
    × IsMerger done
    × (done.ib.items ≡ [])
    × Ascending (out done)
    × Perm (out bsm ++ pool rs) (out done)

pub catch_first_lem :
    (bsm : Merger) (x : List ℕ)
    → IsMerger bsm
    → IsMerger (catch_first bsm x) × (out (catch_first bsm x) ≡ out bsm)
unfolding catch_first
catch_first_lem bsm x h = go bsm.first_item_caught
  where
    go :
        (c : Bool)
        → let b : Merger =
            if c then bsm else record bsm { first_item = x; first_item_caught = true } in
          IsMerger b × (out b ≡ out bsm)
    go true = (h, refl)
    go false = (h, refl)

-- The first item passes, so a round takes an item at least.
pub takes :
    (limit : Option (List ℕ)) (taken left : List (List ℕ)) (x : List ℕ) (xs : List (List ℕ))
    → x ∷ xs ≡ taken ++ left
    → passes limit x ≡ true
    → Stops limit left
    → 0 < length taken
takes limit (t ∷ taken) left x xs e h k = omega arith
takes limit [] left x xs e h k =
    let stop : passes limit x ≡ false = subst (Stops limit) (sym e) k in absurd (cc (stop, h))

pub round :
    (fuel : ℕ) (rs : List Reader) (bsm : Merger) (r : Reader) (rest : List Reader)
    → IsMerger bsm
    → Ascending (out bsm)
    → pop_min rs ≡ some (r, rest)
    → Perm (pool rs) (stream r ++ pool rest)
    → Follows (out bsm) r
    → All (Follows (out bsm)) rest
    → passes (next_item rest) r.first_item ≡ true
    → length (stream r) + length (pool rest) < suc fuel
    → ((rs2 : List Reader) (b : Merger)
        → length (pool rs2) < fuel
        → IsMerger b
        → Ascending (out b)
        → All (Follows (out b)) rs2
        → Merged fuel rs2 b)
    → Merged (suc fuel) rs bsm
unfolding merge
round fuel rs bsm r rest h asc popped perm own others low enough continue =
    let c = catch_first_lem bsm r.first_item h in
    let items = r.first_item ∷ r.others in
    let later = flat r.source.blocks in
    let f =
      feed_lem (catch_first bsm r.first_item) (next_item rest) items c.0
        (All-left _ items later own.1) in
    let before = out bsm in
    let taken = f.1 in
    let left = f.2 ++ later in
    let so : out f.0 ≡ before ++ taken = f.4.1 ∙ ap (λ l. l ++ taken) c.1 in
    let whole : stream r ≡ taken ++ left =
      ap (λ l. l ++ later) f.5 ∙ append_assoc taken f.2 later in
    let line : Ascending ((before ++ taken) ++ left) =
      subst Ascending (ap (λ l. before ++ l) whole ∙ sym (append_assoc before taken left)) own.2 in
    let asc2 : Ascending (before ++ taken) = Ascending-left (before ++ taken) left line in
    let fits : Fits left = All-right _ taken left (subst Fits whole own.1) in
    let others2 : All (Follows (out f.0)) rest =
      subst (λ l. All (Follows l) rest) (sym so)
        (others-Follow before taken rest asc2 (All-map (λ t e. next_item-below rest t e) taken f.6)
          others) in
    let p =
      put_back_lem (Follows (out f.0)) r f.2 rest own.0
        (λ q e fine. (
          fine,
          subst Fits (sym e) fits,
          subst Ascending (ap (λ l. l ++ left) (sym so) ∙ ap (λ l. out f.0 ++ l) (sym e)) line,
        ))
        others2 in
    let some_taken = takes (next_item rest) taken f.2 r.first_item r.others f.5 low f.7 in
    let less : length (pool p.0) < fuel = omega (
      arith,
      enough,
      ap length p.2,
      ap length whole,
      length-append left (pool rest),
      length-append taken left,
      some_taken,
    ) in
    let done = continue p.0 f.0 less f.4.0 (subst Ascending (sym so) asc2) p.3 in
    let moved : before ++ (stream r ++ pool rest) ≡ out f.0 ++ pool p.0 =
      ap (λ l. before ++ (l ++ pool rest)) whole
      ∙ ap (λ l. before ++ l) (append_assoc taken left (pool rest))
      ∙ sym (append_assoc before taken (left ++ pool rest))
      ∙ ap (λ l. l ++ (left ++ pool rest)) (sym so)
      ∙ ap (λ l. out f.0 ++ l) (sym p.2) in
    (
      done.0,
      rw (merge, popped)
          (then_ok
            (λ (g : Merger × List (List ℕ)).
              put_back r g.1 rest >>= λ rs2. merge never fuel rs2 g.0)
            f.3 (then_ok (λ rs2. merge never fuel rs2 f.0) p.1 done.1)),
      done.2,
      done.3,
      done.4,
      trans (subst (λ l. Perm (before ++ pool rs) l) moved (append_left before perm)) done.5,
    )

pub merge_lem :
    (fuel : ℕ) (rs : List Reader) (bsm : Merger)
    → length (pool rs) < fuel
    → IsMerger bsm
    → Ascending (out bsm)
    → All (Follows (out bsm)) rs
    → Merged fuel rs bsm
unfolding merge
merge_lem zero rs bsm enough h asc f = absurd (omega arith)
merge_lem (suc fuel) [] bsm enough h asc f =
    let b = flush_ib_lem bsm h in
    (
      flush_ib bsm,
      refl,
      b.0,
      b.2,
      subst Ascending (sym b.1) asc,
      subst (λ l. Perm l (out (flush_ib bsm))) (b.1 ∙ sym (append-nil (out bsm))) rfl,
    )
merge_lem (suc fuel) (r ∷ rs) bsm enough h asc f =
    let p = pop_min_lem (Follows (out bsm)) r rs f in
    round fuel (r ∷ rs) bsm p.0 p.1 h asc p.2 p.3 p.4 p.5 (passes_low p.1 p.0.first_item p.7)
      (omega (arith, enough, p.8)) (λ rs2 b e h2 asc2 f2. merge_lem fuel rs2 b e h2 asc2 f2)
