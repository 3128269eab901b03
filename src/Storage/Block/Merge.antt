-- ===== src/Storage/Block/Merge.antt =====
-- The merge of two blocks as a merge of their rows.
use mathlib.Core.List.{append_assoc, append-nil, Perm}
use mathlib.Core.List.Perm.{rfl}
use victoria_metrics.Base.{
  ℕ, zero, suc, ◌+◌, ◌-◌, ◌≤◌, ◌<◌, ◌≡◌, refl, sym, ap, ap₂, ◌∙◌, arith, true, false, subst,
}
use victoria_metrics.Base.{List, [], ◌∷◌, ◌++◌, length, take, drop, leb, if◌then◌else◌}
use victoria_metrics.Base.{take-append-drop, length-drop}
use victoria_metrics.Base.Outcome.{Outcome, ok}
use victoria_metrics.Storage.Block.{Block, append_range, append_rows, count_le, merge_loop}
use victoria_metrics.Storage.Block.Rows.{
  Row, times, values_of, Holds, IsSorted, drop-drop, get_elem-drop,
}
use victoria_metrics.Storage.Block.Rows.{times-drop, times-take, values_of-drop, values_of-take}
use victoria_metrics.Storage.Block.Rows.{times-append, values_of-append, length-times}
use victoria_metrics.Storage.Block.Rows.{take-IsSorted, take-Perm, late, late-drop, late-takes}

-- `ob` with rows appended.
abbrev pub with_rows : Block → List Row → Block
with_rows ob rs = record ob {
  timestamps = ob.timestamps ++ times rs;
  values = ob.values ++ values_of rs;
}

pub with_rows-append :
    (ob : Block) (rs ss : List Row) → with_rows (with_rows ob rs) ss ≡ with_rows ob (rs ++ ss)
with_rows-append ob rs ss =
    ap₂ (λ (ts : List ℕ) (vs : List ℕ). record ob { timestamps = ts; values = vs })
      (append_assoc ob.timestamps (times rs) (times ss)
        ∙ ap (◌++◌ ob.timestamps) (sym (times-append rs ss)))
      (append_assoc ob.values (values_of rs) (values_of ss)
        ∙ ap (◌++◌ ob.values) (sym (values_of-append rs ss)))

pub append_rows-Holds :
    (ob ib : Block) (rs : List Row) → Holds ib rs → append_rows ob ib ≡ with_rows ob rs
unfolding append_rows
append_rows-Holds ob ib rs (ht, hv) =
    ap₂
      (λ (ts : List ℕ) (vs : List ℕ). record ob {
        timestamps = ob.timestamps ++ ts;
        values = ob.values ++ vs;
      })
      ht hv

append_range-Holds :
    (ob ib : Block) (n : ℕ) (rs : List Row)
    → Holds ib rs
    → append_range ob ib n ≡ with_rows ob (take n rs)
unfolding append_range
append_range-Holds ob ib n rs (ht, hv) =
    ap₂
      (λ (ts : List ℕ) (vs : List ℕ). record ob {
        timestamps = ob.timestamps ++ ts;
        values = ob.values ++ vs;
      })
      (ap (take n) ht ∙ times-take n rs) (ap (take n) hv ∙ values_of-take n rs)

-- `ib` with its index moved on.
abbrev past : Block → ℕ → Block
past ib n = record ib { next_idx = ib.next_idx + n }

past-Holds : (ib : Block) (n : ℕ) (rs : List Row) → Holds ib rs → Holds (past ib n) (drop n rs)
past-Holds ib n rs (ht, hv) = (
  drop-drop ib.next_idx n ib.timestamps ∙ ap (drop n) ht ∙ times-drop n rs,
  drop-drop ib.next_idx n ib.values ∙ ap (drop n) hv ∙ values_of-drop n rs,
)

pub rows_left :
    (ib : Block) (rs : List Row) → Holds ib rs → length ib.timestamps - ib.next_idx ≡ length rs
rows_left ib rs (ht, hv) =
    sym (length-drop ib.next_idx ib.timestamps) ∙ ap length ht ∙ length-times rs

-- The outcome is `ob` with the rows `rs` and `ss` in some order, which is that of the timestamps where
-- both lists have it.
abbrev pub Merges : {E : Type 0} → Outcome E Block → Block → List Row → List Row → Type 0
Merges o ob rs ss =
    (out : List Row) × (o ≡ ok (with_rows ob out))
    × Perm (rs ++ ss) out
    × ((lo : ℕ) → IsSorted lo rs → IsSorted lo ss → IsSorted lo out)

-- The fuel that the rest of the loop needs.
enough :
    (fuel : ℕ) (r1 : List Row) (y : Row) (r2 : List Row) (x : Row) (left : List Row)
    → drop (count_le y.time (times r1)) r1 ≡ x ∷ left
    → length r1 + suc (length r2) + late r1 (y ∷ r2) ≤ suc fuel
    → length (y ∷ r2) + suc (length left) + late (y ∷ r2) (x ∷ left) ≤ fuel
enough fuel [] y r2 x left e k =
    let n = count_le y.time (times []) in
    let size : 0 - n ≡ suc (length left) = sym (length-drop {A = Row} n []) ∙ ap length e in
    absurd (omega arith)
enough fuel (r ∷ rs) y r2 x left e k =
    let n = count_le y.time (times (r ∷ rs)) in
    let size : suc (length rs) - n ≡ suc (length left) =
      sym (length-drop n (r ∷ rs)) ∙ ap length e in
    let in_order : late (y ∷ r2) (x ∷ left) ≡ 0 =
      ap (late (y ∷ r2)) (sym e) ∙ late-drop y r2 (r ∷ rs) in
    omega (arith, late-takes r rs y r2)

module _ {E : Type 0} where
  merge_loop_step :
      (fuel : ℕ) (ob ib1 ib2 : Block) (r1 : List Row) (y : Row) (r2 : List Row)
      → Holds ib1 r1
      → Holds ib2 (y ∷ r2)
      → let n = count_le y.time (times r1) in
        merge_loop {E = E} (suc fuel) ob ib1 ib2 ≡ (
          if leb (length ib1.timestamps) (ib1.next_idx + n)
          then ok (append_rows (with_rows ob (take n r1)) ib2)
          else merge_loop fuel (with_rows ob (take n r1)) ib2 (past ib1 n))
  unfolding merge_loop
  merge_loop_step fuel ob ib1 ib2 r1 y r2 h1 h2 =
      rw (get_elem-drop ib2.next_idx ib2.timestamps y.time (times r2) h2.0, merge_loop)
        (rw (h1.0, append_range-Holds ob ib1 (count_le y.time (times r1)) r1 h1) refl)

  -- The rows that were taken, in front of what the rest of the loop appends.
  taken :
      (o : Outcome E Block) (ob : Block) (r1 : List Row) (y : Row) (r2 : List Row)
      → let n = count_le y.time (times r1) in
        Merges o (with_rows ob (take n r1)) (y ∷ r2) (drop n r1) → Merges o ob r1 (y ∷ r2)
  taken o ob r1 y r2 (out, e, p, s) =
      let n = count_le y.time (times r1) in
      (
        take n r1 ++ out,
        e ∙ ap ok (with_rows-append ob (take n r1) out),
        subst (λ (l : List Row). Perm (l ++ y ∷ r2) (take n r1 ++ out)) (take-append-drop n r1)
            (take-Perm (take n r1) (drop n r1) (y ∷ r2) out p),
        λ lo s1 s2. take-IsSorted y.time lo r1 out s2.0 s1 (λ lo' le sd. s lo' (le, s2.1) sd),
      )

  rest_done :
      (ob ib2 : Block) (r2 : List Row)
      → Holds ib2 r2
      → Merges {E = E} (ok (append_rows ob ib2)) ob r2 []
  rest_done ob ib2 r2 h =
      (r2, ap ok (append_rows-Holds ob ib2 r2 h), rw (append-nil r2) rfl, λ lo s1 s2. s1)

  -- What follows the rows that were taken: the other block's, if none are left here, or the loop's.
  round :
      (o : Outcome E Block) (ob ib1 ib2 : Block) (n : ℕ) (r1 r2 left : List Row)
      → Holds ib1 r1
      → Holds ib2 r2
      → drop n r1 ≡ left
      → (0 < length left → Merges o ob r2 left)
      → Merges
          (if leb (length ib1.timestamps) (ib1.next_idx + n) then ok (append_rows ob ib2) else o)
          ob
          r2
          (drop n r1)
  round o ob ib1 ib2 n r1 r2 [] h1 h2 e more =
      let size : length ib1.timestamps - (ib1.next_idx + n) ≡ 0 =
        rows_left (past ib1 n) (drop n r1) (past-Holds ib1 n r1 h1) ∙ ap length e in
      let done : leb (length ib1.timestamps) (ib1.next_idx + n) ≡ true = ground arith in
      rw (done, e) (rest_done ob ib2 r2 h2)
  round o ob ib1 ib2 n r1 r2 (x ∷ left) h1 h2 e more =
      let size : length ib1.timestamps - (ib1.next_idx + n) ≡ suc (length left) =
        rows_left (past ib1 n) (drop n r1) (past-Holds ib1 n r1 h1) ∙ ap length e in
      let goes : leb (length ib1.timestamps) (ib1.next_idx + n) ≡ false = ground arith in
      rw (goes, e) (more (omega arith))

  -- With a round for every row, and one more where the first rows are out of order, the loop ends.
  pub merge_loop-Merges :
      (fuel : ℕ) (ob ib1 ib2 : Block) (r1 : List Row) (y : Row) (r2 : List Row)
      → Holds ib1 r1
      → Holds ib2 (y ∷ r2)
      → length r1 + suc (length r2) + late r1 (y ∷ r2) ≤ fuel
      → Merges {E = E} (merge_loop fuel ob ib1 ib2) ob r1 (y ∷ r2)
  merge_loop-Merges zero ob ib1 ib2 r1 y r2 h1 h2 k = absurd (omega arith)
  merge_loop-Merges (suc fuel) ob ib1 ib2 r1 y r2 h1 h2 k =
      let n = count_le y.time (times r1) in
      let ob' = with_rows ob (take n r1) in
      let on : (left : List Row)
          → drop n r1 ≡ left
          → 0 < length left
          → Merges {E = E} (merge_loop fuel ob' ib2 (past ib1 n)) ob' (y ∷ r2) left =
        λ l.
          elim l
            as (λ m.
              drop n r1 ≡ m
              → 0 < length m
              → Merges {E = E} (merge_loop fuel ob' ib2 (past ib1 n)) ob' (y ∷ r2) m) [
                | [] ↦ λ e h. absurd (omega arith)
                | x ∷ l' ↦ λ e h.
                    merge_loop-Merges fuel ob' ib2 (past ib1 n) (y ∷ r2) x l' h2
                      (subst (Holds (past ib1 n)) e (past-Holds ib1 n r1 h1))
                      (enough fuel r1 y r2 x l' e k)
              ] in
      rw (merge_loop_step fuel ob ib1 ib2 r1 y r2 h1 h2) (
        taken _ ob r1 y r2
          (round _ ob' ib1 ib2 n r1 (y ∷ r2) (drop n r1) h1 h2 refl (on (drop n r1) refl)))
