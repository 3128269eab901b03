-- ===== src/Storage/Block/Rows.antt =====
-- The rows that a block still holds, and lists of rows in the order of their timestamps.
use mathlib.Core.List.{append_assoc, Perm, perm_append_comm}
use mathlib.Core.List.Perm.{append_left, trans}
use victoria_metrics.Base.{ℕ, zero, suc, ◌+◌, ◌≤◌, ◌≡◌, refl, sym, ap, ◌∙◌, arith, Bool-cases}
use victoria_metrics.Base.{
  List, [], ◌∷◌, ◌++◌, length, take, drop, get_elem?, some, if◌then◌else◌, inl, inr,
}
use victoria_metrics.Base.Words.{◌≤ₛ◌, sle64}
use victoria_metrics.Storage.Block.{Block, count_le}

-- A timestamp and a value.
pub record Row : Type 0 where
  pub time : ℕ
  pub value : ℕ

abbrev pub times : List Row → List ℕ
times [] = []
times (r ∷ rs) = r.time ∷ times rs

abbrev pub values_of : List Row → List ℕ
values_of [] = []
values_of (r ∷ rs) = r.value ∷ values_of rs

-- From its `nextIdx` on `b` has the rows `rs`.
abbrev pub Holds : Block → List Row → Type 0
Holds b rs = (drop b.next_idx b.timestamps ≡ times rs) × (drop b.next_idx b.values ≡ values_of rs)

-- Timestamps that do not fall, from `lo` on.
abbrev pub IsSorted : ℕ → List Row → Type 0
IsSorted lo [] = Unit
IsSorted lo (r ∷ rs) = (lo ≤ₛ r.time) × IsSorted r.time rs

module _ {A : Type 0} where
  drop-nil : (n : ℕ) → drop {A = A} n [] ≡ []
  drop-nil zero = refl
  drop-nil (suc n) = refl

  pub drop-drop : (n k : ℕ) (xs : List A) → drop (n + k) xs ≡ drop k (drop n xs)
  drop-drop zero k xs = ap (λ (j : ℕ). drop j xs) (omega arith)
  drop-drop (suc n) k [] = drop-nil (suc n + k) ∙ sym (drop-nil k)
  drop-drop (suc n) k (x ∷ xs) =
      let e : suc n + k ≡ suc (n + k) = omega arith in
      ap (λ (j : ℕ). drop j (x ∷ xs)) e ∙ drop-drop n k xs

  pub get_elem-drop :
      (n : ℕ) (xs : List A) (y : A) (ys : List A) → drop n xs ≡ y ∷ ys → get_elem? xs n ≡ some y
  get_elem-drop zero [] y ys h = cc
  get_elem-drop (suc n) [] y ys h = cc
  get_elem-drop zero (x ∷ xs) y ys h = cc
  get_elem-drop (suc n) (x ∷ xs) y ys h = get_elem-drop n xs y ys h

pub times-drop : (n : ℕ) (rs : List Row) → drop n (times rs) ≡ times (drop n rs)
times-drop zero rs = refl
times-drop (suc n) [] = refl
times-drop (suc n) (r ∷ rs) = times-drop n rs

pub times-take : (n : ℕ) (rs : List Row) → take n (times rs) ≡ times (take n rs)
times-take zero rs = refl
times-take (suc n) [] = refl
times-take (suc n) (r ∷ rs) = ap (◌∷◌ r.time) (times-take n rs)

pub values_of-drop : (n : ℕ) (rs : List Row) → drop n (values_of rs) ≡ values_of (drop n rs)
values_of-drop zero rs = refl
values_of-drop (suc n) [] = refl
values_of-drop (suc n) (r ∷ rs) = values_of-drop n rs

pub values_of-take : (n : ℕ) (rs : List Row) → take n (values_of rs) ≡ values_of (take n rs)
values_of-take zero rs = refl
values_of-take (suc n) [] = refl
values_of-take (suc n) (r ∷ rs) = ap (◌∷◌ r.value) (values_of-take n rs)

pub times-append : (rs ss : List Row) → times (rs ++ ss) ≡ times rs ++ times ss
times-append [] ss = refl
times-append (r ∷ rs) ss = ap (◌∷◌ r.time) (times-append rs ss)

pub values_of-append : (rs ss : List Row) → values_of (rs ++ ss) ≡ values_of rs ++ values_of ss
values_of-append [] ss = refl
values_of-append (r ∷ rs) ss = ap (◌∷◌ r.value) (values_of-append rs ss)

pub length-times : (rs : List Row) → length (times rs) ≡ length rs
length-times [] = refl
length-times (r ∷ rs) = ap suc (length-times rs)

-- The rows up to `t` in front keep the order of what follows them.
pub take-IsSorted :
    (t lo : ℕ) (rs out : List Row)
    → lo ≤ₛ t
    → IsSorted lo rs
    → ((lo' : ℕ) → lo' ≤ₛ t → IsSorted lo' (drop (count_le t (times rs)) rs) → IsSorted lo' out)
    → IsSorted lo (take (count_le t (times rs)) rs ++ out)
unfolding count_le
take-IsSorted t lo [] out h s rest = rest lo h tt
take-IsSorted t lo (r ∷ rs) out h s rest = elim (Bool-cases (sle64 r.time t)) [
  | inl small ↦
      rw small (s.0, take-IsSorted t r.time rs out (ground (arith, small)) s.1 (rw small at rest))
  | inr large ↦ rw large (rest lo h (rw large s))
]

-- Two parts, of which the second changes places with a third.
pub take-Perm :
    (front back other out : List Row)
    → Perm (other ++ back) out
    → Perm ((front ++ back) ++ other) (front ++ out)
take-Perm front back other out p =
    rw (append_assoc front back other) (append_left front (trans (perm_append_comm back other) p))

-- 1 where the first row of `rs` is later than that of `ss`.
abbrev pub late : List Row → List Row → ℕ
late (r ∷ rs) (s ∷ ss) = if sle64 r.time s.time then 0 else 1
late _ _ = 0

pub late-drop :
    (y : Row) (ss rs : List Row) → late (y ∷ ss) (drop (count_le y.time (times rs)) rs) ≡ 0
unfolding count_le
late-drop y ss [] = refl
late-drop y ss (r ∷ rs) = ground (arith, late-drop y ss rs)

pub late-takes :
    (r : Row) (rs : List Row) (y : Row) (ss : List Row)
    → 1 ≤ count_le y.time (times (r ∷ rs)) + late (r ∷ rs) (y ∷ ss)
unfolding count_le
late-takes r rs y ss = ground arith
