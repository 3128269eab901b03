-- ===== src/Base/Split.antt =====
-- Bytes up to the first separator, `strings.IndexByte` and the slices around it, and all the pieces
-- between separators.
use Prim.Native.Nat.{ℕ, suc, ◌+◌}
use mathlib.Core.Path.{◌≡◌, refl, ap, ◌∙◌}
use mathlib.Core.Logic.{inl, inr}
use mathlib.Core.Bool.{Bool, false, ◌||◌}
use mathlib.Core.Option.{Option, none, some}
use mathlib.Core.List.{List, [], ◌∷◌, ◌++◌}
use native.Mathlib.Omega.{arith}
use victoria_metrics.Base.Tests.{◌==◌, if◌then◌else◌, Bool-cases}
use victoria_metrics.Base.Lists.{length}

-- `bytes.IndexByte(b, c) >= 0`
unfoldable pub has_byte : ℕ → List ℕ → Bool
has_byte c [] = false
has_byte c (x ∷ b) = x == c || has_byte c b

-- `n := bytes.IndexByte(b, c)`, with `b[:n]` and `b[n+1:]`.
unfoldable pub cut : ℕ → List ℕ → Option (List ℕ × List ℕ)
cut c [] = none
cut c (x ∷ b) =
    if x == c
    then some ([], b)
    else elim (cut c b) [ none ↦ none | some (front, back) ↦ some (x ∷ front, back) ]

pub cut_append :
    (c : ℕ) (b rest : List ℕ) → has_byte c b ≡ false → cut c (b ++ c ∷ rest) ≡ some (b, rest)
unfolding cut has_byte
cut_append c [] rest h = ground arith
cut_append c (x ∷ b) rest h = ground (arith, cut_append c b rest)

pub cut-none : (c : ℕ) (b : List ℕ) → has_byte c b ≡ false → cut c b ≡ none
unfolding cut has_byte
cut-none c [] h = refl
cut-none c (x ∷ b) h = ground (arith, cut-none c b)

pub has_byte-append :
    (c : ℕ) (a b : List ℕ)
    → has_byte c a ≡ false
    → has_byte c b ≡ false
    → has_byte c (a ++ b) ≡ false
unfolding has_byte
has_byte-append c [] b h k = k
has_byte-append c (x ∷ a) b h k = ground (arith, has_byte-append c a b)

-- The parts of a cut and the byte between them make up the bytes.
abbrev pub Parts : List ℕ → Option (List ℕ × List ℕ) → Type 0
Parts b none = Unit
Parts b (some r) = length b ≡ suc (length r.0 + length r.1)

abbrev behind : ℕ → Option (List ℕ × List ℕ) → Option (List ℕ × List ℕ)
behind x none = none
behind x (some (front, back)) = some (x ∷ front, back)

Parts-behind :
    (x : ℕ) (b : List ℕ) (o : Option (List ℕ × List ℕ)) → Parts b o → Parts (x ∷ b) (behind x o)
Parts-behind x b none h = tt
Parts-behind x b (some r) h = omega arith

pub cut-Parts : (c : ℕ) (b : List ℕ) → Parts b (cut c b)
unfolding cut
cut-Parts c [] = tt
cut-Parts c (x ∷ b) = elim (Bool-cases (x == c)) [
  | inl here ↦ rw here (omega arith)
  | inr later ↦ rw later (Parts-behind x b (cut c b) (cut-Parts c b))
]

-- The pieces between the separators, one more than there are separators.
abbrev pub onto_first : ℕ → List (List ℕ) → List (List ℕ)
onto_first x [] = (x ∷ []) ∷ []
onto_first x (p ∷ ps) = (x ∷ p) ∷ ps

abbrev pub split : ℕ → List ℕ → List (List ℕ)
split c [] = [] ∷ []
split c (x ∷ s) = if x == c then [] ∷ split c s else onto_first x (split c s)

-- `split` by one cut at a time.
abbrev pub pieces : List ℕ → ℕ → Option (List ℕ × List ℕ) → List (List ℕ)
pieces s c none = s ∷ []
pieces s c (some (front, back)) = front ∷ split c back

pieces-behind :
    (x c : ℕ) (s : List ℕ) (o : Option (List ℕ × List ℕ))
    → onto_first x (pieces s c o) ≡ pieces (x ∷ s) c (behind x o)
pieces-behind x c s none = refl
pieces-behind x c s (some r) = refl

pub split-cut : (c : ℕ) (s : List ℕ) → split c s ≡ pieces s c (cut c s)
unfolding cut
split-cut c [] = refl
split-cut c (x ∷ s) = elim (Bool-cases (x == c)) [
  | inl here ↦ rw here refl
  | inr later ↦ rw later (rw (split-cut c s) (pieces-behind x c s (cut c s)))
]

abbrev pub Lacks : ℕ → List ℕ → Type 0
Lacks c s = has_byte c s ≡ false

pub split_append : (c : ℕ) (p s : List ℕ) → Lacks c p → split c (p ++ c ∷ s) ≡ p ∷ split c s
split_append c p s h = split-cut c (p ++ c ∷ s) ∙ ap (pieces (p ++ c ∷ s) c) (cut_append c p s h)

pub split-none : (c : ℕ) (s : List ℕ) → Lacks c s → split c s ≡ s ∷ []
split-none c s h = split-cut c s ∙ ap (pieces s c) (cut-none c s h)

pub Lacks-cons : (c x : ℕ) (s : List ℕ) → (x == c) ≡ false → Lacks c s → Lacks c (x ∷ s)
unfolding has_byte
Lacks-cons c x s h k = ground (arith, h)
