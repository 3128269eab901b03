-- ===== src/Insert/Lines/Split.antt =====
-- The loops read the pieces between the separators one after another.
use victoria_metrics.Base.{
  ℕ, zero, suc, ◌≤◌, ◌<◌, ◌≡◌, refl, ap, sym, subst, ◌∙◌, arith, Option, none, some, All,
}
use victoria_metrics.Base.{List, [], ◌∷◌, length}
use victoria_metrics.Base.Split.{cut, cut-Parts, Parts, split, split-cut, pieces}
use victoria_metrics.Base.Outcome.{Outcome, ok, ◌>>=◌, >>=-eq-ok}
use victoria_metrics.Insert.Lines.{read_all, read_pieces, read_lines, read_tags, read_rows}

-- The pieces that hold a byte.
abbrev pub filled : List (List ℕ) → List (List ℕ)
filled [] = []
filled ([] ∷ ps) = filled ps
filled ((x ∷ p) ∷ ps) = (x ∷ p) ∷ filled ps

module _ {A : Type 0} {E : Type 0} (read : List ℕ → Outcome E A) where
  pub read_pieces-last :
      (fuel : ℕ) (next : List ℕ → Option (List ℕ × List ℕ)) (s : List ℕ)
      → next s ≡ none
      → read_pieces read (suc fuel) next s ≡ (read s >>= λ a. ok (a ∷ []))
  unfolding read_pieces
  read_pieces-last fuel next s e = rw (e, read_pieces) refl

  pub read_pieces-more :
      (fuel : ℕ) (next : List ℕ → Option (List ℕ × List ℕ)) (s front back : List ℕ)
      → next s ≡ some (front, back)
      → read_pieces read (suc fuel) next s
        ≡ (read front >>= λ a. read_pieces read fuel next back >>= λ rest. ok (a ∷ rest))
  unfolding read_pieces
  read_pieces-more fuel next s front back e = rw (e, read_pieces) refl

  pub read_tags_lem :
      (next : List ℕ → Option (List ℕ × List ℕ)) (s : List ℕ)
      → read_tags read next s ≡ read_pieces read (suc (length s)) next s
  unfolding read_tags
  read_tags_lem next s = refl

  by_piece :
      (fuel c : ℕ) (s : List ℕ) (o : Option (List ℕ × List ℕ))
      → Parts s o
      → ((back : List ℕ)
          → length back < length s
          → read_pieces read fuel (cut c) back ≡ read_all read (split c back))
      → (elim o [
        | none ↦ read s >>= λ a. ok (a ∷ [])
        | some (front, back) ↦
            read front >>= λ a. read_pieces read fuel (cut c) back >>= λ rest. ok (a ∷ rest)
      ])
        ≡ read_all read (pieces s c o)
  unfolding read_all
  by_piece fuel c s none h ih = refl
  by_piece fuel c s (some (front, back)) h ih =
      ap (λ m. read front >>= λ a. m >>= λ rest. ok (a ∷ rest)) (ih back (omega arith))

  read_pieces-split :
      (fuel c : ℕ) (s : List ℕ)
      → length s < fuel
      → read_pieces read fuel (cut c) s ≡ read_all read (split c s)
  unfolding read_pieces
  read_pieces-split zero c s h = absurd (omega arith)
  read_pieces-split (suc fuel) c s h =
      by_piece fuel c s (cut c s) (cut-Parts c s)
        (λ back less. read_pieces-split fuel c back (omega arith))
      ∙ ap (read_all read) (sym (split-cut c s))

  -- `unmarshalTags` reads every piece between the separators, up to the first error.
  pub read_tags-split : (c : ℕ) (s : List ℕ) → read_tags read (cut c) s ≡ read_all read (split c s)
  unfolding read_tags
  read_tags-split c s = read_pieces-split (suc (length s)) c s (omega arith)

  by_line :
      (fuel x : ℕ) (s : List ℕ) (o : Option (List ℕ × List ℕ))
      → Parts (x ∷ s) o
      → ((back : List ℕ)
          → length back ≤ length s
          → read_lines read fuel back ≡ read_all read (filled (split b'\n' back)))
      → (elim o [
        | none ↦ read (x ∷ s) >>= λ a. ok (a ∷ [])
        | some ([], back) ↦ read_lines read fuel back
        | some (y ∷ front, back) ↦
            read (y ∷ front) >>= λ a. read_lines read fuel back >>= λ rest. ok (a ∷ rest)
      ])
        ≡ read_all read (filled (pieces (x ∷ s) b'\n' o))
  unfolding read_all
  by_line fuel x s none h ih = refl
  by_line fuel x s (some ([], back)) h ih = ih back (omega arith)
  by_line fuel x s (some (y ∷ front, back)) h ih =
      ap (λ m. read (y ∷ front) >>= λ a. m >>= λ rest. ok (a ∷ rest)) (ih back (omega arith))

  read_lines-split :
      (fuel : ℕ) (s : List ℕ)
      → length s ≤ fuel
      → read_lines read fuel s ≡ read_all read (filled (split b'\n' s))
  unfolding read_lines read_all
  read_lines-split zero [] h = refl
  read_lines-split (suc fuel) [] h = refl
  read_lines-split zero (x ∷ s) h = absurd (omega arith)
  read_lines-split (suc fuel) (x ∷ s) h =
      by_line fuel x s (cut b'\n' (x ∷ s)) (cut-Parts b'\n' (x ∷ s))
        (λ back less. read_lines-split fuel back (omega arith))
      ∙ ap (λ ps. read_all read (filled ps)) (sym (split-cut b'\n' (x ∷ s)))

  -- The loop of `unmarshalRows` ends on any text, and reads its lines that are not empty, each once and
  -- in their order, up to the first error.
  pub read_rows-split : (s : List ℕ) → read_rows read s ≡ read_all read (filled (split b'\n' s))
  unfolding read_rows
  read_rows-split s = read_lines-split (length s) s (omega arith)

  -- What holds of each item that is read holds of all, and there is one for each piece.
  pub read_all-ok {κ} :
      (P : A → Type κ)
      → ((s : List ℕ) (a : A) → read s ≡ ok a → P a)
      → (ps : List (List ℕ)) (out : List A) → read_all read ps ≡ ok out
      → All P out × (length out ≡ length ps)
  unfolding read_all
  read_all-ok P each [] out h =
      let e : [] ≡ out = cc in subst (λ l. All P l × (length l ≡ 0)) e (tt, refl)
  read_all-ok P each (p ∷ ps) out h =
      let (a, one, k) = >>=-eq-ok (read p) _ h in
      let (rest, more, same) = >>=-eq-ok (read_all read ps) (λ l. ok (a ∷ l)) k in
      let (holds, size) = read_all-ok P each ps rest more in
      let e : a ∷ rest ≡ out = cc in
      subst (λ l. All P l × (length l ≡ length (p ∷ ps))) e ((each p a one, holds), ap suc size)

pub length-split : (c : ℕ) (s : List ℕ) → 0 < length (split c s)
length-split c s = rw (split-cut c s) (by_cut (cut c s))
  where
    by_cut : (o : Option (List ℕ × List ℕ)) → 0 < length (pieces s c o)
    by_cut none = omega arith
    by_cut (some r) = omega arith
