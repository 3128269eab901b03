-- ===== src/Insert/Lines.antt =====
-- app/vminsert/graphite, opentsdb and influx, parser.go: the loops `unmarshalRows` and `unmarshalTags`,
-- which are the same in the three packages but for the reader of one line or one tag. The pools that
-- the tags are kept in only save allocations: a row has its own list. On an error the callers drop
-- the rows before it, and so does the model.
pub mod Split
use victoria_metrics.Base.{ℕ, zero, suc, Option, none, some, List, [], ◌∷◌, length}
use victoria_metrics.Base.Split.{cut}
use victoria_metrics.Base.Outcome.{Outcome, ok, err, panic, ◌>>=◌}

module _ {A : Type 0} {E : Type 0} (read : List ℕ → Outcome E A) where
  -- No code of its own, but what the loops below are compared with: `read` on every item, up to the
  -- first error.
  unfoldable pub read_all : List (List ℕ) → Outcome E (List A)
  read_all [] = ok []
  read_all (p ∷ ps) = read p >>= λ a. read_all ps >>= λ rest. ok (a ∷ rest)

  -- The endless loop of `unmarshalTags`, which leaves at the last piece; `next` finds the separator.
  -- Each round takes a byte at least, so `len(s)` rounds and one are enough.
  unfoldable pub read_pieces : ℕ → (List ℕ → Option (List ℕ × List ℕ)) → List ℕ → Outcome E (List A)
  read_pieces zero next s = panic
  read_pieces (suc fuel) next s = elim (next s) [
    | none ↦ read s >>= λ a. ok (a ∷ [])
    | some (front, back) ↦ read front >>= λ a. read_pieces fuel next back >>= λ rest. ok (a ∷ rest)
  ]

  -- The loop `for len(s) > 0` of `unmarshalRows`.
  unfoldable pub read_lines : ℕ → List ℕ → Outcome E (List A)
  read_lines fuel [] = ok []
  read_lines zero (_ ∷ _) = panic
  read_lines (suc fuel) (x ∷ s) = elim (cut b'\n' (x ∷ s)) [
    | none ↦ read (x ∷ s) >>= λ a. ok (a ∷ [])
    | some ([], back) ↦ read_lines fuel back
    | some (y ∷ front, back) ↦
        read (y ∷ front) >>= λ a. read_lines fuel back >>= λ rest. ok (a ∷ rest)
  ]

  unfoldable pub read_tags : (List ℕ → Option (List ℕ × List ℕ)) → List ℕ → Outcome E (List A)
  unfolding read_pieces
  read_tags next s = read_pieces (suc (length s)) next s

  unfoldable pub read_rows : List ℕ → Outcome E (List A)
  unfolding read_lines
  read_rows s = read_lines (length s) s
