-- ===== src/Insert/Opentsdb.antt =====
-- app/vminsert/opentsdb/parser.go: a row is `put metric timestamp value tag=value …`.
pub mod Accepts
use victoria_metrics.Base.{ℕ, Option, none, some, List, [], ◌∷◌, ◌==◌, if◌then◌else◌}
use victoria_metrics.Base.Split.{cut}
use victoria_metrics.Base.Outcome.{Outcome, ok, err, ◌>>=◌}
use victoria_metrics.Insert.Lines.{read_tags, read_rows}
use victoria_metrics.Insert.Floats.{Floats}

pub record Tag : Type 0 where
  pub key : List ℕ
  pub value : List ℕ

pub data RowError : Type 0 where
  no_put no_timestamp no_value no_tags no_tag_value empty_key : RowError

-- `Tag.unmarshal`
unfoldable pub unmarshal_tag : List ℕ → Outcome RowError Tag
unmarshal_tag s = elim (cut b'=' s) [
  | none ↦ err no_tag_value
  | some ([], v) ↦ err empty_key
  | some (x ∷ k, v) ↦ ok (record { key = x ∷ k; value = v })
]

unfoldable pub unmarshal_tags : List ℕ → Outcome RowError (List Tag)
unmarshal_tags s = read_tags unmarshal_tag (cut b' ') s

-- `n := strings.IndexByte(s, ' ')`, with `err` where there is none.
unfoldable pub word : RowError → List ℕ → Outcome RowError (List ℕ × List ℕ)
word e s = elim (cut b' ' s) [ none ↦ err e | some r ↦ ok r ]

-- `strings.HasPrefix(s, prefix)`, and the text behind the prefix.
unfoldable pub strip_prefix : List ℕ → List ℕ → Option (List ℕ)
strip_prefix [] s = some s
strip_prefix (p ∷ prefix) [] = none
strip_prefix (p ∷ prefix) (x ∷ s) = if x == p then strip_prefix prefix s else none

abbrev pub put_prefix : List ℕ
put_prefix = b'p' ∷ b'u' ∷ b't' ∷ b' ' ∷ []

unfoldable pub strip_put : List ℕ → Outcome RowError (List ℕ)
unfolding strip_prefix
strip_put s = elim (strip_prefix put_prefix s) [ none ↦ err no_put | some rest ↦ ok rest ]

module _ (F : Floats) where
  pub record Row : Type 0 where
    pub metric : List ℕ
    pub tags : List Tag
    pub value : F.Float
    pub timestamp : ℕ

  unfoldable pub unmarshal_row : List ℕ → Outcome RowError Row
  unfolding word strip_put
  unmarshal_row s0 = do
    s ← strip_put s0
    (metric, tail1) ← word no_timestamp s
    (t, tail2) ← word no_value tail1
    (v, tail3) ← word no_tags tail2
    tags ← unmarshal_tags tail3
    ok (record {
      metric = metric;
      tags = tags;
      value = F.parse v;
      timestamp = F.to_int64 (F.parse t);
    })

  -- `Rows.Unmarshal`
  unfoldable pub unmarshal_rows : List ℕ → Outcome RowError (List Row)
  unmarshal_rows s = read_rows unmarshal_row s
