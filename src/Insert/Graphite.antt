-- ===== src/Insert/Graphite.antt =====
-- app/vminsert/graphite/parser.go: a row is `metric;tag=value;… value timestamp`.
pub mod RoundTrip
use victoria_metrics.Base.{ℕ, none, some, List, [], ◌∷◌}
use victoria_metrics.Base.Split.{cut}
use victoria_metrics.Base.Outcome.{Outcome, ok, err, ◌>>=◌}
use victoria_metrics.Insert.Lines.{read_tags, read_rows}
use victoria_metrics.Insert.Floats.{Floats}

pub record Tag : Type 0 where
  pub key : List ℕ
  pub value : List ℕ

pub data RowError : Type 0 where
  no_whitespace no_tag_value empty_key : RowError

-- `Tag.unmarshal`
unfoldable pub unmarshal_tag : List ℕ → Outcome RowError Tag
unmarshal_tag s = elim (cut b'=' s) [
  | none ↦ err no_tag_value
  | some ([], v) ↦ err empty_key
  | some (x ∷ k, v) ↦ ok (record { key = x ∷ k; value = v })
]

unfoldable pub unmarshal_tags : List ℕ → Outcome RowError (List Tag)
unmarshal_tags s = read_tags unmarshal_tag (cut b';') s

module _ (F : Floats) where
  pub record Row : Type 0 where
    pub metric : List ℕ
    pub tags : List Tag
    pub value : F.Float
    pub timestamp : ℕ

  -- `Row.unmarshal`: the part in front of the first space, and the numbers behind it.
  unfoldable pub unmarshal_name : List ℕ → Outcome RowError (List ℕ × List Tag)
  unmarshal_name s = elim (cut b';' s) [
    | none ↦ ok (s, [])
    | some (metric, rest) ↦ unmarshal_tags rest >>= λ tags. ok (metric, tags)
  ]

  -- The value and the timestamp, which is 0 where there is none.
  unfoldable pub unmarshal_numbers : List ℕ → F.Float × ℕ
  unmarshal_numbers tail = elim (cut b' ' tail) [
    | none ↦ (F.parse tail, 0)
    | some (v, t) ↦ (F.parse v, F.parse_int64 t)
  ]

  unfoldable pub unmarshal_row : List ℕ → Outcome RowError Row
  unmarshal_row s = elim (cut b' ' s) [
    | none ↦ err no_whitespace
    | some (name, tail) ↦ unmarshal_name name >>= λ n.
        let v = unmarshal_numbers tail in
        ok (record { metric = n.0; tags = n.1; value = v.0; timestamp = v.1 })
  ]

  -- `Rows.Unmarshal`
  unfoldable pub unmarshal_rows : List ℕ → Outcome RowError (List Row)
  unmarshal_rows s = read_rows unmarshal_row s
