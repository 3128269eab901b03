-- ===== src/Insert/Influx.antt =====
-- app/vminsert/influx/parser.go: a row is `measurement,tag=value,… field=value,… timestamp`, with
-- escapes by a backslash and quoted field values. `no_esc` is `noEscapeChars`. A function that finds
-- a byte at `n` gives `s[:n]` and `s[n+1:]`.
pub mod Text
pub mod Scan
pub mod RoundTrip
use victoria_metrics.Base.{
  ℕ, Bool, true, false, not, ◌&&◌, ◌||◌, Option, none, some, List, [], ◌∷◌, ◌++◌, ◌==◌,
  if◌then◌else◌,
}
use victoria_metrics.Base.Split.{has_byte}
use victoria_metrics.Base.Outcome.{Outcome, ok, err, ◌>>=◌}
use victoria_metrics.Insert.Lines.{read_tags, read_rows}
use victoria_metrics.Insert.Floats.{Floats}
use Text.{unescape_tag_value, next_unescaped, next_unquoted, equal_bytes, codes}

pub record Tag : Type 0 where
  pub key : List ℕ
  pub value : List ℕ

pub data RowError : Type 0 where
  no_whitespace no_tag_value empty_key empty_measurement no_field_value empty_field_key : RowError
  empty_field no_closing_quote bad_timestamp : RowError

-- `Tag.unmarshal`
unfoldable pub unmarshal_tag : Bool → List ℕ → Outcome RowError Tag
unmarshal_tag no_esc s = elim (next_unescaped no_esc b'=' s) [
  | none ↦ err no_tag_value
  | some (front, back) ↦ elim (unescape_tag_value no_esc front) [
    | [] ↦ err empty_key
    | x ∷ k ↦ ok (record { key = x ∷ k; value = unescape_tag_value no_esc back })
  ]
]

unfoldable pub unmarshal_tags : Bool → List ℕ → Outcome RowError (List Tag)
unmarshal_tags no_esc s = read_tags (unmarshal_tag no_esc) (next_unescaped no_esc b',') s

-- The measurement, still escaped, and the tags.
unfoldable pub unmarshal_name : Bool → List ℕ → Outcome RowError (List ℕ × List Tag)
unmarshal_name no_esc s = elim (next_unescaped no_esc b',' s) [
  | none ↦ ok (s, [])
  | some (front, back) ↦ unmarshal_tags no_esc back >>= λ tags. ok (front, tags)
]

-- A byte string without its last byte, and that byte.
unfoldable pub last_byte : ℕ → List ℕ → List ℕ × ℕ
last_byte x [] = ([], x)
last_byte x (y ∷ s) = let r = last_byte y s in (x ∷ r.0, r.1)

unfoldable pub is_true : List ℕ → Bool
is_true s =
    equal_bytes s (codes "t")
    || equal_bytes s (codes "T")
    || equal_bytes s (codes "true")
    || equal_bytes s (codes "True")
    || equal_bytes s (codes "TRUE")

unfoldable pub is_false : List ℕ → Bool
is_false s =
    equal_bytes s (codes "f")
    || equal_bytes s (codes "F")
    || equal_bytes s (codes "false")
    || equal_bytes s (codes "False")
    || equal_bytes s (codes "FALSE")

module _ (F : Floats) where
  pub record Field : Type 0 where
    pub key : List ℕ
    pub value : F.Float

  pub record Row : Type 0 where
    pub measurement : List ℕ
    pub tags : List Tag
    pub fields : List Field
    pub timestamp : ℕ

  -- The text behind an opening quote, which must end with another.
  unfoldable pub unquote : List ℕ → Outcome RowError F.Float
  unfolding last_byte
  unquote [] = err no_closing_quote
  unquote (y ∷ s) =
      let r = last_byte y s in if r.1 == b'"' then ok (F.parse r.0) else err no_closing_quote

  unfoldable pub parse_field_value : Bool → List ℕ → Outcome RowError F.Float
  unfolding last_byte is_true is_false unquote
  parse_field_value quoted [] = err empty_field
  parse_field_value quoted (x ∷ s) =
      let r = last_byte x s in
      if quoted && x == b'"'
      then unquote s
      else if r.1 == b'i'
      then ok (F.of_int64 (F.parse_int64 r.0))
      else if r.1 == b'u'
      then ok (F.of_uint64 (F.parse_uint64 r.0))
      else if is_true (x ∷ s)
      then ok F.one_float
      else if is_false (x ∷ s)
      then ok F.zero_float
      else ok (F.parse (x ∷ s))

  -- `Field.unmarshal`
  unfoldable pub unmarshal_field : Bool → Bool → List ℕ → Outcome RowError Field
  unmarshal_field no_esc quoted s = elim (next_unescaped no_esc b'=' s) [
    | none ↦ err no_field_value
    | some (front, back) ↦ elim (unescape_tag_value no_esc front) [
      | [] ↦ err empty_field_key
      | x ∷ k ↦ parse_field_value quoted back >>= λ v. ok (record { key = x ∷ k; value = v })
    ]
  ]

  unfoldable pub unmarshal_fields : Bool → Bool → List ℕ → Outcome RowError (List Field)
  unmarshal_fields no_esc quoted s =
      read_tags (unmarshal_field no_esc quoted) (next_unquoted no_esc quoted b',') s

  -- A timestamp that is read as 0 must be `0`.
  unfoldable pub unmarshal_time : List ℕ → Outcome RowError ℕ
  unmarshal_time s =
      let t = F.parse_int64 s in
      if t == 0 && not (equal_bytes s (codes "0")) then err bad_timestamp else ok t

  -- The fields and the timestamp, which is 0 where there is none.
  unfoldable pub unmarshal_values : Bool → List ℕ → Outcome RowError (List Field × ℕ)
  unmarshal_values no_esc s =
      let quoted : Bool = elim (next_unescaped no_esc b'"' s) [ none ↦ false | some _ ↦ true ] in
      elim (next_unquoted no_esc quoted b' ' s) [
        | none ↦ unmarshal_fields no_esc quoted s >>= λ fields. ok (fields, 0)
        | some (front, back) ↦ unmarshal_fields no_esc quoted front >>= λ fields.
            unmarshal_time back >>= λ t. ok (fields, t)
      ]

  unfoldable pub unmarshal_row : List ℕ → Outcome RowError Row
  unmarshal_row s =
      let no_esc = not (has_byte b'\\' s) in
      elim (next_unescaped no_esc b' ' s) [
        | none ↦ err no_whitespace
        | some (front, back) ↦ unmarshal_name no_esc front >>= λ n.
            elim (unescape_tag_value no_esc n.0) [
              | [] ↦ err empty_measurement
              | x ∷ m ↦ unmarshal_values no_esc back >>= λ v.
                  ok (record { measurement = x ∷ m; tags = n.1; fields = v.0; timestamp = v.1 })
            ]
      ]

  -- `Rows.Unmarshal`
  unfoldable pub unmarshal_rows : List ℕ → Outcome RowError (List Row)
  unmarshal_rows s = read_rows unmarshal_row s
