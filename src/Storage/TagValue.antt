-- ===== src/Storage/TagValue.antt =====
-- lib/storage/metric_name.go: a tag's key or value as bytes that hold no separator, with one
-- separator behind them.
pub mod RoundTrip
pub mod Ends
use victoria_metrics.Base.{
  ℕ, zero, suc, ◌+◌, Bool, true, false, ◌&&◌, ◌||◌, not, Option, none, some,
}
use victoria_metrics.Base.{List, [], ◌∷◌, ◌++◌, length, ◌==◌, if◌then◌else◌}
use victoria_metrics.Base.Split.{has_byte, cut}
use victoria_metrics.Base.Outcome.{Outcome, ok, err, panic, ◌>>=◌}

-- 0 is `escapeChar`, 1 `tagSeparatorChar` and 2 `kvSeparatorChar`.
pub data TagError : Type 0 where
  no_end missing_char : TagError
  bad_char : ℕ → TagError
  bad_key bad_value : TagError → TagError
  bad_group : TagError → TagError
  bad_tag : TagError → TagError
  duplicate_key : List ℕ → TagError

-- The `switch` over one byte.
pub escape_char : ℕ → List ℕ
escape_char ch =
    if ch == 0
    then 0 ∷ b'0' ∷ []
    else if ch == 1
    then 0 ∷ b'1' ∷ []
    else if ch == 2
    then 0 ∷ b'2' ∷ []
    else ch ∷ []

escape_onto : List ℕ → List ℕ → List ℕ
escape_onto dst [] = dst
escape_onto dst (ch ∷ src) = escape_onto (dst ++ escape_char ch) src

unfoldable pub marshal_tag_value : List ℕ → List ℕ → List ℕ
unfolding has_byte escape_char escape_onto
marshal_tag_value dst src =
    if not (has_byte 0 src) && not (has_byte 1 src) && not (has_byte 2 src)
    then (dst ++ src) ++ 1 ∷ []
    else escape_onto dst src ++ 1 ∷ []

pub unescape_char : ℕ → Outcome TagError ℕ
unescape_char c =
    if c == b'0'
    then ok 0
    else if c == b'1'
    then ok 1
    else if c == b'2'
    then ok 2
    else err (bad_char c)

-- The loop of `unmarshalTagValue` over `b`; `panic` stands for no fuel left.
pub unescape : ℕ → List ℕ → List ℕ → Outcome TagError (List ℕ)
unescape zero dst b = panic
unescape (suc fuel) dst b = elim (cut 0 b) [
  | none ↦ ok (dst ++ b)
  | some (front, []) ↦ err missing_char
  | some (front, c ∷ rest) ↦
      unescape_char c >>= λ ch. unescape fuel ((dst ++ front) ++ ch ∷ []) rest
]

-- The tail and the value.
unfoldable pub unmarshal_tag_value : List ℕ → List ℕ → Outcome TagError (List ℕ × List ℕ)
unfolding cut unescape unescape_char
unmarshal_tag_value dst src = elim (cut 1 src) [
  | none ↦ err no_end
  | some (b, tail) ↦ unescape (suc (length b)) dst b >>= λ v. ok (tail, v)
]

pub record Tag : Type 0 where
  pub key : List ℕ
  pub value : List ℕ

unfoldable pub marshal_tag : List ℕ → Tag → List ℕ
marshal_tag dst tag = marshal_tag_value (marshal_tag_value dst tag.key) tag.value

-- The rest of `src` and the tag.
unfoldable pub unmarshal_tag : List ℕ → Outcome TagError (List ℕ × Tag)
unmarshal_tag src = elim (unmarshal_tag_value [] src) [
  | err e ↦ err (bad_key e)
  | panic ↦ panic
  | ok (tail, k) ↦ elim (unmarshal_tag_value [] tail) [
    | err e ↦ err (bad_value e)
    | panic ↦ panic
    | ok (tail', v) ↦ ok (tail', record { key = k; value = v })
  ]
]
