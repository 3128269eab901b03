-- ===== src/Storage/TagValue/RoundTrip.antt =====
-- Escaping is undone, and reading always ends.
use mathlib.Core.List.{append_assoc, append-nil}
use victoria_metrics.Base.{
  ℕ, zero, suc, ◌+◌, ◌≤◌, ◌<◌, ◌≡◌, refl, sym, ap, ◌∙◌, arith, Bool, true, false,
}
use victoria_metrics.Base.{◌||◌, some, inl, inr, List, [], ◌∷◌, ◌++◌, length, length-append}
use victoria_metrics.Base.{◌==◌, Bool-cases}
use victoria_metrics.Base.Outcome.{ok, ◌>>=◌}
use victoria_metrics.Storage.TagValue.{escape_char, escape_onto}
use victoria_metrics.Base.Split.{has_byte, cut, cut_append, cut-none, has_byte-append}
use victoria_metrics.Storage.TagValue.{
  marshal_tag_value, unescape_char, unescape, unmarshal_tag_value,
}
use victoria_metrics.Storage.TagValue.{Tag, marshal_tag, unmarshal_tag}

-- The escaped bytes.
pub escape : List ℕ → List ℕ
escape [] = []
escape (ch ∷ src) = escape_char ch ++ escape src

escape_onto_lem : (dst src : List ℕ) → escape_onto dst src ≡ dst ++ escape src
unfolding escape_onto escape
escape_onto_lem dst [] = sym (append-nil dst)
escape_onto_lem dst (ch ∷ src) =
    escape_onto_lem (dst ++ escape_char ch) src ∙ append_assoc dst (escape_char ch) (escape src)

-- The fast path writes what the slow one would.
escape_plain :
    (src : List ℕ)
    → has_byte 0 src ≡ false
    → has_byte 1 src ≡ false
    → has_byte 2 src ≡ false
    → escape src ≡ src
unfolding escape has_byte escape_char
escape_plain [] h0 h1 h2 = refl
escape_plain (ch ∷ src) h0 h1 h2 = ground (arith, escape_plain src)

pub marshal_tag_value_lem :
    (dst src : List ℕ) → marshal_tag_value dst src ≡ (dst ++ escape src) ++ 1 ∷ []
unfolding marshal_tag_value
marshal_tag_value_lem dst src = ground (arith, escape_plain src, escape_onto_lem dst src)

-- No separator is left among the escaped bytes.
escape-no_separator : (src : List ℕ) → has_byte 1 (escape src) ≡ false
unfolding escape
escape-no_separator [] = unfold has_byte in refl
escape-no_separator (ch ∷ src) =
    has_byte-append 1 (escape_char ch) (escape src) (unfold has_byte escape_char in ground arith)
      (escape-no_separator src)

unescape_step :
    (fuel : ℕ) (dst front rest : List ℕ) (c : ℕ)
    → has_byte 0 front ≡ false
    → unescape (suc fuel) dst (front ++ 0 ∷ c ∷ rest)
      ≡ (unescape_char c >>= λ ch. unescape fuel ((dst ++ front) ++ ch ∷ []) rest)
unfolding unescape
unescape_step fuel dst front rest c h = rw (cut_append 0 front (c ∷ rest) h, unescape)

unescape_last :
    (fuel : ℕ) (dst b : List ℕ) → has_byte 0 b ≡ false → unescape (suc fuel) dst b ≡ ok (dst ++ b)
unfolding unescape
unescape_last fuel dst b h = rw (cut-none 0 b h, unescape)

no_byte : (c : ℕ) → has_byte c [] ≡ false
unfolding has_byte
no_byte c = refl

is_special : ℕ → Bool
is_special ch = ch == 0 || ch == 1 || ch == 2

-- An escaped byte is 0 and a digit that stands for it; another stays as it is.
escape_special :
    (ch : ℕ)
    → is_special ch ≡ true
    → (d : ℕ) × (escape_char ch ≡ 0 ∷ d ∷ []) × (unescape_char d ≡ ok ch)
unfolding is_special escape_char unescape_char
escape_special ch h = (b'0' + ch, ground arith, ground arith)

escape_normal :
    (ch : ℕ) → is_special ch ≡ false → (escape_char ch ≡ ch ∷ []) × (has_byte 0 (ch ∷ []) ≡ false)
unfolding is_special escape_char has_byte
escape_normal ch h = (ground arith, ground arith)

-- `front` holds the bytes that are copied as they are since the last escape.
unescape-escape :
    (fuel : ℕ) (dst front src : List ℕ)
    → length src < fuel
    → has_byte 0 front ≡ false
    → unescape fuel dst (front ++ escape src) ≡ ok ((dst ++ front) ++ src)
unfolding escape
unescape-escape zero dst front src h plain = absurd (omega arith)
unescape-escape (suc fuel) dst front [] h plain =
    rw (append-nil front, append-nil (dst ++ front)) (unescape_last fuel dst front plain)
unescape-escape (suc fuel) dst front (ch ∷ src) h plain = elim (Bool-cases (is_special ch)) [
  | inl special ↦
      let (d, written, read) = escape_special ch special in
      rw written (
        unescape_step fuel dst front (escape src) d plain
        ∙ rw read (
            unescape-escape fuel ((dst ++ front) ++ ch ∷ []) [] src (omega arith) (no_byte 0)
            ∙ ap ok (rw append-nil (append_assoc (dst ++ front) (ch ∷ []) src))))
  | inr normal ↦
      let (written, zero_free) = escape_normal ch normal in
      rw (written, ← append_assoc front (ch ∷ []) (escape src))
        (unescape-escape (suc fuel) dst (front ++ ch ∷ []) src (omega arith)
            (has_byte-append 0 front (ch ∷ []) plain zero_free)
          ∙ ap ok (
              ap (λ (l : List ℕ). l ++ src) (sym (append_assoc dst front (ch ∷ [])))
              ∙ append_assoc (dst ++ front) (ch ∷ []) src))
]

one_at_least : (ch : ℕ) → 1 ≤ length (escape_char ch)
unfolding escape_char
one_at_least ch = ground arith

escape_shorter : (src : List ℕ) → length src ≤ length (escape src)
unfolding escape
escape_shorter [] = omega arith
escape_shorter (ch ∷ src) = rw length-append (omega (arith, escape_shorter src, one_at_least ch))

unmarshal_tag_value_lem :
    (dst src b tail v : List ℕ)
    → cut 1 src ≡ some (b, tail)
    → unescape (suc (length b)) dst b ≡ ok v
    → unmarshal_tag_value dst src ≡ ok (tail, v)
unfolding unmarshal_tag_value
unmarshal_tag_value_lem dst src b tail v e u = rw (e, unmarshal_tag_value) (rw u)

-- `unmarshalTagValue` gives back every key or value that `marshalTagValue` wrote to an empty slice,
-- behind what `dst` held, and leaves the bytes that follow the separator.
pub unmarshal-marshal_tag_value :
    (dst src rest : List ℕ)
    → unmarshal_tag_value dst (marshal_tag_value [] src ++ rest) ≡ ok (rest, dst ++ src)
unmarshal-marshal_tag_value dst src rest =
    rw (marshal_tag_value_lem [] src, append_assoc (escape src) (1 ∷ []) rest)
      (unmarshal_tag_value_lem dst (escape src ++ 1 ∷ rest) (escape src) rest (dst ++ src)
        (cut_append 1 (escape src) rest (escape-no_separator src))
        (unescape-escape (suc (length (escape src))) dst [] src (omega (arith, escape_shorter src))
            (no_byte 0)
          ∙ ap (λ (l : List ℕ). ok (l ++ src)) (append-nil dst)))

-- Writing behind `dst` is writing to an empty slice, and joining.
pub marshal_tag_value-append :
    (dst src : List ℕ) → marshal_tag_value dst src ≡ dst ++ marshal_tag_value [] src
marshal_tag_value-append dst src =
    marshal_tag_value_lem dst src
    ∙ append_assoc dst (escape src) (1 ∷ [])
    ∙ ap (λ (l : List ℕ). dst ++ l) (sym (marshal_tag_value_lem [] src))

pub marshal_tag-append :
    (dst : List ℕ) (tag : Tag) → marshal_tag dst tag ≡ dst ++ marshal_tag [] tag
unfolding marshal_tag
marshal_tag-append dst tag =
    marshal_tag_value-append (marshal_tag_value dst tag.key) tag.value
    ∙ ap (λ (l : List ℕ). l ++ marshal_tag_value [] tag.value)
        (marshal_tag_value-append dst tag.key)
    ∙ append_assoc dst (marshal_tag_value [] tag.key) (marshal_tag_value [] tag.value)
    ∙ ap (λ (l : List ℕ). dst ++ l)
        (sym (marshal_tag_value-append (marshal_tag_value [] tag.key) tag.value))

unmarshal_tag_lem :
    (src mid tail k v : List ℕ)
    → unmarshal_tag_value [] src ≡ ok (mid, k)
    → unmarshal_tag_value [] mid ≡ ok (tail, v)
    → unmarshal_tag src ≡ ok (tail, record { key = k; value = v })
unfolding unmarshal_tag
unmarshal_tag_lem src mid tail k v e f = rw (e, unmarshal_tag) (rw (f, unmarshal_tag))

pub unmarshal-marshal_tag :
    (tag : Tag) (rest : List ℕ) → unmarshal_tag (marshal_tag [] tag ++ rest) ≡ ok (rest, tag)
unfolding marshal_tag
unmarshal-marshal_tag tag rest =
    let value = marshal_tag_value [] tag.value in
    rw
      (
        marshal_tag_value-append (marshal_tag_value [] tag.key) tag.value,
        append_assoc (marshal_tag_value [] tag.key) value rest,
      )
      (unmarshal_tag_lem _ (value ++ rest) rest tag.key tag.value
        (unmarshal-marshal_tag_value [] tag.key (value ++ rest))
        (unmarshal-marshal_tag_value [] tag.value rest))
