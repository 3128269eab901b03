-- ===== src/Promql/Ident/Unescape.antt =====
-- A name escaped and read back.
use mathlib.Core.List.{append_assoc, append-nil}
use victoria_metrics.Base.{
  ℕ, zero, suc, ◌*◌, ◌/◌, ◌%◌, ◌≤◌, ◌<◌, bit_and, bit_or, ◌≡◌, refl, sym, ap, ◌∙◌, arith,
}
use victoria_metrics.Base.{Bool, true, false, not, ◌&&◌, inl, inr, Bool-cases, Option, none, some}
use victoria_metrics.Base.{List, [], ◌∷◌, ◌++◌, length, length-append, All, ltb, leb, ◌==◌}
use victoria_metrics.Base.Words.{IsByte}
use victoria_metrics.Base.Split.{cut}
use victoria_metrics.Base.Bits.Table.{agree_below, agree_below→eq}
use victoria_metrics.Promql.Ident.{
  is_decimal_char, is_first_ident_char, is_ident_char, from_hex, to_hex, hex_escape, escape_char,
  append_escaped, append_escaped_ident, take_escaped, unescape_loop, unescape_ident,
}

-- What a round does at the next backslash.
abbrev pub after : ℕ → List ℕ → List ℕ → Option (List ℕ × List ℕ) → List ℕ
after fuel d t none = d ++ t
after fuel d t (some (front, [])) = d ++ front
after fuel d t (some (front, c ∷ back)) =
    let r = take_escaped c back in unescape_loop fuel ((d ++ front) ++ r.0 ∷ []) r.1

abbrev pub behind : ℕ → Option (List ℕ × List ℕ) → Option (List ℕ × List ℕ)
behind ch none = none
behind ch (some (front, back)) = some (ch ∷ front, back)

pub grow :
    (fuel : ℕ) (dst : List ℕ) (ch : ℕ) (s : List ℕ) (o : Option (List ℕ × List ℕ))
    → after fuel dst (ch ∷ s) (behind ch o) ≡ after fuel (dst ++ ch ∷ []) s o
grow fuel dst ch s none = sym (append_assoc dst (ch ∷ []) s)
grow fuel dst ch s (some (front, [])) = sym (append_assoc dst (ch ∷ []) front)
grow fuel dst ch s (some (front, c ∷ back)) =
    ap (λ l. unescape_loop fuel (l ++ (take_escaped c back).0 ∷ []) (take_escaped c back).1)
      (sym (append_assoc dst (ch ∷ []) front))

pub loop-after :
    (fuel : ℕ) (dst s : List ℕ) → unescape_loop (suc fuel) dst s ≡ after fuel dst s (cut b'\\' s)
unfolding unescape_loop
loop-after fuel dst s = go (cut b'\\' s)
  where
    go :
        (o : Option (List ℕ × List ℕ))
        → (elim o [
          | none ↦ dst ++ s
          | some (front, []) ↦ dst ++ front
          | some (front, ch ∷ back) ↦
              let r = take_escaped ch back in unescape_loop fuel ((dst ++ front) ++ r.0 ∷ []) r.1
        ])
          ≡ after fuel dst s o
    go none = refl
    go (some (front, [])) = refl
    go (some (front, c ∷ back)) = refl

pub cut_later :
    (ch : ℕ) (s : List ℕ) → (ch == b'\\') ≡ false → cut b'\\' (ch ∷ s) ≡ behind ch (cut b'\\' s)
unfolding cut
cut_later ch s h = rw h (go (cut b'\\' s))
  where
    go :
        (o : Option (List ℕ × List ℕ))
        → elim o [ none ↦ none | some (front, back) ↦ some (ch ∷ front, back) ] ≡ behind ch o
    go none = refl
    go (some (front, back)) = refl

-- A byte that is no backslash goes to `dst`.
pub unescape_loop-plain :
    (fuel : ℕ) (dst : List ℕ) (ch : ℕ) (s : List ℕ)
    → (ch == b'\\') ≡ false
    → unescape_loop (suc fuel) dst (ch ∷ s) ≡ unescape_loop (suc fuel) (dst ++ ch ∷ []) s
unescape_loop-plain fuel dst ch s h =
    loop-after fuel dst (ch ∷ s)
    ∙ ap (after fuel dst (ch ∷ s)) (cut_later ch s h)
    ∙ grow fuel dst ch s (cut b'\\' s)
    ∙ sym (loop-after fuel (dst ++ ch ∷ []) s)

pub unescape_loop-escape :
    (fuel : ℕ) (dst : List ℕ) (ch : ℕ) (back : List ℕ)
    → unescape_loop (suc fuel) dst (b'\\' ∷ ch ∷ back)
      ≡ unescape_loop fuel (dst ++ (take_escaped ch back).0 ∷ []) (take_escaped ch back).1
unfolding unescape_loop cut
unescape_loop-escape fuel dst ch back =
    ap (λ l. unescape_loop fuel (l ++ (take_escaped ch back).0 ∷ []) (take_escaped ch back).1)
      (append-nil dst)

pub from-to_hex : (n : ℕ) → n < 16 → from_hex (to_hex n) ≡ some n
unfolding from_hex to_hex
from-to_hex n h = ground arith

pub low_digit : (ch : ℕ) → ch < 256 → bit_and ch 0xf ≡ ch % 16
unfolding agree_below
low_digit = agree_below→eq (λ ch. bit_and ch 0xf) (λ ch. ch % 16) 256 refl

pub joined : (ch : ℕ) → ch < 256 → bit_or (ch / 16 * 16) (ch % 16) ≡ ch
unfolding agree_below
joined = agree_below→eq (λ ch. bit_or (ch / 16 * 16) (ch % 16)) (λ ch. ch) 256 refl

pub hex_back :
    (ch : ℕ) (t : List ℕ)
    → ch < 256
    → take_escaped b'x' (to_hex (ch / 16) ∷ to_hex (bit_and ch 0xf) ∷ t) ≡ (ch, t)
unfolding take_escaped
hex_back ch t h =
    let low : from_hex (to_hex (bit_and ch 0xf)) ≡ some (ch % 16) =
      ap (λ n. from_hex (to_hex n)) (low_digit ch h) ∙ from-to_hex (ch % 16) (omega arith) in
    rw (take_escaped, from-to_hex (ch / 16) (omega arith), low, joined ch h) refl

pub plain_back : (ch : ℕ) (t : List ℕ) → (ch == b'x') ≡ false → take_escaped ch t ≡ (ch, t)
unfolding take_escaped
plain_back ch [] h = refl
plain_back ch (a ∷ []) h = refl
plain_back ch (a ∷ b ∷ t) h = rw (take_escaped, h) refl

pub no_backslash : (ch : ℕ) → is_ident_char ch ≡ true → (ch == b'\\') ≡ false
unfolding is_ident_char is_first_ident_char is_decimal_char
no_backslash ch h = ground arith

pub no_x : (ch : ℕ) → is_ident_char ch ≡ false → (ch == b'x') ≡ false
unfolding is_ident_char is_first_ident_char is_decimal_char
no_x ch h = ground arith

-- One byte, escaped or not, and the rounds that are left behind it.
abbrev pub CharBack : ℕ → List ℕ → List ℕ → ℕ → List ℕ → Type 0
CharBack fuel dst e ch t =
    (k : ℕ) × (fuel ≤ k)
    × (unescape_loop (suc fuel) dst (e ++ t) ≡ unescape_loop k (dst ++ ch ∷ []) t)

pub hex_escape-back :
    (fuel : ℕ) (dst : List ℕ) (ch : ℕ) (t : List ℕ)
    → ch < 256
    → CharBack fuel dst (hex_escape ch) ch t
unfolding hex_escape
hex_escape-back fuel dst ch t h = (
  fuel,
  omega arith,
  unescape_loop-escape fuel dst b'x' (to_hex (ch / 16) ∷ to_hex (bit_and ch 0xf) ∷ t)
      ∙ ap (λ (r : ℕ × List ℕ). unescape_loop fuel (dst ++ r.0 ∷ []) r.1) (hex_back ch t h),
)

pub escape_char-back :
    (fuel : ℕ) (dst : List ℕ) (first : Bool) (ch : ℕ) (t : List ℕ)
    → ch < 256
    → CharBack fuel dst (escape_char first ch) ch t
unfolding escape_char
escape_char-back fuel dst first ch t h = elim (Bool-cases (is_ident_char ch)) [
  | inl e ↦ elim (Bool-cases (first && not (is_first_ident_char ch))) [
    | inl f ↦ rw (escape_char, e, f) (hex_escape-back fuel dst ch t h)
    | inr f ↦
        rw (escape_char, e, f)
          (suc fuel, omega arith, unescape_loop-plain fuel dst ch t (no_backslash ch e))
  ]
  | inr e ↦ elim (Bool-cases (leb 0x20 ch && ltb ch 0x7f)) [
    | inl f ↦
        rw (escape_char, e, f)
          (
            fuel,
            omega arith,
            unescape_loop-escape fuel dst ch t
                ∙ ap (λ (r : ℕ × List ℕ). unescape_loop fuel (dst ++ r.0 ∷ []) r.1)
                    (plain_back ch t (no_x ch e)),
          )
    | inr f ↦ rw (escape_char, e, f) (hex_escape-back fuel dst ch t h)
  ]
]

unfoldable pub escaped : Bool → List ℕ → List ℕ
escaped first [] = []
escaped first (ch ∷ s) = escape_char first ch ++ escaped false s

pub append_escaped_lem :
    (first : Bool) (dst s : List ℕ) → append_escaped first dst s ≡ dst ++ escaped first s
unfolding append_escaped escaped
append_escaped_lem first dst [] = sym (append-nil dst)
append_escaped_lem first dst (ch ∷ s) =
    append_escaped_lem false (dst ++ escape_char first ch) s
    ∙ append_assoc dst (escape_char first ch) (escaped false s)

pub escaped_back :
    (fuel : ℕ) (dst : List ℕ) (first : Bool) (s : List ℕ)
    → length s < fuel
    → All IsByte s
    → unescape_loop fuel dst (escaped first s) ≡ dst ++ s
unfolding escaped cut
escaped_back zero dst first s h k = absurd (omega arith)
escaped_back (suc fuel) dst first [] h k = loop-after fuel dst []
escaped_back (suc fuel) dst first (ch ∷ s) h k =
    let c = escape_char-back fuel dst first ch (escaped false s) k.0 in
    c.2
    ∙ escaped_back c.0 (dst ++ ch ∷ []) false s (omega (arith, c.1)) k.1
    ∙ append_assoc dst (ch ∷ []) s

pub some_byte : (first : Bool) (ch : ℕ) → 0 < length (escape_char first ch)
unfolding escape_char hex_escape
some_byte first ch = ground arith

pub length-escaped : (first : Bool) (s : List ℕ) → length s ≤ length (escaped first s)
unfolding escaped
length-escaped first [] = omega arith
length-escaped first (ch ∷ s) = omega (
  arith,
  some_byte first ch,
  length-escaped false s,
  length-append (escape_char first ch) (escaped false s),
)

-- `unescapeIdent` gives back every byte string that `appendEscapedIdent` wrote to an empty slice.
pub unescape-append_escaped_ident :
    (s : List ℕ) → All IsByte s → unescape_ident (append_escaped_ident [] s) ≡ s
unfolding unescape_ident append_escaped_ident
unescape-append_escaped_ident s h = rw (append_escaped_lem true [] s) (
    escaped_back (suc (length (escaped true s))) [] true s (omega (arith, length-escaped true s)) h)
