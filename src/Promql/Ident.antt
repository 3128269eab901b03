-- ===== src/Promql/Ident.antt =====
-- app/vmselect/promql/lexer.go: identifiers, and the escapes in them. `fromHex` gives `none` for -1.
-- Every round of the loop of `unescapeIdent` takes a byte at least, so `len(s)` rounds and one are
-- enough.
pub mod Unescape
pub mod Scan
use victoria_metrics.Base.{
  ℕ, zero, suc, ◌+◌, ◌-◌, ◌*◌, ◌/◌, ◌^◌, bit_and, bit_or, Bool, true, false, not, ◌&&◌, ◌||◌,
}
use victoria_metrics.Base.{
  Option, none, some, List, [], ◌∷◌, ◌++◌, length, ltb, leb, ◌==◌, if◌then◌else◌,
}
use victoria_metrics.Base.Split.{cut}

unfoldable pub is_decimal_char : ℕ → Bool
is_decimal_char ch = leb b'0' ch && leb ch b'9'

unfoldable pub is_first_ident_char : ℕ → Bool
is_first_ident_char ch =
    leb b'a' ch && leb ch b'z' || leb b'A' ch && leb ch b'Z' || ch == b'_' || ch == b':'

unfoldable pub is_ident_char : ℕ → Bool
unfolding is_first_ident_char is_decimal_char
is_ident_char ch = is_first_ident_char ch || is_decimal_char ch || ch == b'.'

unfoldable pub from_hex : ℕ → Option ℕ
from_hex ch =
    if leb b'0' ch && leb ch b'9'
    then some (ch - b'0')
    else if leb b'a' ch && leb ch b'f'
    then some (ch - b'a' + 10)
    else if leb b'A' ch && leb ch b'F'
    then some (ch - b'A' + 10)
    else none

unfoldable pub to_hex : ℕ → ℕ
to_hex n = if ltb n 10 then b'0' + n else b'a' + (n - 10)

unfoldable pub hex_escape : ℕ → List ℕ
unfolding to_hex
hex_escape ch = b'\\' ∷ b'x' ∷ to_hex (ch / 2 ^ 4) ∷ to_hex (bit_and ch 0xf) ∷ []

-- What the loop of `appendEscapedIdent` appends; `first` is `i == 0`.
unfoldable pub escape_char : Bool → ℕ → List ℕ
unfolding is_ident_char is_first_ident_char hex_escape
escape_char first ch =
    if is_ident_char ch
    then (if first && not (is_first_ident_char ch) then hex_escape ch else ch ∷ [])
    else if leb 0x20 ch && ltb ch 0x7f
    then b'\\' ∷ ch ∷ []
    else hex_escape ch

unfoldable pub append_escaped : Bool → List ℕ → List ℕ → List ℕ
unfolding escape_char
append_escaped first dst [] = dst
append_escaped first dst (ch ∷ s) = append_escaped false (dst ++ escape_char first ch) s

unfoldable pub append_escaped_ident : List ℕ → List ℕ → List ℕ
unfolding append_escaped
append_escaped_ident dst s = append_escaped true dst s

-- The byte that stands for the text behind a backslash, and the rest.
unfoldable pub take_escaped : ℕ → List ℕ → ℕ × List ℕ
unfolding from_hex
take_escaped ch (h ∷ l ∷ rest) =
    if ch == b'x'
    then elim (from_hex h) [
      | none ↦ (ch, h ∷ l ∷ rest)
      | some h1 ↦ elim (from_hex l) [
        | none ↦ (ch, h ∷ l ∷ rest)
        | some h2 ↦ (bit_or (h1 * 2 ^ 4) h2, rest)
      ]
    ]
    else (ch, h ∷ l ∷ rest)
take_escaped ch rest = (ch, rest)

-- The loop of `unescapeIdent`, on the next backslash.
unfoldable pub unescape_loop : ℕ → List ℕ → List ℕ → List ℕ
unfolding take_escaped
unescape_loop zero dst s = dst
unescape_loop (suc fuel) dst s = elim (cut b'\\' s) [
  | none ↦ dst ++ s
  | some (front, []) ↦ dst ++ front
  | some (front, ch ∷ back) ↦
      let r = take_escaped ch back in unescape_loop fuel ((dst ++ front) ++ r.0 ∷ []) r.1
]

unfoldable pub unescape_ident : List ℕ → List ℕ
unfolding unescape_loop
unescape_ident s = unescape_loop (suc (length s)) [] s

-- The loop of `scanIdent`, and the bytes that it passes.
unfoldable pub scan_loop : List ℕ → List ℕ
unfolding is_ident_char
scan_loop [] = []
scan_loop (ch ∷ []) = if is_ident_char ch || ch == b'\\' then ch ∷ [] else []
scan_loop (ch ∷ next ∷ s) =
    let on = scan_loop (next ∷ s) in
    let past = scan_loop s in
    if is_ident_char ch then ch ∷ on else if ch == b'\\' then ch ∷ next ∷ past else []

-- `none` is a panic.
unfoldable pub scan_ident : List ℕ → Option (List ℕ)
unfolding scan_loop
scan_ident s = elim (scan_loop s) [ [] ↦ none | ch ∷ token ↦ some (ch ∷ token) ]
