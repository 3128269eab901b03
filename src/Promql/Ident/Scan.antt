-- ===== src/Promql/Ident/Scan.antt =====
-- A name escaped and scanned in a query.
use mathlib.Core.List.{append_assoc}
use victoria_metrics.Base.{ℕ, ◌/◌, ◌%◌, ◌<◌, bit_and, ◌≡◌, refl, ap, ◌∙◌, arith}
use victoria_metrics.Base.{Bool, true, false, not, ◌&&◌, ◌||◌, inl, inr, Bool-cases, none, some}
use victoria_metrics.Base.{List, [], ◌∷◌, ◌++◌, length, All, ltb, leb, ◌==◌}
use victoria_metrics.Base.Words.{IsByte}
use victoria_metrics.Promql.Ident.{
  is_decimal_char, is_first_ident_char, is_ident_char, to_hex, hex_escape, escape_char,
  append_escaped_ident, scan_loop, scan_ident,
}
use victoria_metrics.Promql.Ident.Unescape.{low_digit, escaped, append_escaped_lem, length-escaped}

-- A byte that does not go on an identifier.
abbrev pub Ends : List ℕ → Type 0
Ends [] = Unit
Ends (ch ∷ rest) = (is_ident_char ch || ch == b'\\') ≡ false

scan_loop-ident :
    (ch : ℕ) (t : List ℕ) → is_ident_char ch ≡ true → scan_loop (ch ∷ t) ≡ ch ∷ scan_loop t
unfolding scan_loop
scan_loop-ident ch [] h = rw h refl
scan_loop-ident ch (c ∷ t) h = rw h refl

scan_loop-escape : (ch : ℕ) (t : List ℕ) → scan_loop (b'\\' ∷ ch ∷ t) ≡ b'\\' ∷ ch ∷ scan_loop t
unfolding scan_loop is_ident_char is_first_ident_char is_decimal_char
scan_loop-escape ch t = refl

to_hex_lem : (n : ℕ) → n < 16 → is_ident_char (to_hex n) ≡ true
unfolding is_ident_char is_first_ident_char is_decimal_char to_hex
to_hex_lem n h = ground arith

scan_loop-hex :
    (ch : ℕ) (t : List ℕ) → ch < 256 → scan_loop (hex_escape ch ++ t) ≡ hex_escape ch ++ scan_loop t
unfolding hex_escape
scan_loop-hex ch t h =
    let lo = to_hex (bit_and ch 0xf) in
    let low : is_ident_char lo ≡ true =
      ap (λ n. is_ident_char (to_hex n)) (low_digit ch h) ∙ to_hex_lem (ch % 16) (omega arith) in
    scan_loop-escape b'x' (to_hex (ch / 16) ∷ lo ∷ t)
    ∙ ap (λ l. b'\\' ∷ b'x' ∷ l)
        (scan_loop-ident (to_hex (ch / 16)) (lo ∷ t) (to_hex_lem (ch / 16) (omega arith))
          ∙ ap (λ l. to_hex (ch / 16) ∷ l) (scan_loop-ident lo t low))

scan_loop-escape_char :
    (first : Bool) (ch : ℕ) (t : List ℕ)
    → ch < 256
    → scan_loop (escape_char first ch ++ t) ≡ escape_char first ch ++ scan_loop t
unfolding escape_char
scan_loop-escape_char first ch t h = elim (Bool-cases (is_ident_char ch)) [
  | inl e ↦ elim (Bool-cases (first && not (is_first_ident_char ch))) [
    | inl f ↦ rw (escape_char, e, f) (scan_loop-hex ch t h)
    | inr f ↦ rw (escape_char, e, f) (scan_loop-ident ch t e)
  ]
  | inr e ↦ elim (Bool-cases (leb 0x20 ch && ltb ch 0x7f)) [
    | inl f ↦ rw (escape_char, e, f) (scan_loop-escape ch t)
    | inr f ↦ rw (escape_char, e, f) (scan_loop-hex ch t h)
  ]
]

scan_loop-Ends : (rest : List ℕ) → Ends rest → scan_loop rest ≡ []
unfolding scan_loop
scan_loop-Ends [] h = refl
scan_loop-Ends (ch ∷ []) h = rw h refl
scan_loop-Ends (ch ∷ c ∷ rest) h = ground (arith, h)

scan_loop-escaped :
    (first : Bool) (s rest : List ℕ)
    → All IsByte s
    → Ends rest
    → scan_loop (escaped first s ++ rest) ≡ escaped first s
unfolding escaped
scan_loop-escaped first [] rest h k = scan_loop-Ends rest k
scan_loop-escaped first (ch ∷ s) rest h k =
    ap scan_loop (append_assoc (escape_char first ch) (escaped false s) rest)
    ∙ scan_loop-escape_char first ch (escaped false s ++ rest) h.0
    ∙ ap (λ l. escape_char first ch ++ l) (scan_loop-escaped false s rest h.1 k)

scan_ident_lem : (s : List ℕ) → 0 < length (scan_loop s) → scan_ident s ≡ some (scan_loop s)
unfolding scan_ident
scan_ident_lem s h = go (scan_loop s) h
  where
    go :
        (token : List ℕ)
        → 0 < length token
        → elim token [ [] ↦ none | ch ∷ t ↦ some (ch ∷ t) ] ≡ some token
    go [] h = absurd (omega arith)
    go (ch ∷ t) h = refl

-- `scanIdent` takes from a query exactly the bytes that `appendEscapedIdent` wrote for a name of at
-- least one byte, when the query ends there or goes on with a byte that is neither a character of an
-- identifier nor a backslash.
pub scan-append_escaped_ident :
    (s rest : List ℕ)
    → All IsByte s
    → 0 < length s
    → Ends rest
    → scan_ident (append_escaped_ident [] s ++ rest) ≡ some (append_escaped_ident [] s)
unfolding append_escaped_ident
scan-append_escaped_ident s rest h some_byte_here k =
    let whole = scan_loop-escaped true s rest h k in
    rw (append_escaped_lem true [] s) (
      scan_ident_lem (escaped true s ++ rest)
        (omega (arith, ap length whole, length-escaped true s))
      ∙ ap some whole)
