-- ===== src/Promql/Examples.antt =====
-- Runs on small names, and the theorems at concrete inputs.
use victoria_metrics.Base.{◌≡◌, refl, arith, some, [], ◌∷◌, ◌++◌}
use victoria_metrics.Promql.Ident.{
  is_decimal_char, is_first_ident_char, is_ident_char, to_hex, hex_escape, escape_char,
  append_escaped, append_escaped_ident, unescape_ident, scan_loop, scan_ident,
}
use victoria_metrics.Promql.Ident.Unescape.{unescape-append_escaped_ident}
use victoria_metrics.Promql.Ident.Scan.{Ends, scan-append_escaped_ident}

-- A digit in front is written in hex, and a dash with a backslash.
escape_run :
    append_escaped_ident [] (b'1' ∷ b'-' ∷ b'a' ∷ [])
    ≡ b'\\' ∷ b'x' ∷ b'3' ∷ b'1' ∷ b'\\' ∷ b'-' ∷ b'a' ∷ []
unfolding append_escaped_ident append_escaped escape_char is_ident_char is_first_ident_char
    is_decimal_char hex_escape to_hex
escape_run = refl

scan_run : scan_loop (b'a' ∷ b'\\' ∷ b'-' ∷ b'b' ∷ b'-' ∷ []) ≡ b'a' ∷ b'\\' ∷ b'-' ∷ b'b' ∷ []
unfolding scan_loop is_ident_char is_first_ident_char is_decimal_char
scan_run = refl

unescape-append_escaped_ident_example :
    unescape_ident (append_escaped_ident [] (b'1' ∷ b'-' ∷ 200 ∷ [])) ≡ b'1' ∷ b'-' ∷ 200 ∷ []
unescape-append_escaped_ident_example =
    unescape-append_escaped_ident (b'1' ∷ b'-' ∷ 200 ∷ [])
      (omega arith, (omega arith, (omega arith, tt)))

space-Ends : Ends (b' ' ∷ [])
unfolding is_ident_char is_first_ident_char is_decimal_char
space-Ends = refl

scan-append_escaped_ident_example :
    scan_ident (append_escaped_ident [] (b'1' ∷ b'-' ∷ []) ++ b' ' ∷ [])
    ≡ some (append_escaped_ident [] (b'1' ∷ b'-' ∷ []))
scan-append_escaped_ident_example =
    scan-append_escaped_ident (b'1' ∷ b'-' ∷ []) (b' ' ∷ []) (omega arith, (omega arith, tt))
      (omega arith) space-Ends
