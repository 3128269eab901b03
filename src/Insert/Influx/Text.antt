-- ===== src/Insert/Influx/Text.antt =====
-- app/vminsert/influx/parser.go: escapes and quotes. Every round of a loop here takes a byte at
-- least, so `len(s)` rounds and one are enough.
use Prim.Native.Char.{code}
use Prim.Native.String.{String}
use victoria_metrics.Base.{
  ℕ, zero, suc, ◌%◌, Bool, true, false, not, ◌&&◌, ◌||◌, Option, none, some,
}
use victoria_metrics.Base.{List, [], ◌∷◌, ◌++◌, length, ◌==◌, if◌then◌else◌}
use victoria_metrics.Base.Split.{cut}

-- The bytes of an ASCII text, and `==` on strings.
abbrev pub codes : String → List ℕ
codes String.[] = []
codes (String.◌∷◌ c s) = code c ∷ codes s

unfoldable pub equal_bytes : List ℕ → List ℕ → Bool
equal_bytes [] [] = true
equal_bytes (x ∷ xs) (y ∷ ys) = x == y && equal_bytes xs ys
equal_bytes _ _ = false

abbrev pub is_special : ℕ → Bool
is_special ch = ch == b' ' || ch == b',' || ch == b'=' || ch == b'\\'

-- The loop of `unescapeTagValue`.
unfoldable pub unescape : ℕ → List ℕ → List ℕ → List ℕ
unescape zero dst s = dst
unescape (suc fuel) dst s = elim (cut b'\\' s) [
  | none ↦ dst ++ s
  | some (front, []) ↦ (dst ++ front) ++ b'\\' ∷ []
  | some (front, ch ∷ rest) ↦
      unescape fuel ((dst ++ front) ++ (if is_special ch then ch ∷ [] else b'\\' ∷ ch ∷ [])) rest
]

unfoldable pub unescape_tag_value : Bool → List ℕ → List ℕ
unescape_tag_value no_esc s = if no_esc then s else unescape (suc (length s)) [] s

-- How many backslashes stand at the end of `k` of them and `s`.
unfoldable pub slashes : ℕ → List ℕ → ℕ
slashes k [] = k
slashes k (x ∷ s) = slashes (if x == b'\\' then suc k else 0) s

-- The loop of `nextUnescapedChar`, behind the bytes `seen`. Its early returns are those with no slash.
unfoldable pub next_loop : ℕ → ℕ → List ℕ → List ℕ → Option (List ℕ × List ℕ)
next_loop zero ch seen s = none
next_loop (suc fuel) ch seen s = elim (cut ch s) [
  | none ↦ none
  | some (front, back) ↦
      let rest = next_loop fuel ch (seen ++ (front ++ ch ∷ [])) back in
      if slashes 0 front % 2 == 0 then some (seen ++ front, back) else rest
]

unfoldable pub next_unescaped : Bool → ℕ → List ℕ → Option (List ℕ × List ℕ)
next_unescaped no_esc ch s = if no_esc then cut ch s else next_loop (suc (length s)) ch [] s

-- The loop of `isInQuote`.
unfoldable pub quote_loop : ℕ → Bool → Bool → List ℕ → Bool
quote_loop zero no_esc q s = q
quote_loop (suc fuel) no_esc q s = elim (next_unescaped no_esc b'"' s) [
  | none ↦ q
  | some (front, back) ↦ quote_loop fuel no_esc (not q) back
]

unfoldable pub is_in_quote : Bool → List ℕ → Bool
is_in_quote no_esc s = quote_loop (suc (length s)) no_esc false s

-- The loop of `nextUnquotedChar`.
unfoldable pub unquoted_loop : ℕ → Bool → ℕ → List ℕ → List ℕ → Option (List ℕ × List ℕ)
unquoted_loop zero no_esc ch seen s = none
unquoted_loop (suc fuel) no_esc ch seen s = elim (next_unescaped no_esc ch s) [
  | none ↦ none
  | some (front, back) ↦ elim (is_in_quote no_esc front) [
    | false ↦ some (seen ++ front, back)
    | true ↦ elim (next_unescaped no_esc b'"' back) [
      | none ↦ none
      | some (skipped, rest) ↦
          unquoted_loop fuel no_esc ch (seen ++ (front ++ ch ∷ (skipped ++ b'"' ∷ []))) rest
    ]
  ]
]

unfoldable pub next_unquoted : Bool → Bool → ℕ → List ℕ → Option (List ℕ × List ℕ)
next_unquoted no_esc quoted ch s =
    if quoted then unquoted_loop (suc (length s)) no_esc ch [] s else next_unescaped no_esc ch s
