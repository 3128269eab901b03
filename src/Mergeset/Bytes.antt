-- ===== src/Mergeset/Bytes.antt =====
-- lib/mergeset/encoding.go: byte strings compared.
use victoria_metrics.Base.{ℕ, suc, Bool, true, false, List, [], ◌∷◌, ltb, ◌==◌, if◌then◌else◌}

-- `<` on strings, byte after byte.
unfoldable pub lex_less : List ℕ → List ℕ → Bool
lex_less [] [] = false
lex_less [] (y ∷ ys) = true
lex_less (x ∷ xs) [] = false
lex_less (x ∷ xs) (y ∷ ys) = if x == y then lex_less xs ys else ltb x y

-- `commonPrefixLen`; its two loops differ in the slice whose length they test.
unfoldable pub common_prefix_len : List ℕ → List ℕ → ℕ
common_prefix_len [] b = 0
common_prefix_len (x ∷ a) [] = 0
common_prefix_len (x ∷ a) (y ∷ b) = if x == y then suc (common_prefix_len a b) else 0
