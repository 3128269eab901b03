-- ===== src/Insert/Influx/RoundTrip.antt =====
-- Tags escaped, printed and read back.
use mathlib.Core.List.{append_assoc, append-nil}
use victoria_metrics.Base.{
  ℕ, zero, suc, ◌%◌, ◌<◌, ◌≡◌, ◌≢◌, refl, sym, ap, ap₂, ◌∙◌, arith, Bool, true, false, none, some,
}
use victoria_metrics.Base.{
  List, [], ◌∷◌, ◌++◌, length, length-append, All, ◌==◌, if◌then◌else◌, inl, inr, Bool-cases,
}
use victoria_metrics.Base.Outcome.{Outcome, ok, err, ◌>>=◌}
use victoria_metrics.Insert.Influx.Text.{next_unescaped, unescape_tag_value, is_special}
use victoria_metrics.Insert.Influx.Scan.{
  behind, behind-behind, behind-nil, scan, scan-past, scan-found, scan-escaped, scan-nil,
}
use victoria_metrics.Insert.Influx.Scan.{
  plain, plain-cons, plain-special, plain-nil, next_unescaped-scan, unescape_tag_value-plain,
}
use victoria_metrics.Insert.Influx.{Tag, RowError, empty_key, unmarshal_tag, unmarshal_tags}
use victoria_metrics.Insert.Lines.{read_pieces}
use victoria_metrics.Insert.Lines.Split.{read_pieces-last, read_pieces-more, read_tags_lem}

-- A backslash in front of every special byte.
abbrev pub escape : List ℕ → List ℕ
escape [] = []
escape (ch ∷ s) = if is_special ch then b'\\' ∷ ch ∷ escape s else ch ∷ escape s

plain-escape : (s : List ℕ) → plain (escape s) ≡ s
plain-escape [] = plain-nil
plain-escape (ch ∷ s) = elim (Bool-cases (is_special ch)) [
  | inl special ↦ rw special (plain-special ch (escape s) special ∙ ap (◌∷◌ ch) (plain-escape s))
  | inr other ↦
      let slash : (ch == b'\\') ≡ false = ground (arith, other) in
      rw other (plain-cons ch (escape s) slash ∙ ap (◌∷◌ ch) (plain-escape s))
]

-- A separator that the escapes hide.
abbrev pub IsSeparator : ℕ → Type 0
IsSeparator c = (is_special c ≡ true) × ((b'\\' == c) ≡ false)

-- `scan` passes over escaped text to what follows it.
scan-escape :
    (c k : ℕ) (s rest : List ℕ)
    → IsSeparator c
    → k % 2 ≡ 0
    → (j : ℕ) × (j % 2 ≡ 0) × (scan c k (escape s ++ rest) ≡ behind (escape s) (scan c j rest))
scan-escape c k [] rest h e = (k, e, sym (behind-nil (scan c k rest)))
scan-escape c k (ch ∷ s) rest h e = elim (Bool-cases (is_special ch)) [
  | inl special ↦
      let (i, even, step) = scan-escaped c k ch (escape s ++ rest) e in
      let (j, even', tail) = scan-escape c i s rest h even in
      (
        j,
        even',
        rw special (
            scan-past c k b'\\' (ch ∷ (escape s ++ rest)) h.1
            ∙ ap (behind (b'\\' ∷ [])) (
                step
                ∙ ap (behind (ch ∷ [])) tail
                ∙ behind-behind (ch ∷ []) (escape s) (scan c j rest))
            ∙ behind-behind (b'\\' ∷ []) (ch ∷ escape s) (scan c j rest)),
      )
  | inr other ↦
      let away : (ch == c) ≡ false = ground (arith, other, h.0) in
      let slash : (ch == b'\\') ≡ false = ground (arith, other) in
      let (j, even', tail) = scan-escape c 0 s rest h refl in
      (
        j,
        even',
        rw other (
            scan-past c k ch (escape s ++ rest) away
            ∙ ap
                (λ (b : Bool).
                  behind (ch ∷ []) (scan c (if b then suc k else 0) (escape s ++ rest)))
                slash
            ∙ ap (behind (ch ∷ [])) tail
            ∙ behind-behind (ch ∷ []) (escape s) (scan c j rest)),
      )
]

-- Escaped text up to a separator.
found :
    (c : ℕ) (s rest : List ℕ)
    → IsSeparator c
    → next_unescaped false c (escape s ++ c ∷ rest) ≡ some (escape s, rest)
found c s rest h =
    let (j, even, e) = scan-escape c 0 s (c ∷ rest) h refl in
    next_unescaped-scan c (escape s ++ c ∷ rest)
    ∙ e
    ∙ ap (behind (escape s)) (scan-found c j rest even)
    ∙ ap (λ l. some (l, rest)) (append-nil (escape s))

unescaped_back : (s : List ℕ) → unescape_tag_value false (escape s) ≡ s
unescaped_back s = unescape_tag_value-plain (escape s) ∙ plain-escape s

abbrev pub print_tag : Tag → List ℕ
print_tag t = escape t.key ++ b'=' ∷ escape t.value

-- What `Tag.unmarshal` does with a key that has no escapes any more.
abbrev tag_of : List ℕ → List ℕ → Outcome RowError Tag
tag_of v [] = err empty_key
tag_of v (x ∷ k) = ok (record { key = x ∷ k; value = v })

unmarshal_tag_lem :
    (s front back : List ℕ)
    → next_unescaped false b'=' s ≡ some (front, back)
    → unmarshal_tag false s
      ≡ tag_of (unescape_tag_value false back) (unescape_tag_value false front)
unfolding unmarshal_tag
unmarshal_tag_lem s front back e = rw (e, unmarshal_tag) (by_key (unescape_tag_value false front))
  where
    by_key :
        (k : List ℕ)
        → (elim k [
          | [] ↦ err empty_key
          | x ∷ k ↦ ok (record { key = x ∷ k; value = unescape_tag_value false back })
        ])
          ≡ tag_of (unescape_tag_value false back) k
    by_key [] = refl
    by_key (x ∷ k) = refl

tag_of-full : (k v : List ℕ) → k ≢ [] → tag_of v k ≡ ok (record { key = k; value = v })
tag_of-full [] v full = absurd (full refl)
tag_of-full (x ∷ k) v full = refl

tag_back : (t : Tag) → t.key ≢ [] → unmarshal_tag false (print_tag t) ≡ ok t
tag_back t full =
    unmarshal_tag_lem (print_tag t) (escape t.key) (escape t.value)
      (found b'=' t.key (escape t.value) (refl, refl))
    ∙ ap₂ tag_of (unescaped_back t.value) (unescaped_back t.key)
    ∙ tag_of-full t.key t.value full

-- Tags with commas between them.
abbrev pub print_tags : Tag → List Tag → List ℕ
print_tags t [] = print_tag t
print_tags t (u ∷ us) = print_tag t ++ b',' ∷ print_tags u us

tag_found :
    (t : Tag) (rest : List ℕ)
    → next_unescaped false b',' (print_tag t ++ b',' ∷ rest) ≡ some (print_tag t, rest)
tag_found t rest =
    let after = escape t.value ++ b',' ∷ rest in
    let (i, even, e) = scan-escape b',' 0 t.key (b'=' ∷ after) (refl, refl) refl in
    let (j, even', f) = scan-escape b',' 0 t.value (b',' ∷ rest) (refl, refl) refl in
    next_unescaped-scan b',' (print_tag t ++ b',' ∷ rest)
    ∙ ap (scan b',' 0) (append_assoc (escape t.key) (b'=' ∷ escape t.value) (b',' ∷ rest))
    ∙ e
    ∙ ap (behind (escape t.key)) (
        scan-past b',' i b'=' after refl
        ∙ ap (behind (b'=' ∷ [])) (f ∙ ap (behind (escape t.value)) (scan-found b',' j rest even'))
        ∙ ap (λ l. some (b'=' ∷ l, rest)) (append-nil (escape t.value)))

tag_last : (t : Tag) → next_unescaped false b',' (print_tag t) ≡ none
tag_last t =
    let (i, even, e) = scan-escape b',' 0 t.key (b'=' ∷ escape t.value) (refl, refl) refl in
    let (j, even', f) = scan-escape b',' 0 t.value [] (refl, refl) refl in
    next_unescaped-scan b',' (print_tag t)
    ∙ e
    ∙ ap (behind (escape t.key)) (
        scan-past b',' i b'=' (escape t.value) refl
        ∙ ap (λ l. behind (b'=' ∷ []) (scan b',' 0 l)) (sym (append-nil (escape t.value)))
        ∙ ap (behind (b'=' ∷ [])) (f ∙ ap (behind (escape t.value)) (scan-nil b',' j)))

abbrev tags_with : ℕ → List ℕ → Outcome RowError (List Tag)
tags_with fuel s = read_pieces (unmarshal_tag false) fuel (next_unescaped false b',') s

pieces_back :
    (fuel : ℕ) (t : Tag) (ts : List Tag)
    → All (λ (u : Tag). u.key ≢ []) (t ∷ ts)
    → length ts < fuel
    → tags_with fuel (print_tags t ts) ≡ ok (t ∷ ts)
pieces_back zero t ts full h = absurd (omega arith)
pieces_back (suc fuel) t [] full h =
    read_pieces-last (unmarshal_tag false) fuel (next_unescaped false b',') (print_tag t)
      (tag_last t)
    ∙ ap (λ o. o >>= λ a. ok (a ∷ [])) (tag_back t full.0)
pieces_back (suc fuel) t (u ∷ us) full h =
    read_pieces-more (unmarshal_tag false) fuel (next_unescaped false b',') _ (print_tag t)
      (print_tags u us) (tag_found t (print_tags u us))
    ∙ ap (λ o. o >>= λ a. tags_with fuel (print_tags u us) >>= λ rest. ok (a ∷ rest))
        (tag_back t full.0)
    ∙ ap (λ o. o >>= λ rest. ok (t ∷ rest)) (pieces_back fuel u us full.1 (omega arith))

length-print_tags : (t : Tag) (ts : List Tag) → length ts < suc (length (print_tags t ts))
length-print_tags t [] = omega arith
length-print_tags t (u ∷ us) =
    omega (arith, length-append (print_tag t) (b',' ∷ print_tags u us), length-print_tags u us)

-- In a line with escapes, `unmarshalTags` reads back any tags whose keys are not empty, written with a
-- backslash in front of each space, comma, equals sign and backslash of their keys and values.
pub unmarshal_tags-print_tags :
    (t : Tag) (ts : List Tag)
    → All (λ (u : Tag). u.key ≢ []) (t ∷ ts)
    → unmarshal_tags false (print_tags t ts) ≡ ok (t ∷ ts)
unfolding unmarshal_tags
unmarshal_tags-print_tags t ts full =
    read_tags_lem (unmarshal_tag false) (next_unescaped false b',') (print_tags t ts)
    ∙ pieces_back (suc (length (print_tags t ts))) t ts full (length-print_tags t ts)
