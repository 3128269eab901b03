-- ===== src/Insert/Influx/Scan.antt =====
-- The loops on escapes as scans of one byte after another.
use mathlib.Core.List.{append_assoc}
use victoria_metrics.Base.{
  ℕ, zero, suc, ◌%◌, ◌<◌, ◌≡◌, refl, sym, ap, ◌∙◌, arith, Bool, true, false, Option, none, some,
}
use victoria_metrics.Base.{List, [], ◌∷◌, ◌++◌, length, ◌==◌, if◌then◌else◌, inl, inr, Bool-cases}
use victoria_metrics.Base.Split.{cut, cut-Parts, Parts}
use victoria_metrics.Insert.Influx.Text.{
  slashes, next_loop, next_unescaped, unescape, unescape_tag_value, is_special,
}

-- The parts with bytes in front of the first.
abbrev pub behind : List ℕ → Option (List ℕ × List ℕ) → Option (List ℕ × List ℕ)
behind seen none = none
behind seen (some r) = some (seen ++ r.0, r.1)

pub behind-behind :
    (p q : List ℕ) (o : Option (List ℕ × List ℕ)) → behind p (behind q o) ≡ behind (p ++ q) o
behind-behind p q none = refl
behind-behind p q (some r) = ap (λ l. some (l, r.1)) (sym (append_assoc p q r.0))

pub behind-nil : (o : Option (List ℕ × List ℕ)) → behind [] o ≡ o
behind-nil none = refl
behind-nil (some r) = refl

-- The first `ch` behind an even run of backslashes; `k` is the run in front of `s`.
pub scan : ℕ → ℕ → List ℕ → Option (List ℕ × List ℕ)
scan ch k [] = none
scan ch k (x ∷ s) =
    let escaped = behind (x ∷ []) (scan ch 0 s) in
    let later = behind (x ∷ []) (scan ch (if x == b'\\' then suc k else 0) s) in
    if x == ch then (if k % 2 == 0 then some ([], s) else escaped) else later

-- What `scan` makes of the first `ch`, at a cut.
abbrev at_cut : ℕ → ℕ → Option (List ℕ × List ℕ) → Option (List ℕ × List ℕ)
at_cut ch k none = none
at_cut ch k (some (front, back)) =
    if slashes k front % 2 == 0
    then some (front, back)
    else behind (front ++ ch ∷ []) (scan ch 0 back)

abbrev shift : ℕ → Option (List ℕ × List ℕ) → Option (List ℕ × List ℕ)
shift x none = none
shift x (some (front, back)) = some (x ∷ front, back)

at_cut-shift :
    (ch k x : ℕ) (o : Option (List ℕ × List ℕ))
    → behind (x ∷ []) (at_cut ch (if x == b'\\' then suc k else 0) o) ≡ at_cut ch k (shift x o)
unfolding slashes
at_cut-shift ch k x none = refl
at_cut-shift ch k x (some (front, back)) =
    elim (Bool-cases (slashes (if x == b'\\' then suc k else 0) front % 2 == 0)) [
      | inl even ↦ rw even refl
      | inr odd ↦ rw odd (behind-behind (x ∷ []) (front ++ ch ∷ []) (scan ch 0 back))
    ]

scan-cut : (ch k : ℕ) (s : List ℕ) → scan ch k s ≡ at_cut ch k (cut ch s)
unfolding scan cut slashes
scan-cut ch k [] = refl
scan-cut ch k (x ∷ s) = elim (Bool-cases (x == ch)) [
  | inl here ↦
      let e : x ≡ ch = ground (arith, here) in
      rw here (ap (λ (c : ℕ). if k % 2 == 0 then some ([], s) else behind (c ∷ []) (scan ch 0 s)) e)
  | inr later ↦ rw later (
      ap (behind (x ∷ [])) (scan-cut ch (if x == b'\\' then suc k else 0) s)
      ∙ at_cut-shift ch k x (cut ch s))
]

next_at :
    (fuel ch : ℕ) (seen s : List ℕ) (o : Option (List ℕ × List ℕ))
    → Parts s o
    → ((seen' back : List ℕ)
        → length back < length s
        → next_loop fuel ch seen' back ≡ behind seen' (scan ch 0 back))
    → (elim o [
      | none ↦ none
      | some (front, back) ↦
          if slashes 0 front % 2 == 0
          then some (seen ++ front, back)
          else next_loop fuel ch (seen ++ (front ++ ch ∷ [])) back
    ])
      ≡ behind seen (at_cut ch 0 o)
next_at fuel ch seen s none h ih = refl
next_at fuel ch seen s (some (front, back)) h ih = elim (Bool-cases (slashes 0 front % 2 == 0)) [
  | inl even ↦ rw even refl
  | inr odd ↦ rw odd (
      ih (seen ++ (front ++ ch ∷ [])) back (omega arith)
      ∙ sym (behind-behind seen (front ++ ch ∷ []) (scan ch 0 back)))
]

next_loop-scan :
    (fuel ch : ℕ) (seen s : List ℕ)
    → length s < fuel
    → next_loop fuel ch seen s ≡ behind seen (scan ch 0 s)
unfolding next_loop
next_loop-scan zero ch seen s h = absurd (omega arith)
next_loop-scan (suc fuel) ch seen s h =
    next_at fuel ch seen s (cut ch s) (cut-Parts ch s)
      (λ seen' back less. next_loop-scan fuel ch seen' back (omega arith))
    ∙ ap (behind seen) (sym (scan-cut ch 0 s))

-- Where the line has escapes, `nextUnescapedChar` finds the first `ch` that stands behind an even run
-- of backslashes, on any bytes.
pub next_unescaped-scan : (ch : ℕ) (s : List ℕ) → next_unescaped false ch s ≡ scan ch 0 s
unfolding next_unescaped
next_unescaped-scan ch s =
    next_loop-scan (suc (length s)) ch [] s (omega arith) ∙ behind-nil (scan ch 0 s)

-- The text without its escapes; a backslash in front of another byte stays.
pub plain : List ℕ → List ℕ
plain [] = []
plain (x ∷ []) = x ∷ []
plain (x ∷ ch ∷ s) =
    let rest = plain s in
    let more = plain (ch ∷ s) in
    if x == b'\\' then (if is_special ch then ch ∷ rest else b'\\' ∷ ch ∷ rest) else x ∷ more

abbrev unescaped : ℕ → List ℕ
unescaped ch = if is_special ch then ch ∷ [] else b'\\' ∷ ch ∷ []

abbrev plain_at : List ℕ → Option (List ℕ × List ℕ) → List ℕ
plain_at s none = s
plain_at s (some (front, [])) = front ++ b'\\' ∷ []
plain_at s (some (front, ch ∷ rest)) = front ++ (unescaped ch ++ plain rest)

plain_at-shift :
    (x : ℕ) (s : List ℕ) (o : Option (List ℕ × List ℕ))
    → x ∷ plain_at s o ≡ plain_at (x ∷ s) (shift x o)
plain_at-shift x s none = refl
plain_at-shift x s (some (front, [])) = refl
plain_at-shift x s (some (front, ch ∷ rest)) = refl

plain_here :
    (x ch : ℕ) (s : List ℕ) → (x == b'\\') ≡ true → plain (x ∷ ch ∷ s) ≡ unescaped ch ++ plain s
unfolding plain
plain_here x ch s h = elim (Bool-cases (is_special ch)) [
  | inl special ↦ rw (h, special) refl
  | inr other ↦ rw (h, other) refl
]

plain_later :
    (x ch : ℕ) (s : List ℕ) → (x == b'\\') ≡ false → plain (x ∷ ch ∷ s) ≡ x ∷ plain (ch ∷ s)
unfolding plain
plain_later x ch s h = rw h refl

plain-cut : (s : List ℕ) → plain s ≡ plain_at s (cut b'\\' s)
unfolding cut
plain-cut [] = unfold plain in refl
plain-cut (x ∷ []) = elim (Bool-cases (x == b'\\')) [
  | inl here ↦ rw here (unfold plain in ground (arith, here))
  | inr later ↦ rw later (unfold plain in refl)
]
plain-cut (x ∷ ch ∷ s) = elim (Bool-cases (x == b'\\')) [
  | inl here ↦ rw here (plain_here x ch s here)
  | inr later ↦ rw later (
      plain_later x ch s later
      ∙ ap (◌∷◌ x) (plain-cut (ch ∷ s))
      ∙ plain_at-shift x (ch ∷ s) (cut b'\\' (ch ∷ s)))
]

unescape_at :
    (fuel : ℕ) (dst s : List ℕ) (o : Option (List ℕ × List ℕ))
    → Parts s o
    → ((dst' rest : List ℕ) → length rest < length s → unescape fuel dst' rest ≡ dst' ++ plain rest)
    → (elim o [
      | none ↦ dst ++ s
      | some (front, []) ↦ (dst ++ front) ++ b'\\' ∷ []
      | some (front, ch ∷ rest) ↦ unescape fuel ((dst ++ front) ++ unescaped ch) rest
    ])
      ≡ dst ++ plain_at s o
unescape_at fuel dst s none h ih = refl
unescape_at fuel dst s (some (front, [])) h ih = append_assoc dst front (b'\\' ∷ [])
unescape_at fuel dst s (some (front, ch ∷ rest)) h ih =
    ih ((dst ++ front) ++ unescaped ch) rest (omega arith)
    ∙ append_assoc (dst ++ front) (unescaped ch) (plain rest)
    ∙ append_assoc dst front (unescaped ch ++ plain rest)

unescape-plain :
    (fuel : ℕ) (dst s : List ℕ) → length s < fuel → unescape fuel dst s ≡ dst ++ plain s
unfolding unescape
unescape-plain zero dst s h = absurd (omega arith)
unescape-plain (suc fuel) dst s h =
    unescape_at fuel dst s (cut b'\\' s) (cut-Parts b'\\' s)
      (λ dst' rest less. unescape-plain fuel dst' rest (omega arith))
    ∙ ap (◌++◌ dst) (sym (plain-cut s))

-- `unescapeTagValue` drops every backslash in front of a space, a comma, an equals sign or a
-- backslash, and keeps every other byte, on any bytes of a line with escapes.
pub unescape_tag_value-plain : (s : List ℕ) → unescape_tag_value false s ≡ plain s
unfolding unescape_tag_value
unescape_tag_value-plain s = unescape-plain (suc (length s)) [] s (omega arith)

pub plain-cons : (x : ℕ) (s : List ℕ) → (x == b'\\') ≡ false → plain (x ∷ s) ≡ x ∷ plain s
plain-cons x [] h = unfold plain in refl
plain-cons x (ch ∷ s) h = plain_later x ch s h

pub plain-special :
    (ch : ℕ) (s : List ℕ) → is_special ch ≡ true → plain (b'\\' ∷ ch ∷ s) ≡ ch ∷ plain s
plain-special ch s h =
    plain_here b'\\' ch s refl
    ∙ ap (λ (b : Bool). (if b then ch ∷ [] else b'\\' ∷ ch ∷ []) ++ plain s) h

pub scan-past :
    (c k x : ℕ) (s : List ℕ)
    → (x == c) ≡ false
    → scan c k (x ∷ s) ≡ behind (x ∷ []) (scan c (if x == b'\\' then suc k else 0) s)
unfolding scan
scan-past c k x s h = rw h refl

pub scan-found : (c k : ℕ) (s : List ℕ) → k % 2 ≡ 0 → scan c k (c ∷ s) ≡ some ([], s)
unfolding scan
scan-found c k s h = ground (arith, h)

-- A byte behind an odd run is passed over, and the run is even again.
pub scan-escaped :
    (c k ch : ℕ) (s : List ℕ)
    → k % 2 ≡ 0
    → (j : ℕ) × (j % 2 ≡ 0) × (scan c (suc k) (ch ∷ s) ≡ behind (ch ∷ []) (scan c j s))
scan-escaped c k ch s h = elim (Bool-cases (ch == c)) [
  | inl here ↦ (0, refl, unfold scan in rw here (rw odd refl))
  | inr later ↦
      (if ch == b'\\' then suc (suc k) else 0, ground (arith, h), scan-past c (suc k) ch s later)
]
  where
    odd : (suc k % 2 == 0) ≡ false
    odd = ground (arith, h)

pub plain-nil : plain [] ≡ []
unfolding plain
plain-nil = refl

pub scan-nil : (c k : ℕ) → scan c k [] ≡ none
unfolding scan
scan-nil c k = refl
