-- ===== src/Storage/TagValue/Ends.antt =====
-- The loop of `unmarshalTagValue` ends: its fuel never runs out, and each read takes a byte.
use victoria_metrics.Base.{ℕ, zero, suc, ◌<◌, ◌≡◌, ◌≢◌, refl, arith, Option, none, some}
use victoria_metrics.Base.{List, [], ◌∷◌, ◌++◌, length}
use victoria_metrics.Base.Split.{cut, Parts, cut-Parts}
use victoria_metrics.Base.Outcome.{Outcome, ok, err, panic, ◌>>=◌}
use victoria_metrics.Storage.TagValue.{
  TagError, no_end, missing_char, bad_key, bad_value, unescape_char, unescape, unmarshal_tag_value,
}
use victoria_metrics.Storage.TagValue.{Tag, unmarshal_tag}

unescape_char-ne-panic : (c : ℕ) → unescape_char c ≢ panic
unfolding unescape_char
unescape_char-ne-panic c = ground arith

-- What the loop does behind the cut `o` of `b`.
after_cut : ℕ → List ℕ → List ℕ → Option (List ℕ × List ℕ) → Outcome TagError (List ℕ)
after_cut fuel dst b none = ok (dst ++ b)
after_cut fuel dst b (some (front, [])) = err missing_char
after_cut fuel dst b (some (front, c ∷ rest)) =
    unescape_char c >>= λ ch. unescape fuel ((dst ++ front) ++ ch ∷ []) rest

unescape_lem :
    (fuel : ℕ) (dst b : List ℕ) → unescape (suc fuel) dst b ≡ after_cut fuel dst b (cut 0 b)
unfolding unescape after_cut
unescape_lem fuel dst b = by_cut (cut 0 b)
  where
    by_cut :
        (o : Option (List ℕ × List ℕ))
        → (elim o [
          | none ↦ ok (dst ++ b)
          | some (front, []) ↦ err missing_char
          | some (front, c ∷ rest) ↦
              unescape_char c >>= λ ch. unescape fuel ((dst ++ front) ++ ch ∷ []) rest
        ])
          ≡ after_cut fuel dst b o
    by_cut none = refl
    by_cut (some (front, [])) = refl
    by_cut (some (front, c ∷ rest)) = refl

bind-ne-panic :
    (m : Outcome TagError ℕ) (f : ℕ → Outcome TagError (List ℕ))
    → m ≢ panic
    → ((ch : ℕ) → f ch ≢ panic)
    → (m >>= f) ≢ panic
bind-ne-panic (ok ch) f h k = k ch
bind-ne-panic (err e) f h k = λ p. cc
bind-ne-panic panic f h k = absurd (h refl)

after_cut-ne-panic :
    (fuel : ℕ) (dst b : List ℕ) (o : Option (List ℕ × List ℕ))
    → Parts b o
    → ((dst' rest : List ℕ) → length rest < length b → unescape fuel dst' rest ≢ panic)
    → after_cut fuel dst b o ≢ panic
unfolding after_cut
after_cut-ne-panic fuel dst b none h ih = λ p. cc
after_cut-ne-panic fuel dst b (some (front, [])) h ih = λ p. cc
after_cut-ne-panic fuel dst b (some (front, c ∷ rest)) h ih =
    bind-ne-panic (unescape_char c) (λ ch. unescape fuel ((dst ++ front) ++ ch ∷ []) rest)
      (unescape_char-ne-panic c) (λ ch. ih _ rest (omega arith))

pub unescape-ne-panic : (fuel : ℕ) (dst b : List ℕ) → length b < fuel → unescape fuel dst b ≢ panic
unescape-ne-panic zero dst b h = absurd (omega arith)
unescape-ne-panic (suc fuel) dst b h = rw (unescape_lem fuel dst b) (
    after_cut-ne-panic fuel dst b (cut 0 b) (cut-Parts 0 b)
      (λ dst' rest less. unescape-ne-panic fuel dst' rest (omega arith)))

-- No panic, and after a success less is left to read.
abbrev pub Ends {ℓ} : {A : Type ℓ} → List ℕ → Outcome TagError (List ℕ × A) → Type 0
Ends src (ok r) = length r.0 < length src
Ends src (err e) = Unit
Ends src panic = ⊥

value_Ends :
    (src tail : List ℕ) (m : Outcome TagError (List ℕ))
    → m ≢ panic
    → length tail < length src
    → Ends src (m >>= λ v. ok (tail, v))
value_Ends src tail (ok v) h less = less
value_Ends src tail (err e) h less = tt
value_Ends src tail panic h less = h refl

-- On any bytes `unmarshalTagValue` returns: the loop over the escapes comes to an end, and a success
-- leaves fewer bytes than it was given.
pub unmarshal_tag_value-Ends : (dst src : List ℕ) → Ends src (unmarshal_tag_value dst src)
unfolding unmarshal_tag_value
unmarshal_tag_value-Ends dst src = by_cut (cut 1 src) (cut-Parts 1 src)
  where
    by_cut :
        (o : Option (List ℕ × List ℕ))
        → Parts src o
        → Ends src (elim o [
          | none ↦ err no_end
          | some (b, tail) ↦ unescape (suc (length b)) dst b >>= λ v. ok (tail, v)
        ])
    by_cut none h = tt
    by_cut (some (b, tail)) h =
        value_Ends src tail (unescape (suc (length b)) dst b)
          (unescape-ne-panic (suc (length b)) dst b (omega arith)) (omega arith)

-- The same for a whole tag.
pub unmarshal_tag-Ends : (src : List ℕ) → Ends src (unmarshal_tag src)
unfolding unmarshal_tag
unmarshal_tag-Ends src = by_key (unmarshal_tag_value [] src) (unmarshal_tag_value-Ends [] src)
  where
    by_value :
        (tail k : List ℕ) (m : Outcome TagError (List ℕ × List ℕ))
        → length tail < length src
        → Ends tail m
        → Ends {A = Tag} src (elim m [
          | err e ↦ err (bad_value e)
          | panic ↦ panic
          | ok (tail', v) ↦ ok (tail', record { key = k; value = v })
        ])
    by_value tail k (ok (tail', v)) less h = omega arith
    by_value tail k (err e) less h = tt
    by_value tail k panic less h = h

    by_key :
        (m : Outcome TagError (List ℕ × List ℕ))
        → Ends src m
        → Ends {A = Tag} src (elim m [
          | err e ↦ err (bad_key e)
          | panic ↦ panic
          | ok (tail, k) ↦ elim (unmarshal_tag_value [] tail) [
            | err e ↦ err (bad_value e)
            | panic ↦ panic
            | ok (tail', v) ↦ ok (tail', record { key = k; value = v })
          ]
        ])
    by_key (ok (tail, k)) h =
        by_value tail k (unmarshal_tag_value [] tail) h (unmarshal_tag_value-Ends [] tail)
    by_key (err e) h = tt
    by_key panic h = h
