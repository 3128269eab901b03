-- ===== src/Insert/Opentsdb/Accepts.antt =====
-- Which rows of OpenTSDB are accepted.
use victoria_metrics.Base.{
  ℕ, ◌<◌, ◌≡◌, ◌≢◌, sym, subst, ◌∙◌, arith, Option, none, some, List, [], ◌∷◌, length, All,
}
use victoria_metrics.Base.Split.{cut, split}
use victoria_metrics.Base.Outcome.{Outcome, ok, err, >>=-eq-ok}
use victoria_metrics.Insert.Lines.Split.{
  read_tags-split, read_rows-split, read_all-ok, length-split, filled,
}
use victoria_metrics.Insert.Floats.{Floats}
use victoria_metrics.Insert.Opentsdb.{
  Tag, RowError, Row, unmarshal_tag, unmarshal_tags, unmarshal_row,
}
use victoria_metrics.Insert.Opentsdb.{
  unmarshal_rows, word, strip_put, no_timestamp, no_value, no_tags,
}
use victoria_metrics.Insert.Opentsdb.{no_tag_value, empty_key}

abbrev tag_of : Option (List ℕ × List ℕ) → Outcome RowError Tag
tag_of none = err no_tag_value
tag_of (some ([], v)) = err empty_key
tag_of (some (x ∷ k, v)) = ok (record { key = x ∷ k; value = v })

unmarshal_tag-ok : (s : List ℕ) (t : Tag) → unmarshal_tag s ≡ ok t → t.key ≢ []
unfolding unmarshal_tag
unmarshal_tag-ok s t h = by_cut (cut b'=' s) h
  where
    by_cut : (o : Option (List ℕ × List ℕ)) → tag_of o ≡ ok t → t.key ≢ []
    by_cut none h = cc
    by_cut (some ([], v)) h = cc
    by_cut (some (x ∷ k, v)) h = λ e. cc

-- A tag at least, and a key in each.
abbrev pub IsTagged : (F : Floats) → Row F → Type 0
IsTagged F r = (0 < length r.tags) × All (λ (t : Tag). t.key ≢ []) r.tags

unmarshal_tags-ok :
    (s : List ℕ) (ts : List Tag)
    → unmarshal_tags s ≡ ok ts
    → (0 < length ts) × All (λ (t : Tag). t.key ≢ []) ts
unfolding unmarshal_tags
unmarshal_tags-ok s ts h =
    let (full, size) =
      read_all-ok unmarshal_tag (λ t. t.key ≢ []) unmarshal_tag-ok (split b' ' s) ts
        (sym (read_tags-split unmarshal_tag b' ' s) ∙ h) in
    (omega (arith, length-split b' ' s), full)

module _ (F : Floats) where
  unmarshal_row-ok : (s : List ℕ) (r : Row F) → unmarshal_row F s ≡ ok r → IsTagged F r
  unfolding unmarshal_row
  unmarshal_row-ok s r h =
      let (s1, _, h1) = >>=-eq-ok (strip_put s) _ h in
      let (m, _, h2) = >>=-eq-ok (word no_timestamp s1) _ h1 in
      let (t, _, h3) = >>=-eq-ok (word no_value m.1) _ h2 in
      let (v, _, h4) = >>=-eq-ok (word no_tags t.1) _ h3 in
      let (tags, read, h5) = >>=-eq-ok (unmarshal_tags v.1) _ h4 in
      let e : tags ≡ r.tags = cc in
      subst (λ l. (0 < length l) × All (λ (t : Tag). t.key ≢ []) l) e
        (unmarshal_tags-ok v.1 tags read)

  -- Where a batch of OpenTSDB lines is accepted, it gives a row for each line that is not empty, and
  -- every row has a tag at least and no tag with an empty key.
  pub unmarshal_rows-ok :
      (s : List ℕ) (rows : List (Row F))
      → unmarshal_rows F s ≡ ok rows
      → All (IsTagged F) rows × (length rows ≡ length (filled (split b'\n' s)))
  unfolding unmarshal_rows
  unmarshal_rows-ok s rows h =
      read_all-ok (unmarshal_row F) (IsTagged F) unmarshal_row-ok (filled (split b'\n' s)) rows
        (sym (read_rows-split (unmarshal_row F) s) ∙ h)
