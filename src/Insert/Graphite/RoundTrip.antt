-- ===== src/Insert/Graphite/RoundTrip.antt =====
-- A batch of Graphite lines printed and read back.
use mathlib.Core.List.{append-nil}
use victoria_metrics.Base.{
  ℕ, ◌≡◌, ◌≢◌, refl, ap, ◌∙◌, false, some, List, [], ◌∷◌, ◌++◌, map, All, ◌==◌,
}
use victoria_metrics.Base.Split.{
  has_byte, cut, cut_append, cut-none, split, split_append, split-none,
}
use victoria_metrics.Base.Split.{Lacks, Lacks-cons, has_byte-append}
use victoria_metrics.Base.Outcome.{ok}
use victoria_metrics.Insert.Lines.{read_all}
use victoria_metrics.Insert.Lines.Split.{filled, read_tags-split, read_rows-split}
use victoria_metrics.Insert.Floats.{Floats}
use victoria_metrics.Insert.Graphite.{Tag, Row, unmarshal_tag, unmarshal_tags, unmarshal_name}
use victoria_metrics.Insert.Graphite.{unmarshal_numbers, unmarshal_row, unmarshal_rows}

-- What a line says, with its numbers as text.
pub record Line : Type 0 where
  pub metric : List ℕ
  pub tags : List Tag
  pub value_text : List ℕ
  pub time_text : List ℕ

abbrev pub print_tag : Tag → List ℕ
print_tag t = t.key ++ b'=' ∷ t.value

abbrev pub print_tags : List Tag → List ℕ
print_tags [] = []
print_tags (t ∷ ts) = b';' ∷ (print_tag t ++ print_tags ts)

abbrev pub print_line : Line → List ℕ
print_line l = (l.metric ++ print_tags l.tags) ++ b' ' ∷ (l.value_text ++ b' ' ∷ l.time_text)

abbrev pub print_lines : List Line → List ℕ
print_lines [] = []
print_lines (l ∷ ls) = print_line l ++ b'\n' ∷ print_lines ls

-- No separator inside a part, and no empty key.
abbrev pub IsCleanTag : Tag → Type 0
IsCleanTag t =
    (t.key ≢ [])
    × Lacks b'=' t.key
    × (Lacks b';' t.key × Lacks b';' t.value)
    × (Lacks b' ' t.key × Lacks b' ' t.value)
    × (Lacks b'\n' t.key × Lacks b'\n' t.value)

abbrev pub IsCleanLine : Line → Type 0
IsCleanLine l =
    (Lacks b';' l.metric × Lacks b' ' l.metric × Lacks b'\n' l.metric)
    × All IsCleanTag l.tags
    × (Lacks b' ' l.value_text × Lacks b'\n' l.value_text)
    × Lacks b'\n' l.time_text

tag_back : (t : Tag) → IsCleanTag t → unmarshal_tag (print_tag t) ≡ ok t
unfolding unmarshal_tag
tag_back t (full, no_eq, _, _, _) = by_key t.key full (cut_append b'=' t.key t.value no_eq)
  where
    by_key :
        (k : List ℕ)
        → k ≢ []
        → cut b'=' (print_tag t) ≡ some (k, t.value)
        → unmarshal_tag (print_tag t) ≡ ok (record { key = k; value = t.value })
    by_key [] full e = absurd (full refl)
    by_key (x ∷ k) full e = rw (e, unmarshal_tag) refl

tag-Lacks :
    (c : ℕ) (t : Tag)
    → ((b'=' == c)) ≡ false
    → Lacks c t.key
    → Lacks c t.value
    → Lacks c (print_tag t)
tag-Lacks c t e hk hv = has_byte-append c t.key (b'=' ∷ t.value) hk (Lacks-cons c b'=' t.value e hv)

-- `c` in no tag, where it is neither of the separators that the printer writes.
abbrev CleanOf : ℕ → List Tag → Type 0
CleanOf c ts = All (λ (t : Tag). Lacks c t.key × Lacks c t.value) ts

tags_lack :
    (c : ℕ) (ts : List Tag)
    → (b'=' == c) ≡ false
    → (b';' == c) ≡ false
    → CleanOf c ts
    → Lacks c (print_tags ts)
tags_lack c [] e f h = unfold has_byte in refl
tags_lack c (t ∷ ts) e f h = Lacks-cons c b';' (print_tag t ++ print_tags ts) f (
    has_byte-append c (print_tag t) (print_tags ts) (tag-Lacks c t e h.0.0 h.0.1)
      (tags_lack c ts e f h.1))

split-tags :
    (t : Tag) (ts : List Tag)
    → CleanOf b';' (t ∷ ts)
    → split b';' (print_tag t ++ print_tags ts) ≡ map print_tag (t ∷ ts)
split-tags t [] h =
    ap (split b';') (append-nil (print_tag t))
    ∙ split-none b';' (print_tag t) (tag-Lacks b';' t refl h.0.0 h.0.1)
split-tags t (u ∷ us) h =
    split_append b';' (print_tag t) (print_tag u ++ print_tags us)
      (tag-Lacks b';' t refl h.0.0 h.0.1)
    ∙ ap (◌∷◌ (print_tag t)) (split-tags u us h.1)

read_all-tags :
    (ts : List Tag) → All IsCleanTag ts → read_all unmarshal_tag (map print_tag ts) ≡ ok ts
unfolding read_all
read_all-tags [] h = refl
read_all-tags (t ∷ ts) h = rw (tag_back t h.0, read_all-tags ts h.1) refl

CleanOf-semicolon : (ts : List Tag) → All IsCleanTag ts → CleanOf b';' ts
CleanOf-semicolon [] h = tt
CleanOf-semicolon (t ∷ ts) h = (h.0.2, CleanOf-semicolon ts h.1)

CleanOf-space : (ts : List Tag) → All IsCleanTag ts → CleanOf b' ' ts
CleanOf-space [] h = tt
CleanOf-space (t ∷ ts) h = (h.0.3, CleanOf-space ts h.1)

CleanOf-newline : (ts : List Tag) → All IsCleanTag ts → CleanOf b'\n' ts
CleanOf-newline [] h = tt
CleanOf-newline (t ∷ ts) h = (h.0.4, CleanOf-newline ts h.1)

tags_back :
    (t : Tag) (ts : List Tag)
    → All IsCleanTag (t ∷ ts)
    → unmarshal_tags (print_tag t ++ print_tags ts) ≡ ok (t ∷ ts)
unfolding unmarshal_tags
tags_back t ts clean =
    read_tags-split unmarshal_tag b';' (print_tag t ++ print_tags ts)
    ∙ ap (read_all unmarshal_tag) (split-tags t ts (CleanOf-semicolon (t ∷ ts) clean))
    ∙ read_all-tags (t ∷ ts) clean

module _ (F : Floats) where
  name_back :
      (metric : List ℕ) (ts : List Tag)
      → Lacks b';' metric
      → All IsCleanTag ts
      → unmarshal_name F (metric ++ print_tags ts) ≡ ok (metric, ts)
  unfolding unmarshal_name
  name_back metric [] h clean =
      rw (append-nil metric) (rw (cut-none b';' metric h, unmarshal_name) refl)
  name_back metric (t ∷ ts) h clean =
      rw (cut_append b';' metric (print_tag t ++ print_tags ts) h, unmarshal_name)
        (rw (tags_back t ts clean) refl)

  -- The row of a line.
  abbrev pub row_of : Line → Row F
  row_of l = record {
    metric = l.metric;
    tags = l.tags;
    value = F.parse l.value_text;
    timestamp = F.parse_int64 l.time_text;
  }

  line_back : (l : Line) → IsCleanLine l → unmarshal_row F (print_line l) ≡ ok (row_of l)
  unfolding unmarshal_row unmarshal_numbers
  line_back l (m, ts, v, t) =
      let name = l.metric ++ print_tags l.tags in
      let clean =
        has_byte-append b' ' l.metric (print_tags l.tags) m.1
          (tags_lack b' ' l.tags refl refl (CleanOf-space l.tags ts)) in
      rw (cut_append b' ' name (l.value_text ++ b' ' ∷ l.time_text) clean, unmarshal_row)
        (rw (name_back l.metric l.tags m.0 ts)
          (rw (cut_append b' ' l.value_text l.time_text v.0, unmarshal_numbers) refl))

  line-Lacks : (l : Line) → IsCleanLine l → Lacks b'\n' (print_line l)
  line-Lacks l (m, ts, v, t) =
      has_byte-append b'\n' (l.metric ++ print_tags l.tags) _
        (has_byte-append b'\n' l.metric (print_tags l.tags) m.2
          (tags_lack b'\n' l.tags refl refl (CleanOf-newline l.tags ts)))
        (Lacks-cons b'\n' b' ' _ refl
          (has_byte-append b'\n' l.value_text _ v.1 (Lacks-cons b'\n' b' ' l.time_text refl t)))

  filled-line :
      (p s : List ℕ) (ps : List (List ℕ))
      → filled ((p ++ b' ' ∷ s) ∷ ps) ≡ (p ++ b' ' ∷ s) ∷ filled ps
  filled-line [] s ps = refl
  filled-line (x ∷ p) s ps = refl

  filled-lines :
      (ls : List Line)
      → All IsCleanLine ls
      → filled (split b'\n' (print_lines ls)) ≡ map print_line ls
  filled-lines [] h = refl
  filled-lines (l ∷ ls) h =
      ap filled (split_append b'\n' (print_line l) (print_lines ls) (line-Lacks l h.0))
      ∙ filled-line (l.metric ++ print_tags l.tags) (l.value_text ++ b' ' ∷ l.time_text)
          (split b'\n' (print_lines ls))
      ∙ ap (◌∷◌ (print_line l)) (filled-lines ls h.1)

  read_all-lines :
      (ls : List Line)
      → All IsCleanLine ls
      → read_all (unmarshal_row F) (map print_line ls) ≡ ok (map row_of ls)
  unfolding read_all
  read_all-lines [] h = refl
  read_all-lines (l ∷ ls) h = rw (line_back l h.0, read_all-lines ls h.1) refl

  -- A batch of Graphite lines, printed with their tags and their numbers as text, is read back as its
  -- rows in their order, where no part holds a separator that ends it and no tag's key is empty.
  pub unmarshal_rows-print_lines :
      (ls : List Line) → All IsCleanLine ls → unmarshal_rows F (print_lines ls) ≡ ok (map row_of ls)
  unfolding unmarshal_rows
  unmarshal_rows-print_lines ls h =
      read_rows-split (unmarshal_row F) (print_lines ls)
      ∙ ap (read_all (unmarshal_row F)) (filled-lines ls h)
      ∙ read_all-lines ls h
