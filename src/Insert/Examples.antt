-- ===== src/Insert/Examples.antt =====
-- Runs of the parsers on small texts, and the theorems at such texts.
use victoria_metrics.Base.{ℕ, ◌+◌, ◌-◌, ◌*◌, ◌≡◌, refl, false, List, [], ◌∷◌, length, map, All}
use victoria_metrics.Base.Split.{cut, split, has_byte}
use victoria_metrics.Base.Outcome.{ok, err}
use victoria_metrics.Insert.Floats.{Floats}
use victoria_metrics.Insert.Lines.{read_rows, read_pieces, read_all, read_lines, read_tags}
use victoria_metrics.Insert.Lines.Split.{filled, read_rows-split}
use victoria_metrics.Insert.Graphite
use victoria_metrics.Insert.Graphite.RoundTrip.{
  Line, print_lines, row_of, unmarshal_rows-print_lines,
}
use victoria_metrics.Insert.Opentsdb
use victoria_metrics.Insert.Opentsdb.Accepts.{IsTagged, unmarshal_rows-ok}
use victoria_metrics.Insert.Influx
use victoria_metrics.Insert.Influx.Text.{codes, next_unescaped, unescape_tag_value}
use victoria_metrics.Insert.Influx.Text.{next_loop, slashes, unescape, is_in_quote, quote_loop}
use victoria_metrics.Insert.Influx.Text.{unquoted_loop, next_unquoted}
use victoria_metrics.Insert.Influx.Scan.{scan, next_unescaped-scan}
use victoria_metrics.Insert.Influx.RoundTrip.{print_tags, unmarshal_tags-print_tags}

abbrev digits : ℕ → List ℕ → ℕ
digits n [] = n
digits n (c ∷ s) = digits (10 * n + (c - b'0')) s

-- Floats that are numbers, read from decimal digits.
abbrev whole : Floats
whole = record {
  Float = ℕ;
  zero_float = 0;
  one_float = 1;
  parse = digits 0;
  parse_int64 = digits 0;
  parse_uint64 = digits 0;
  to_int64 = λ n. n;
  of_int64 = λ n. n;
  of_uint64 = λ n. n;
}

abbrev cpu_line : Line
cpu_line = record {
  metric = codes "cpu";
  tags = record { key = codes "h"; value = codes "a=b" } ∷ [];
  value_text = codes "17";
  time_text = codes "1000";
}

lacks : (has_byte b'=' (codes "h") ≡ false) × (has_byte b';' (codes "cpu") ≡ false)
unfolding has_byte
lacks = (refl, refl)

cpu_clean : victoria_metrics.Insert.Graphite.RoundTrip.IsCleanLine cpu_line
unfolding has_byte
cpu_clean = (
  (refl, refl, refl),
  (((λ e. cc), refl, (refl, refl), (refl, refl), (refl, refl)), tt),
  (refl, refl),
  refl,
)

unmarshal_rows-print_lines_example :
    Graphite.unmarshal_rows whole (print_lines (cpu_line ∷ []))
    ≡ ok (map (row_of whole) (cpu_line ∷ []))
unmarshal_rows-print_lines_example =
    unmarshal_rows-print_lines whole (cpu_line ∷ []) (cpu_clean, tt)

-- A line without a space, behind an empty one.
read_rows-split_example :
    read_rows (Graphite.unmarshal_row whole) (codes "\nabc\n")
    ≡ read_all (Graphite.unmarshal_row whole) (filled (split b'\n' (codes "\nabc\n")))
read_rows-split_example = read_rows-split (Graphite.unmarshal_row whole) (codes "\nabc\n")

abbrev put_text : List ℕ
put_text = codes "put m 5 7 a=b\n"

abbrev put_row : Opentsdb.Row whole
put_row = record {
  metric = codes "m";
  tags = record { key = codes "a"; value = codes "b" } ∷ [];
  value = 7;
  timestamp = 5;
}

put_run : Opentsdb.unmarshal_rows whole put_text ≡ ok (put_row ∷ [])
unfolding Opentsdb.unmarshal_rows Opentsdb.unmarshal_row Opentsdb.unmarshal_tags
    Opentsdb.unmarshal_tag Opentsdb.word Opentsdb.strip_prefix Opentsdb.strip_put read_rows
    read_lines read_tags read_pieces cut
put_run = refl

no_tag_run : Opentsdb.unmarshal_rows whole (codes "put m 5 7") ≡ err Opentsdb.no_tags
unfolding Opentsdb.unmarshal_rows Opentsdb.unmarshal_row Opentsdb.word Opentsdb.strip_prefix
    Opentsdb.strip_put read_rows read_lines cut
no_tag_run = refl

unmarshal_rows-ok_example :
    All (IsTagged whole) (put_row ∷ [])
    × (length (put_row ∷ []) ≡ length (filled (split b'\n' put_text)))
unmarshal_rows-ok_example = unmarshal_rows-ok whole put_text (put_row ∷ []) put_run

abbrev odd_tag : Influx.Tag
odd_tag = record { key = codes "a b"; value = codes "x,=\\" }

unmarshal_tags-print_tags_example :
    Influx.unmarshal_tags false (print_tags odd_tag (odd_tag ∷ [])) ≡ ok (odd_tag ∷ odd_tag ∷ [])
unmarshal_tags-print_tags_example =
    unmarshal_tags-print_tags odd_tag (odd_tag ∷ []) ((λ e. cc), ((λ e. cc), tt))

next_unescaped-scan_example :
    next_unescaped false b',' (codes "a\\,b,c") ≡ scan b',' 0 (codes "a\\,b,c")
next_unescaped-scan_example = next_unescaped-scan b',' (codes "a\\,b,c")

-- A tag with an escaped space, a quoted field with a comma in it, an integer field and a timestamp.
influx_run :
    Influx.unmarshal_rows whole (codes "foo,t=a\\ b f=\"1,\",g=3i 77")
    ≡ ok (
        record {
          measurement = codes "foo";
          tags = record { key = codes "t"; value = codes "a b" } ∷ [];
          fields =
              record { key = codes "f"; value = 10 } ∷ record { key = codes "g"; value = 3 } ∷ [];
          timestamp = 77;
        }
        ∷ [])
unfolding Influx.unmarshal_rows Influx.unmarshal_row Influx.unmarshal_name Influx.unmarshal_values
    Influx.unmarshal_time Influx.unmarshal_fields Influx.unmarshal_field Influx.parse_field_value
    Influx.unquote Influx.last_byte Influx.is_true Influx.is_false Influx.unmarshal_tags
    Influx.unmarshal_tag victoria_metrics.Insert.Influx.Text.equal_bytes next_unescaped next_loop
    slashes unescape_tag_value unescape next_unquoted unquoted_loop is_in_quote quote_loop has_byte
    read_rows read_lines read_tags read_pieces cut
influx_run = refl
