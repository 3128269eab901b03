-- ===== src/Insert/Floats.antt =====
-- github.com/valyala/fastjson/fastfloat, whose parsers of numbers never fail, and Go's conversions
-- between floats and integers: the parts of a row's number that the parsers here only pass on.
use victoria_metrics.Base.{ℕ, List}

pub record Floats : Type 1 where
  pub Float : Type 0
  pub zero_float : Float
  pub one_float : Float
  -- `ParseBestEffort`, `ParseInt64BestEffort` and `ParseUint64BestEffort`
  pub parse : List ℕ → Float
  pub parse_int64 : List ℕ → ℕ
  pub parse_uint64 : List ℕ → ℕ
  -- `int64(f)`, and `float64(n)` of an int64 and of a uint64
  pub to_int64 : Float → ℕ
  pub of_int64 : ℕ → Float
  pub of_uint64 : ℕ → Float
