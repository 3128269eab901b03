-- ===== src/Storage/BlockHeader/Index.antt =====
-- The headers of one index block, as a whole.
use mathlib.Core.List.{append-nil}
use victoria_metrics.Base.{ℕ, zero, suc, ◌≤◌, ◌<◌, ◌≡◌, refl, sym, ◌∙◌, arith, true, false, All}
use victoria_metrics.Base.{List, [], ◌∷◌, ◌++◌, length, ◌==◌}
use victoria_metrics.Base.Outcome.{Outcome, ok, ◌>>=◌}
use victoria_metrics.Storage.Fields.{then_ok}
use victoria_metrics.Storage.BlockHeader.{BlockHeader, marshal_header, unmarshal_header}
use victoria_metrics.Storage.BlockHeader.{
  check_header, read_headers, headers_sorted, unmarshal_block_headers,
}
use victoria_metrics.Storage.BlockHeader.RoundTrip.{
  IsHeader, header_bytes, push_header, length-header,
}
use victoria_metrics.Storage.BlockHeader.RoundTrip.{unmarshal-header_bytes}

-- The headers written one behind another.
abbrev pub written : List ℕ → List BlockHeader → List ℕ
written dst [] = dst
written dst (bh ∷ bhs) = written (marshal_header dst bh) bhs

abbrev all_bytes : List BlockHeader → List ℕ
all_bytes [] = []
all_bytes (bh ∷ bhs) = header_bytes bh (all_bytes bhs)

written_lem : (dst : List ℕ) (bhs : List BlockHeader) → written dst bhs ≡ dst ++ all_bytes bhs
written_lem dst [] = sym (append-nil dst)
written_lem dst (bh ∷ bhs) =
    written_lem (marshal_header dst bh) bhs ∙ push_header dst bh (all_bytes bhs)

-- A header of its widths that passes the tests.
abbrev pub IsGood : BlockHeader → Type 0
IsGood bh = IsHeader bh × (check_header bh ≡ ok tt)

read_headers_step :
    (fuel : ℕ) (src : List ℕ)
    → 0 < length src
    → read_headers (suc fuel) src
      ≡ (unmarshal_header src >>= λ r. read_headers fuel r.0 >>= λ bhs. ok (r.1 ∷ bhs))
unfolding read_headers
read_headers_step fuel [] h = absurd (omega arith)
read_headers_step fuel (x ∷ src) h = refl

read_headers-nil : (fuel : ℕ) → read_headers fuel [] ≡ ok []
unfolding read_headers
read_headers-nil zero = refl
read_headers-nil (suc fuel) = refl

read_headers-All :
    (fuel : ℕ) (bhs : List BlockHeader)
    → All IsGood bhs
    → length (all_bytes bhs) ≤ fuel
    → read_headers fuel (all_bytes bhs) ≡ ok bhs
read_headers-All fuel [] good h = read_headers-nil fuel
read_headers-All zero (bh ∷ bhs) good h = absurd (omega (arith, length-header bh (all_bytes bhs)))
read_headers-All (suc fuel) (bh ∷ bhs) good h =
    let size = length-header bh (all_bytes bhs) in
    let read : unmarshal_header (header_bytes bh (all_bytes bhs)) ≡ ok (all_bytes bhs, bh) =
      unmarshal-header_bytes bh (all_bytes bhs) good.0.0 ∙ then_ok _ good.0.1 refl in
    read_headers_step fuel _ (omega arith)
    ∙ then_ok _ read (then_ok _ (read_headers-All fuel bhs good.1 (omega arith)) refl)

suc_ne_zero : (n : ℕ) → (suc n == 0) ≡ false
suc_ne_zero n = ground arith

==_self : (n : ℕ) → (n == n) ≡ true
==_self n = ground arith

-- `unmarshalBlockHeaders` appends to `dst` the headers that `Marshal` wrote one behind another, when
-- there is one at least, each has its fields within their widths and passes the tests of
-- `Unmarshal`, and they are sorted by TSID.
pub unmarshal_block_headers-written :
    (dst : List BlockHeader) (bh : BlockHeader) (bhs : List BlockHeader)
    → All IsGood (bh ∷ bhs)
    → headers_sorted (bh ∷ bhs) ≡ true
    → unmarshal_block_headers dst (written [] (bh ∷ bhs)) (length (bh ∷ bhs)) ≡ ok (dst ++ bh ∷ bhs)
unfolding unmarshal_block_headers
unmarshal_block_headers-written dst bh bhs good sorted =
    rw (written_lem [] (bh ∷ bhs), suc_ne_zero (length bhs))
      (then_ok _ (read_headers-All _ (bh ∷ bhs) good (omega arith))
        (rw (==_self (length (bh ∷ bhs)), sorted) refl))

-- Headers that pass the tests.
abbrev pub AllPass : List BlockHeader → Type 0
AllPass bhs = All (λ bh. check_header bh ≡ ok tt) bhs
