-- ===== src/Mergeset/Header/Index.antt =====
-- The headers of one index block of items, as a whole.
use mathlib.Core.List.{append-nil}
use victoria_metrics.Base.{
  ℕ, zero, suc, ◌≡◌, refl, sym, ap, ◌∙◌, arith, true, false, Bool, ◌&&◌, All,
}
use victoria_metrics.Base.{List, [], ◌∷◌, ◌++◌, length, ◌==◌, if◌then◌else◌, inl, inr, Bool-cases}
use victoria_metrics.Base.Outcome.{Outcome, ok, err, panic, >>=-eq-ok}
use victoria_metrics.Storage.Fields.{then_ok}
use victoria_metrics.Mergeset.Bytes.{lex_less}
use victoria_metrics.Mergeset.Header.{
  BlockHeader, HeaderError, marshal_header, unmarshal_header, check_header, read_headers,
  headers_sorted, sorted_after, unmarshal_block_headers, unsorted,
}
use victoria_metrics.Mergeset.Header.RoundTrip.{
  IsHeader, header_bytes, push_header, unmarshal-header_bytes,
}

-- The headers written one behind another.
abbrev pub written : List ℕ → List BlockHeader → List ℕ
written dst [] = dst
written dst (bh ∷ bhs) = written (marshal_header dst bh) bhs

abbrev all_bytes : List BlockHeader → List ℕ
all_bytes [] = []
all_bytes (bh ∷ bhs) = header_bytes bh (all_bytes bhs)

-- A header of its widths that passes the tests.
abbrev pub IsGood : BlockHeader → Type 0
IsGood bh = IsHeader bh × (check_header bh ≡ ok tt)

written_lem :
    (dst : List ℕ) (bhs : List BlockHeader)
    → All IsGood bhs
    → written dst bhs ≡ dst ++ all_bytes bhs
written_lem dst [] h = sym (append-nil dst)
written_lem dst (bh ∷ bhs) h =
    written_lem (marshal_header dst bh) bhs h.1 ∙ push_header dst bh (all_bytes bhs) h.0.0

read_headers-All :
    (bhs : List BlockHeader) → All IsGood bhs → read_headers (length bhs) (all_bytes bhs) ≡ ok bhs
unfolding read_headers
read_headers-All [] good = refl
read_headers-All (bh ∷ bhs) good =
    let read : unmarshal_header (header_bytes bh (all_bytes bhs)) ≡ ok (all_bytes bhs, bh) =
      unmarshal-header_bytes bh (all_bytes bhs) good.0.0 ∙ then_ok _ good.0.1 refl in
    then_ok _ read (then_ok _ (read_headers-All bhs good.1) refl)

not_zero : (n : ℕ) → (suc n == 0) ≡ false
not_zero n = ground arith

-- The mergeset's `unmarshalBlockHeaders` appends to `dst` the headers that `Marshal` wrote one behind
-- another, when there is one at least, each has its fields within their widths and passes the tests
-- of `Unmarshal`, and each first item is greater than the one before it.
pub unmarshal_block_headers-marshal_header :
    (dst : List BlockHeader) (bh : BlockHeader) (bhs : List BlockHeader)
    → All IsGood (bh ∷ bhs)
    → headers_sorted (bh ∷ bhs) ≡ true
    → unmarshal_block_headers dst (written [] (bh ∷ bhs)) (length (bh ∷ bhs)) ≡ ok (dst ++ bh ∷ bhs)
unfolding unmarshal_block_headers
unmarshal_block_headers-marshal_header dst bh bhs good sorted =
    rw (written_lem [] (bh ∷ bhs) good, not_zero (length bhs))
      (then_ok _ (read_headers-All (bh ∷ bhs) good) (rw sorted refl))

-- Every first item is greater than each one before it in a row.
abbrev pub Increasing : List BlockHeader → Type 0
Increasing [] = Unit
Increasing (bh ∷ []) = Unit
Increasing (bh ∷ next ∷ bhs) =
    (lex_less bh.first_item next.first_item ≡ true) × Increasing (next ∷ bhs)

and_split : (a b : Bool) → a && b ≡ true → (a ≡ true) × (b ≡ true)
and_split true b h = (refl, h)
and_split false b h = cc

sorted_after-Increasing :
    (bh : BlockHeader) (bhs : List BlockHeader)
    → sorted_after bh.first_item bhs ≡ true
    → Increasing (bh ∷ bhs)
unfolding sorted_after
sorted_after-Increasing bh [] h = tt
sorted_after-Increasing bh (c ∷ bhs) h =
    let (low, rest) =
      and_split (lex_less bh.first_item c.first_item) (sorted_after c.first_item bhs) h in
    (low, sorted_after-Increasing c bhs rest)

headers_sorted-Increasing : (bhs : List BlockHeader) → headers_sorted bhs ≡ true → Increasing bhs
unfolding headers_sorted
headers_sorted-Increasing [] h = tt
headers_sorted-Increasing (bh ∷ bhs) h = sorted_after-Increasing bh bhs h

length-read_headers :
    (n : ℕ) (src : List ℕ) (bhs : List BlockHeader) → read_headers n src ≡ ok bhs → length bhs ≡ n
unfolding read_headers
length-read_headers zero [] bhs h = let e : [] ≡ bhs = cc in ap length (sym e)
length-read_headers zero (x ∷ src) bhs h = cc
length-read_headers (suc n) src bhs h =
    let (r, read, k) = >>=-eq-ok (unmarshal_header src) _ h in
    let (rest, more, same) = >>=-eq-ok (read_headers n r.0) (λ l. ok (r.1 ∷ l)) k in
    let e : r.1 ∷ rest ≡ bhs = cc in
    sym (ap length e) ∙ ap suc (length-read_headers n r.0 rest more)

-- What the mergeset's `unmarshalBlockHeaders` appends to `dst` is `blockHeadersCount` headers, whose
-- first items increase strictly: two headers in a row with the same first item are never accepted.
pub unmarshal_block_headers-Increasing :
    (dst : List BlockHeader) (src : List ℕ) (count : ℕ) (out : List BlockHeader)
    → unmarshal_block_headers dst src count ≡ ok out
    → (bhs : List BlockHeader) × (out ≡ dst ++ bhs) × (length bhs ≡ count) × Increasing bhs
unfolding unmarshal_block_headers
unmarshal_block_headers-Increasing dst src count out h = elim (Bool-cases (count == 0)) [
  | inl none ↦ absurd (panic_ne_ok (rw none at h))
  | inr some ↦
      let (bhs, read, k) = >>=-eq-ok (read_headers count src) _ (rw some at h) in
      tested bhs (length-read_headers count src bhs read) (headers_sorted-Increasing bhs) k
]
  where
    panic_ne_ok : ◌≡◌ {A = Outcome HeaderError (List BlockHeader)} panic (ok out) → ⊥
    panic_ne_ok k = cc

    tested :
        (bhs : List BlockHeader)
        → length bhs ≡ count
        → (headers_sorted bhs ≡ true → Increasing bhs)
        → ◌≡◌ {A = Outcome HeaderError (List BlockHeader)}
            (if headers_sorted bhs then ok (dst ++ bhs) else err unsorted)
            (ok out)
        → (bhs : List BlockHeader) × (out ≡ dst ++ bhs) × (length bhs ≡ count) × Increasing bhs
    tested bhs size f k = (bhs, ground (arith, k), size, f (ground (arith, k)))
