-- ===== src/Storage/Metaindex/Summary.antt =====
-- The row that the headers of an index block leave.
use victoria_metrics.Base.{
  ℕ, ◌+◌, ◌^◌, ◌<◌, ◌≡◌, refl, ◌∙◌, arith, List, [], ◌∷◌, length, All, inl, inr,
}
use victoria_metrics.Base.{◌⊎◌}
use victoria_metrics.Base.Words.{◌≤ₛ◌}
use victoria_metrics.Storage.BlockHeader.{BlockHeader}
use victoria_metrics.Storage.Metaindex.{MetaindexRow, empty_row, register_block_header}

-- The headers registered in their order.
abbrev pub registered : MetaindexRow → List BlockHeader → MetaindexRow
registered mr [] = mr
registered mr (bh ∷ bhs) = registered (register_block_header mr bh) bhs

-- `mr` covers `bh`: its times enclose those of the header.
abbrev pub Covers : MetaindexRow → BlockHeader → Type 0
Covers mr bh = (mr.min_timestamp ≤ₛ bh.min_timestamp) × (bh.max_timestamp ≤ₛ mr.max_timestamp)

-- A later row: more headers by `n`, the first id, and no narrower.
abbrev Grows : MetaindexRow → MetaindexRow → ℕ → Type 0
Grows mr out n =
    (out.block_headers_count ≡ mr.block_headers_count + n)
    × (out.tsid ≡ mr.tsid)
    × (out.min_timestamp ≤ₛ mr.min_timestamp)
    × (mr.max_timestamp ≤ₛ out.max_timestamp)

register_step :
    (mr : MetaindexRow) (bh : BlockHeader)
    → 0 < mr.block_headers_count
    → mr.block_headers_count + 1 < 2 ^ 32
    → Grows mr (register_block_header mr bh) 1 × Covers (register_block_header mr bh) bh
unfolding register_block_header
register_step mr bh h k = ground arith

registered_lem :
    (mr : MetaindexRow) (bhs : List BlockHeader)
    → 0 < mr.block_headers_count
    → mr.block_headers_count + length bhs < 2 ^ 32
    → Grows mr (registered mr bhs) (length bhs) × All (Covers (registered mr bhs)) bhs
registered_lem mr [] h k = ((omega arith, refl, omega arith, omega arith), tt)
registered_lem mr (bh ∷ bhs) h k =
    let mr' = register_block_header mr bh in
    let (grows, covers) = register_step mr bh h (omega arith) in
    let (count, id, low, high) = grows in
    let ((count', id', low', high'), rest) = registered_lem mr' bhs (omega arith) (omega arith) in
    ((omega arith, id' ∙ id, omega arith, omega arith), ((omega arith, omega arith), rest))

-- A value that one of the headers has.
abbrev pub Attains : ℕ → (BlockHeader → ℕ) → List BlockHeader → Type 0
Attains v f [] = ⊥
Attains v f (bh ∷ bhs) = (v ≡ f bh) ⊎ Attains v f bhs

attained_step :
    (mr : MetaindexRow) (bh : BlockHeader)
    → 0 < mr.block_headers_count
    → mr.block_headers_count + 1 < 2 ^ 32
    → (((register_block_header mr bh).min_timestamp ≡ mr.min_timestamp)
        ⊎ ((register_block_header mr bh).min_timestamp ≡ bh.min_timestamp))
      × (((register_block_header mr bh).max_timestamp ≡ mr.max_timestamp)
          ⊎ ((register_block_header mr bh).max_timestamp ≡ bh.max_timestamp))
unfolding register_block_header
attained_step mr bh h k = ground arith

attained :
    (f : BlockHeader → ℕ) (bh : BlockHeader) (bhs : List BlockHeader) (v old new : ℕ)
    → (new ≡ old) ⊎ (new ≡ f bh)
    → (v ≡ new) ⊎ Attains v f bhs
    → (v ≡ old) ⊎ Attains v f (bh ∷ bhs)
attained f bh bhs v old new step (inr later) = inr (inr later)
attained f bh bhs v old new (inl kept) (inl e) = inl (e ∙ kept)
attained f bh bhs v old new (inr here) (inl e) = inr (inl (e ∙ here))

registered-Attains :
    (mr : MetaindexRow) (bhs : List BlockHeader)
    → 0 < mr.block_headers_count
    → mr.block_headers_count + length bhs < 2 ^ 32
    → (((registered mr bhs).min_timestamp ≡ mr.min_timestamp)
        ⊎ Attains (registered mr bhs).min_timestamp BlockHeader.min_timestamp bhs)
      × (((registered mr bhs).max_timestamp ≡ mr.max_timestamp)
          ⊎ Attains (registered mr bhs).max_timestamp BlockHeader.max_timestamp bhs)
registered-Attains mr [] h k = (inl refl, inl refl)
registered-Attains mr (bh ∷ bhs) h k =
    let mr' = register_block_header mr bh in
    let ((count, _, _, _), _) = register_step mr bh h (omega arith) in
    let (low, high) = attained_step mr bh h (omega arith) in
    let (low', high') = registered-Attains mr' bhs (omega arith) (omega arith) in
    (
      attained BlockHeader.min_timestamp bh bhs _ mr.min_timestamp mr'.min_timestamp low low',
      attained BlockHeader.max_timestamp bh bhs _ mr.max_timestamp mr'.max_timestamp high high',
    )

register_first :
    (bh : BlockHeader)
    → let mr = register_block_header empty_row bh in
      (mr.block_headers_count ≡ 1)
      × (mr.tsid ≡ bh.tsid)
      × (mr.min_timestamp ≡ bh.min_timestamp)
      × (mr.max_timestamp ≡ bh.max_timestamp)
unfolding register_block_header empty_row
register_first bh = (refl, refl, refl, refl)

-- After `Reset`, `RegisterBlockHeader` of one header or more, fewer than 2^32, leaves their number, the
-- TSID of the first, and the least `MinTimestamp` and the greatest `MaxTimestamp` of them all.
pub registered_sums_up :
    (bh : BlockHeader) (bhs : List BlockHeader)
    → length (bh ∷ bhs) < 2 ^ 32
    → let mr = registered empty_row (bh ∷ bhs) in
      (mr.block_headers_count ≡ length (bh ∷ bhs))
      × (mr.tsid ≡ bh.tsid)
      × All (Covers mr) (bh ∷ bhs)
      × Attains mr.min_timestamp BlockHeader.min_timestamp (bh ∷ bhs)
      × Attains mr.max_timestamp BlockHeader.max_timestamp (bh ∷ bhs)
registered_sums_up bh bhs k =
    let (count, id, low, high) = register_first bh in
    let mr = register_block_header empty_row bh in
    let ((count', id', low', high'), rest) = registered_lem mr bhs (omega arith) (omega arith) in
    let (least, greatest) = registered-Attains mr bhs (omega arith) (omega arith) in
    (
      omega arith,
      id' ∙ id,
      ((omega arith, omega arith), rest),
      first BlockHeader.min_timestamp least low,
      first BlockHeader.max_timestamp greatest high,
    )
  where
    first :
        (f : BlockHeader → ℕ) {v old : ℕ}
        → (v ≡ old) ⊎ Attains v f bhs
        → old ≡ f bh
        → Attains v f (bh ∷ bhs)
    first f (inl e) h = inl (e ∙ h)
    first f (inr later) h = inr later
