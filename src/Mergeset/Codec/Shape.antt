-- ===== src/Mergeset/Codec/Shape.antt =====
-- The parts of an encoded block: its items behind their prefix, their lengths, and its size.
use victoria_metrics.Base.{ℕ, suc, ◌+◌, ◌*◌, ◌-◌, ◌%◌, ◌^◌, ◌≡◌, refl, sym, ap, ap₂, ◌∙◌, arith}
use victoria_metrics.Base.{false, inl, inr, Bool-cases, ◌==◌}
use victoria_metrics.Base.{List, [], ◌∷◌, ◌++◌, map, length, drop, length-append, length-drop}
use victoria_metrics.Base.Outcome.{ok}
use victoria_metrics.Base.Words.{IsU64, sub64, add64}
use victoria_metrics.Mergeset.Bytes.{lex_less}
use victoria_metrics.Mergeset.Block.{InmemoryBlock, sort_items, insert, join, prefix_of}
use victoria_metrics.Mergeset.Block.Prefix.{StartWith}
use victoria_metrics.Mergeset.Codec.{marshal_data_plain, unmarshal_data_plain, sum_lens}
use victoria_metrics.Mergeset.Codec.{}
use victoria_metrics.Mergeset.Codec.Deltas.{AreShort, read_lens-put_lens, plain_items-join}

pub length-map-drop : (n : ℕ) (xs : List (List ℕ)) → length (map (drop n) xs) ≡ length xs
length-map-drop n [] = refl
length-map-drop n (x ∷ xs) = ap suc (length-map-drop n xs)

pub map-StartWith :
    (cp : List ℕ) (xs : List (List ℕ))
    → StartWith cp xs
    → map (λ s. cp ++ s) (map (drop (length cp)) xs) ≡ xs
map-StartWith cp [] h = refl
map-StartWith cp (x ∷ xs) h = ap₂ ◌∷◌ h.0 (map-StartWith cp xs h.1)

pub length-map-length : (ss : List (List ℕ)) → length (map length ss) ≡ length ss
length-map-length [] = refl
length-map-length (s ∷ ss) = ap suc (length-map-length ss)

pub drop-AreShort : (n : ℕ) (xs : List (List ℕ)) → AreShort xs → AreShort (map (drop n) xs)
drop-AreShort n [] h = tt
drop-AreShort n (x ∷ xs) h = (omega (arith, length-drop n x, h.0), drop-AreShort n xs h.1)

-- Of a block whose items share `cp`, the items behind the first.
pub plain_back :
    (cp x : List ℕ) (xs : List (List ℕ))
    → AreShort xs
    → StartWith cp xs
    → unmarshal_data_plain (marshal_data_plain (map (drop (length cp)) xs)) x cp (suc (length xs))
      ≡ ok (x ∷ xs)
unfolding unmarshal_data_plain marshal_data_plain
plain_back cp x xs short starts =
    let ss = map (drop (length cp)) xs in
    let count : suc (length xs) - 1 ≡ length ss = omega (arith, length-map-drop (length cp) xs) in
    rw
      (
        count,
        read_lens-put_lens ss (drop-AreShort (length cp) xs short),
        plain_items-join cp ss,
        map-StartWith cp xs starts,
      )
      refl

pub total : List ℕ → ℕ
total [] = 0
total (n ∷ lens) = n + total lens

pub sum_lens_lem : (t : ℕ) (lens : List ℕ) → IsU64 t → sum_lens t lens ≡ (t + total lens) % 2 ^ 64
unfolding sum_lens total
sum_lens_lem t [] h = omega arith
sum_lens_lem t (n ∷ lens) h = omega (arith, sum_lens_lem (add64 t n) lens (omega arith))

pub mul_suc : (a b : ℕ) → a * suc b ≡ a + a * b
mul_suc a b = omega arith

pub length-join :
    (cp : List ℕ) (ss : List (List ℕ))
    → length (join (map (λ s. cp ++ s) ss)) ≡ length cp * length ss + total (map length ss)
unfolding total
length-join cp [] = omega arith
length-join cp (s ∷ ss) = omega (
  arith,
  length-append (cp ++ s) (join (map (λ s. cp ++ s) ss)),
  length-append cp s,
  length-join cp ss,
  mul_suc (length cp) (length ss),
)

-- `dataLen` is the length of the data.
pub data_len :
    (cp x : List ℕ) (xs : List (List ℕ))
    → AreShort (x ∷ xs)
    → StartWith cp (x ∷ xs)
    → sum_lens
        (add64 (length cp * suc (length xs)) (sub64 (length x) (length cp)))
        (map length (map (drop (length cp)) xs))
      ≡ length (join (x ∷ xs)) % 2 ^ 64
data_len cp x xs short starts =
    let ss = map (drop (length cp)) xs in
    let t = add64 (length cp * suc (length xs)) (sub64 (length x) (length cp)) in
    let items = ap (λ l. length (join l)) (map-StartWith cp xs starts.1) in
    let whole : length cp + length (drop (length cp) x) ≡ length x =
      sym (length-append cp (drop (length cp) x)) ∙ ap length starts.0 in
    let rows : length cp * suc (length xs) ≡ length cp + length cp * length ss =
      ap (λ k. length cp * suc k) (sym (length-map-drop (length cp) xs))
      ∙ mul_suc (length cp) (length ss) in
    omega (
      arith,
      sum_lens_lem t (map length ss) (omega arith),
      items,
      whole,
      rows,
      short.0,
      length-join cp ss,
      length-append x (join xs),
    )

pub length-insert : (x : List ℕ) (ys : List (List ℕ)) → length (insert x ys) ≡ suc (length ys)
unfolding insert
length-insert x [] = refl
length-insert x (y ∷ ys) = elim (Bool-cases (lex_less y x)) [
  | inl h ↦ rw h (ap suc (length-insert x ys))
  | inr h ↦ rw h refl
]

pub length-sort_items : (xs : List (List ℕ)) → length (sort_items xs) ≡ length xs
unfolding sort_items
length-sort_items [] = refl
length-sort_items (x ∷ xs) = length-insert x (sort_items xs) ∙ ap suc (length-sort_items xs)

pub insert-AreShort :
    (x : List ℕ) (ys : List (List ℕ)) → IsU64 (length x) → AreShort ys → AreShort (insert x ys)
unfolding insert
insert-AreShort x [] h hs = (h, tt)
insert-AreShort x (y ∷ ys) h hs = elim (Bool-cases (lex_less y x)) [
  | inl e ↦ rw e (hs.0, insert-AreShort x ys h hs.1)
  | inr e ↦ rw e (h, hs)
]

pub sort_items-AreShort : (xs : List (List ℕ)) → AreShort xs → AreShort (sort_items xs)
unfolding sort_items
sort_items-AreShort [] h = tt
sort_items-AreShort (x ∷ xs) h = insert-AreShort x (sort_items xs) h.0 (sort_items-AreShort xs h.1)

pub not_zero : (xs : List (List ℕ)) → (suc (length xs) == 0) ≡ false
not_zero xs = ground arith

-- A block with its prefix and its data made of its items.
abbrev pub block_of : List (List ℕ) → InmemoryBlock
block_of items = record { common_prefix = prefix_of items; bytes = join items; items = items }
