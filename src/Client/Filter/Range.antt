-- ===== src/Client/Filter/Range.antt =====
-- The names that a numeric range stands for.
use gpustat4cluster.Base.{
  ℕ, zero, suc, ◌+◌, ◌-◌, ◌^◌, ◌≤◌, ◌<◌, ◌≡◌, refl, ap, ◌∙◌, some, List, ◌++◌, max, length,
  get_elem?, arith,
}
use gpustat4cluster.Base.Text.{Text}
use gpustat4cluster.Base.Scan.Digits.{
  parse_uint, pad_decimal, parse_uint-pad_decimal, pad_decimal-le-length,
}
use gpustat4cluster.Client.Filter.{range_items, expand_numeric_range}

module _ (prefix suffix : Text) (width : ℕ) where
  length-range_items :
      (start count : ℕ) → length (range_items prefix suffix width start count) ≡ count
  unfolding range_items
  length-range_items start zero = refl
  length-range_items start (suc count) = ap suc (length-range_items (start + 1) count)

  get_elem?-range_items :
      (start count i : ℕ)
      → i < count
      → get_elem? (range_items prefix suffix width start count) i
        ≡ some (prefix ++ (pad_decimal width (start + i) ++ suffix))
  unfolding range_items
  get_elem?-range_items start zero i h = absurd (omega arith)
  get_elem?-range_items start (suc count) zero h =
      ap (λ (n : ℕ). some (prefix ++ (pad_decimal width n ++ suffix))) (omega arith)
  get_elem?-range_items start (suc count) (suc i) h =
      get_elem?-range_items (start + 1) count i (omega arith)
      ∙ ap (λ (n : ℕ). some (prefix ++ (pad_decimal width n ++ suffix))) (omega arith)

-- A range of two numbers below 2^32, in order, gives one text for each number from the first to the
-- last, each between the prefix and the suffix, with digits that are read back as the number and
-- are at least as many as those of the longer bound.
pub expand_numeric_range_lem :
    (raw prefix suffix start end_ : Text) (a b i : ℕ)
    → parse_uint (2 ^ 32) start ≡ some a
    → parse_uint (2 ^ 32) end_ ≡ some b
    → a ≤ b
    → b < 2 ^ 32
    → i ≤ b - a
    → (digits : Text) × (length (expand_numeric_range raw prefix suffix start end_) ≡ b - a + 1)
      × (get_elem? (expand_numeric_range raw prefix suffix start end_) i
          ≡ some (prefix ++ (digits ++ suffix)))
      × (parse_uint (2 ^ 32) digits ≡ some (a + i))
      × (max (length start) (length end_) ≤ length digits)
unfolding expand_numeric_range
expand_numeric_range_lem raw prefix suffix start end_ a b i first last ordered fits inside =
    let width : ℕ = max (length start) (length end_) in
    let whole : expand_numeric_range raw prefix suffix start end_
        ≡ range_items prefix suffix width a (b - a + 1) =
      ground arith in
    (
      pad_decimal width (a + i),
      ap length whole ∙ length-range_items prefix suffix width a (b - a + 1),
      ap (λ (items : List Text). get_elem? items i) whole
          ∙ get_elem?-range_items prefix suffix width a (b - a + 1) i (omega arith),
      parse_uint-pad_decimal (2 ^ 32) width (a + i) (omega arith) (omega arith),
      pad_decimal-le-length width (a + i),
    )
