-- ===== src/Server/Cache/Metrics/Percentile.antt =====
-- The percentiles are nearest ranks.
use native.Mathlib.Nat.{mul-le-mul_left}
use gpustat4cluster.Base.{
  ℕ, zero, suc, ◌+◌, ◌*◌, ◌^◌, ◌≤◌, ◌<◌, List, [], ◌∷◌, ◌≡◌, refl, arith, length, get_or, leb, ltb,
  if◌then◌else◌, All,
}
use gpustat4cluster.Server.Cache.Metrics.{insert_sorted, sort, rank, percentile_us}

-- How many of the samples are at most a value, and how many are less.
abbrev pub count_le : ℕ → List ℕ → ℕ
count_le v [] = 0
count_le v (x ∷ xs) = (if leb x v then 1 else 0) + count_le v xs

abbrev pub count_lt : ℕ → List ℕ → ℕ
count_lt v [] = 0
count_lt v (x ∷ xs) = (if ltb x v then 1 else 0) + count_lt v xs

abbrev IsSorted : List ℕ → Type 0
IsSorted [] = Unit
IsSorted (x ∷ xs) = All (λ y. x ≤ y) xs × IsSorted xs

All-le : (x y : ℕ) (xs : List ℕ) → x ≤ y → All (λ z. y ≤ z) xs → All (λ z. x ≤ z) xs
All-le x y [] h all = tt
All-le x y (z ∷ xs) h all = (omega (arith, all.0), All-le x y xs h all.1)

insert_sorted-All :
    (x v : ℕ) (xs : List ℕ) → v ≤ x → All (λ y. v ≤ y) xs → All (λ y. v ≤ y) (insert_sorted x xs)
unfolding insert_sorted
insert_sorted-All x v [] h all = (h, tt)
insert_sorted-All x v (y ∷ ys) h all = ground (arith, insert_sorted-All x v ys h all.1)

insert_sorted-IsSorted : (x : ℕ) (xs : List ℕ) → IsSorted xs → IsSorted (insert_sorted x xs)
unfolding insert_sorted
insert_sorted-IsSorted x [] s = (tt, tt)
insert_sorted-IsSorted x (y ∷ ys) s =
    ground (arith, All-le x y ys, insert_sorted-IsSorted x ys s.1, insert_sorted-All x y ys)

sort-IsSorted : (xs : List ℕ) → IsSorted (sort xs)
unfolding sort
sort-IsSorted [] = tt
sort-IsSorted (x ∷ xs) = insert_sorted-IsSorted x (sort xs) (sort-IsSorted xs)

count-insert_sorted :
    (v x : ℕ) (xs : List ℕ)
    → (count_le v (insert_sorted x xs) ≡ count_le v (x ∷ xs))
      × (count_lt v (insert_sorted x xs) ≡ count_lt v (x ∷ xs))
      × (length (insert_sorted x xs) ≡ suc (length xs))
unfolding insert_sorted
count-insert_sorted v x [] = (refl, refl, refl)
count-insert_sorted v x (y ∷ ys) = ground (arith, count-insert_sorted v x ys)

count-sort :
    (v : ℕ) (xs : List ℕ)
    → (count_le v (sort xs) ≡ count_le v xs)
      × (count_lt v (sort xs) ≡ count_lt v xs)
      × (length (sort xs) ≡ length xs)
unfolding sort
count-sort v [] = (refl, refl, refl)
count-sort v (x ∷ xs) = ground (arith, count-insert_sorted v x (sort xs), count-sort v xs)

none_less : (v : ℕ) (xs : List ℕ) → All (λ y. v ≤ y) xs → count_lt v xs ≡ 0
none_less v [] all = refl
none_less v (x ∷ xs) all = ground (arith, none_less v xs all.1)

get_or-All : (x : ℕ) (xs : List ℕ) (k : ℕ) → k < length xs → All (λ y. x ≤ y) xs → x ≤ get_or xs k 0
get_or-All x [] k h all = absurd (omega (arith, h))
get_or-All x (y ∷ xs) zero h all = all.0
get_or-All x (y ∷ xs) (suc k) h all = get_or-All x xs k (omega arith) all.1

-- In a sorted list more than `k` elements are at most the one at `k`, and at most `k` are less.
ranked :
    (xs : List ℕ) (k : ℕ)
    → IsSorted xs
    → k < length xs
    → (k < count_le (get_or xs k 0) xs) × (count_lt (get_or xs k 0) xs ≤ k)
ranked [] k s h = absurd (omega (arith, h))
ranked (x ∷ xs) zero s h = ground (arith, none_less x xs s.0)
ranked (x ∷ xs) (suc k) s h =
    ground (arith, ranked xs k s.1 (omega arith), get_or-All x xs k (omega arith) s.0)

rank_lem :
    (n percentile : ℕ)
    → 0 < n
    → n < 2 ^ 50
    → 0 < percentile
    → percentile ≤ 100
    → (rank n percentile < n)
      × (100 * rank n percentile < n * percentile)
      × (n * percentile ≤ 100 * (rank n percentile + 1))
unfolding rank
rank_lem n percentile pos few low high =
    let prod_le : n * percentile ≤ n * 100 = mul-le-mul_left n high in
    let prod_ge : n * 1 ≤ n * percentile = mul-le-mul_left n low in omega (arith, prod_le, prod_ge)

-- A percentile of 1 to 100, of one sample or more (fewer than 2^50), is a nearest rank: that
-- percentage of the samples are at most the value, and less than that percentage are below it.
pub percentile_us_lem :
    (samples : List ℕ) (percentile : ℕ)
    → 0 < length samples
    → length samples < 2 ^ 50
    → 0 < percentile
    → percentile ≤ 100
    → (length samples * percentile ≤ 100 * count_le (percentile_us samples percentile) samples)
      × (100 * count_lt (percentile_us samples percentile) samples < length samples * percentile)
unfolding percentile_us
percentile_us_lem samples percentile pos few low high =
    let k = rank (length samples) percentile in
    let v = get_or (sort samples) k 0 in
    let (inside, above, below) = rank_lem (length samples) percentile pos few low high in
    let value : percentile_us samples percentile ≡ v = ground (arith, pos) in
    let counts = count-sort v samples in
    let (more, less) =
      ranked (sort samples) k (sort-IsSorted samples) (omega (arith, inside, counts.2)) in
    rw value (
      omega (arith, more, less, counts.0, counts.1, below),
      omega (arith, more, less, counts.0, counts.1, above),
    )
