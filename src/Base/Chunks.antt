-- ===== src/Base/Chunks.antt =====
-- `slice::chunks`: a list in pieces of a given length, the last one maybe shorter.
use Prim.Native.Nat.{ℕ, zero, suc, ◌+◌, ◌-◌, ◌*◌, ◌/◌, ◌≤◌, ◌<◌}
use mathlib.Core.Path.{◌≡◌, refl, ap, sym, ◌∙◌}
use mathlib.Core.List.{List, [], ◌∷◌, ◌++◌}
use native.Mathlib.Omega.{arith}
use native.Mathlib.Nat.{div-eq_of_lt-le}
use gpustat4cluster.Base.Lists.{length, take, drop, All, take-append-drop, length-take, length-drop}

-- One more piece in front of `count` pieces of the rest.
count_suc :
    (len n count : ℕ)
    → 0 < n
    → suc len - n ≤ count * n
    → count * n < suc len - n + n
    → (suc len ≤ suc count * n) × (suc count * n < suc len + n)
count_suc len n zero pos lower upper = omega arith
count_suc len n (suc count) pos lower upper = grind arith

module _ {ℓ} {A : Type ℓ} where
  -- The first argument is fuel: each piece takes an element at least.
  unfoldable pub chunks_fuel : ℕ → ℕ → List A → List (List A)
  chunks_fuel zero n xs = []
  chunks_fuel (suc f) n [] = []
  chunks_fuel (suc f) n (x ∷ xs) = take n (x ∷ xs) ∷ chunks_fuel f n (drop n (x ∷ xs))

  unfoldable pub chunks : ℕ → List A → List (List A)
  unfolding chunks_fuel
  chunks n xs = chunks_fuel (length xs) n xs

  -- The pieces in a row.
  abbrev pub concat : List (List A) → List A
  concat [] = []
  concat (x ∷ xs) = x ++ concat xs

  concat-chunks_fuel :
      (f n : ℕ) (xs : List A) → 0 < n → length xs ≤ f → concat (chunks_fuel f n xs) ≡ xs
  unfolding chunks_fuel
  concat-chunks_fuel zero n [] pos h = refl
  concat-chunks_fuel zero n (x ∷ xs) pos h = absurd (omega arith)
  concat-chunks_fuel (suc f) n [] pos h = refl
  concat-chunks_fuel (suc f) n (x ∷ xs) pos h =
      ap (λ rest. take n (x ∷ xs) ++ rest)
        (concat-chunks_fuel f n (drop n (x ∷ xs)) pos (omega (arith, length-drop n (x ∷ xs))))
      ∙ take-append-drop n (x ∷ xs)

  chunks_fuel-IsShort :
      (f n : ℕ) (xs : List A) → All (λ piece. length piece ≤ n) (chunks_fuel f n xs)
  unfolding chunks_fuel
  chunks_fuel-IsShort zero n xs = tt
  chunks_fuel-IsShort (suc f) n [] = tt
  chunks_fuel-IsShort (suc f) n (x ∷ xs) =
      (omega (arith, length-take n (x ∷ xs)), chunks_fuel-IsShort f n (drop n (x ∷ xs)))

  -- The number of pieces, as the least `k` with `length xs ≤ k * n`.
  length-chunks_fuel :
      (f n : ℕ) (xs : List A)
      → 0 < n
      → length xs ≤ f
      → (length xs ≤ length (chunks_fuel f n xs) * n)
        × (length (chunks_fuel f n xs) * n < length xs + n)
  unfolding chunks_fuel
  length-chunks_fuel zero n [] pos h = omega arith
  length-chunks_fuel zero n (x ∷ xs) pos h = absurd (omega arith)
  length-chunks_fuel (suc f) n [] pos h = omega arith
  length-chunks_fuel (suc f) n (x ∷ xs) pos h =
      let count = length (chunks_fuel f n (drop n (x ∷ xs))) in
      let ih =
        length-chunks_fuel f n (drop n (x ∷ xs)) pos (omega (arith, length-drop n (x ∷ xs))) in
      count_suc (length xs) n count pos (omega (arith, ih, length-drop n (x ∷ xs)))
        (omega (arith, ih, length-drop n (x ∷ xs)))

  -- There are `div_ceil` pieces.
  pub length-chunks : (n : ℕ) (xs : List A) → 0 < n → length (chunks n xs) ≡ (length xs + n - 1) / n
  unfolding chunks
  length-chunks n xs pos =
      let count = length-chunks_fuel (length xs) n xs pos (omega arith) in
      sym (div-eq_of_lt-le n (omega (arith, count)) (omega (arith, count)))

  pub concat-chunks : (n : ℕ) (xs : List A) → 0 < n → concat (chunks n xs) ≡ xs
  unfolding chunks
  concat-chunks n xs pos = concat-chunks_fuel (length xs) n xs pos (omega arith)

  pub chunks-IsShort : (n : ℕ) (xs : List A) → All (λ piece. length piece ≤ n) (chunks n xs)
  unfolding chunks
  chunks-IsShort n xs = chunks_fuel-IsShort (length xs) n xs
