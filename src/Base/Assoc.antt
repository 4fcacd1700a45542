-- ===== src/Base/Assoc.antt =====
-- Maps with numbers as keys, as association lists.
use gpustat4cluster.Base.{
  ℕ, List, [], ◌∷◌, ◌≡◌, ◌≢◌, refl, Option, none, some, ◌==◌, ==_refl, if◌then◌else◌, arith,
}

module _ {ℓ} {A : Type ℓ} where
  abbrev pub find : ℕ → List (ℕ × A) → Option A
  find key [] = none
  find key ((k, a) ∷ rest) = if k == key then some a else find key rest

  abbrev pub put : ℕ → A → List (ℕ × A) → List (ℕ × A)
  put key a [] = (key, a) ∷ []
  put key a ((k, old) ∷ rest) = if k == key then (key, a) ∷ rest else (k, old) ∷ put key a rest

  abbrev pub remove : ℕ → List (ℕ × A) → List (ℕ × A)
  remove key [] = []
  remove key ((k, a) ∷ rest) = if k == key then remove key rest else (k, a) ∷ remove key rest

  pub find-put : (key : ℕ) (a : A) (m : List (ℕ × A)) → find key (put key a m) ≡ some a
  find-put key a [] = rw (==_refl key)
  find-put key a ((k, old) ∷ rest) = ground (arith, find-put key a rest)

  pub find-put_ne :
      (key other : ℕ) (a : A) (m : List (ℕ × A))
      → key ≢ other
      → find other (put key a m) ≡ find other m
  find-put_ne key other a [] ne = ground arith
  find-put_ne key other a ((k, old) ∷ rest) ne = ground (arith, find-put_ne key other a rest ne)

  pub find-remove : (key : ℕ) (m : List (ℕ × A)) → find key (remove key m) ≡ none
  find-remove key [] = refl
  find-remove key ((k, a) ∷ rest) = ground (arith, find-remove key rest)

  pub find-remove_ne :
      (key other : ℕ) (m : List (ℕ × A)) → key ≢ other → find other (remove key m) ≡ find other m
  find-remove_ne key other [] ne = refl
  find-remove_ne key other ((k, a) ∷ rest) ne = ground (arith, find-remove_ne key other rest ne)
