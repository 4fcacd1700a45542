-- ===== src/Base/TextMap/Sorted.antt =====
-- Sorting by keys forgets the order in which the elements came, where the keys differ.
use gpustat4cluster.Base.{
  ◌≡◌, refl, ap, ◌∙◌, true, false, List, [], ◌∷◌, All, arith, Bool-cases, inl, inr,
}
use gpustat4cluster.Base.Bytes.{bytes_eq}
use gpustat4cluster.Base.Text.{Text}
use gpustat4cluster.Base.TextMap.{
  text_le, text_le_total, text_le_antisym, text_le_trans, insert_by, sort_by,
}

-- The same elements in another order, as the same map gives them.
pub data Reordered {ℓ} {A : Type ℓ} : List A → List A → Type ℓ where
  same : {xs : List A} → Reordered xs xs
  keep : (x : A) {xs ys : List A} → Reordered xs ys → Reordered (x ∷ xs) (x ∷ ys)
  swap : (x y : A) {xs : List A} → Reordered (x ∷ y ∷ xs) (y ∷ x ∷ xs)
  both : {xs ys zs : List A} → Reordered xs ys → Reordered ys zs → Reordered xs zs

pub Reordered-back {ℓ} : {A : Type ℓ} {xs ys : List A} → Reordered xs ys → Reordered ys xs
Reordered-back same = same
Reordered-back (keep x r) = keep x (Reordered-back r)
Reordered-back (swap x y) = swap y x
Reordered-back (both r s) = both (Reordered-back s) (Reordered-back r)

module _ {ℓ} {A : Type ℓ} (key : A → Text) where
  abbrev pub Differ : A → A → Type 0
  Differ a b = (bytes_eq (key a) (key b) ≡ false) × (bytes_eq (key b) (key a) ≡ false)

  abbrev pub HasDistinctKeys : List A → Type 0
  HasDistinctKeys [] = Unit
  HasDistinctKeys (a ∷ rest) = All (Differ a) rest × HasDistinctKeys rest

  insert_by-insert_by :
      (a b : A) (l : List A)
      → Differ a b
      → insert_by key a (insert_by key b l) ≡ insert_by key b (insert_by key a l)
  unfolding insert_by
  insert_by-insert_by a b [] d = ground (
    arith,
    text_le_total (key a) (key b),
    text_le_antisym (key a) (key b),
    text_le_antisym (key b) (key a),
  )
  insert_by-insert_by a b (c ∷ l) d = ground (
    arith,
    insert_by-insert_by a b l d,
    text_le_total (key a) (key b),
    text_le_total (key b) (key a),
    text_le_total (key a) (key c),
    text_le_total (key b) (key c),
    text_le_antisym (key a) (key b),
    text_le_antisym (key b) (key a),
    text_le_trans (key a) (key b) (key c),
    text_le_trans (key b) (key a) (key c),
  )

  pub All-Reordered : (P : A → Type 0) {xs ys : List A} → Reordered xs ys → All P xs → All P ys
  All-Reordered P same h = h
  All-Reordered P (keep x r) h = (h.0, All-Reordered P r h.1)
  All-Reordered P (swap x y) h = (h.1.0, (h.0, h.1.1))
  All-Reordered P (both r s) h = All-Reordered P s (All-Reordered P r h)

  pub Reordered-HasDistinctKeys :
      {xs ys : List A} → Reordered xs ys → HasDistinctKeys xs → HasDistinctKeys ys
  Reordered-HasDistinctKeys same h = h
  Reordered-HasDistinctKeys (keep x r) h =
      (All-Reordered (Differ x) r h.0, Reordered-HasDistinctKeys r h.1)
  Reordered-HasDistinctKeys (swap x y) h = (((h.0.0.1, h.0.0.0), h.1.0), (h.0.1, h.1.1))
  Reordered-HasDistinctKeys (both r s) h =
      Reordered-HasDistinctKeys s (Reordered-HasDistinctKeys r h)

  pub sort_by-Reordered :
      {xs ys : List A} → Reordered xs ys → HasDistinctKeys xs → sort_by key xs ≡ sort_by key ys
  unfolding sort_by
  sort_by-Reordered same h = refl
  sort_by-Reordered (keep x r) h = ap (insert_by key x) (sort_by-Reordered r h.1)
  sort_by-Reordered (swap x y {xs}) h = insert_by-insert_by x y (sort_by key xs) h.0.0
  sort_by-Reordered (both r s) h =
      sort_by-Reordered r h ∙ sort_by-Reordered s (Reordered-HasDistinctKeys r h)

  -- Each key is at most those behind it.
  abbrev pub IsSortedBy : List A → Type 0
  IsSortedBy [] = Unit
  IsSortedBy (a ∷ rest) = All (λ b. text_le (key a) (key b) ≡ true) rest × IsSortedBy rest

  below-All :
      (a b : A) (rest : List A)
      → text_le (key a) (key b) ≡ true
      → All (λ c. text_le (key b) (key c) ≡ true) rest
      → All (λ c. text_le (key a) (key c) ≡ true) rest
  below-All a b [] h all = tt
  below-All a b (c ∷ rest) h all =
      (text_le_trans (key a) (key b) (key c) h all.0, below-All a b rest h all.1)

  insert_by-below :
      (a b : A) (rest : List A)
      → text_le (key b) (key a) ≡ true
      → All (λ c. text_le (key b) (key c) ≡ true) rest
      → All (λ c. text_le (key b) (key c) ≡ true) (insert_by key a rest)
  unfolding insert_by
  insert_by-below a b [] h all = (h, tt)
  insert_by-below a b (c ∷ rest) h all = elim (Bool-cases (text_le (key a) (key c))) [
    | inl e ↦ rw e (h, all)
    | inr e ↦ rw e (all.0, insert_by-below a b rest h all.1)
  ]

  insert_by-IsSortedBy :
      (a : A) (rest : List A) → IsSortedBy rest → IsSortedBy (insert_by key a rest)
  unfolding insert_by
  insert_by-IsSortedBy a [] s = (tt, tt)
  insert_by-IsSortedBy a (b ∷ rest) s = elim (Bool-cases (text_le (key a) (key b))) [
    | inl e ↦ rw e ((e, below-All a b rest e s.0), s)
    | inr e ↦ rw e (
      insert_by-below a b rest (text_le_total (key a) (key b) e) s.0,
      insert_by-IsSortedBy a rest s.1,
    )
  ]

  pub sort_by-IsSortedBy : (xs : List A) → IsSortedBy (sort_by key xs)
  unfolding sort_by
  sort_by-IsSortedBy [] = tt
  sort_by-IsSortedBy (x ∷ xs) = insert_by-IsSortedBy x (sort_by key xs) (sort_by-IsSortedBy xs)

  insert_by-Reordered : (a : A) (xs : List A) → Reordered (insert_by key a xs) (a ∷ xs)
  unfolding insert_by
  insert_by-Reordered a [] = same
  insert_by-Reordered a (b ∷ xs) = elim (Bool-cases (text_le (key a) (key b))) [
    | inl e ↦ rw e same
    | inr e ↦ rw e (both (keep b (insert_by-Reordered a xs)) (swap b a))
  ]

  pub Reordered-sort_by : (xs : List A) → Reordered (sort_by key xs) xs
  unfolding sort_by
  Reordered-sort_by [] = same
  Reordered-sort_by (x ∷ xs) =
      both (insert_by-Reordered x (sort_by key xs)) (keep x (Reordered-sort_by xs))
