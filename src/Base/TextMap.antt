-- ===== src/Base/TextMap.antt =====
-- `HashMap` with texts as keys, as an association list, and the order of texts. The order in which a
-- map is iterated is that of the list; what the source does with it afterwards is to sort.
pub mod Sorted
use Prim.Native.Nat.{ℕ}
use mathlib.Core.Path.{◌≡◌, refl, sym}
use mathlib.Core.Logic.{inl, inr}
use mathlib.Core.Bool.{Bool, true, false}
use mathlib.Core.Option.{Option, none, some}
use mathlib.Core.List.{List, [], ◌∷◌}
use native.Mathlib.Omega.{arith}
use gpustat4cluster.Base.Tests.{◌==◌, ltb, if◌then◌else◌, Bool-cases}
use gpustat4cluster.Base.Bytes.{bytes_eq, bytes_eq_refl, bytes_eq→eq}
use gpustat4cluster.Base.Text.{Text}

-- `str::cmp` is at most `Equal`.
unfoldable pub text_le : Text → Text → Bool
text_le [] t = true
text_le (c ∷ s) [] = false
text_le (c ∷ s) (d ∷ t) = let rest = text_le s t in if c == d then rest else ltb c d

pub text_le_total : (s t : Text) → text_le s t ≡ false → text_le t s ≡ true
unfolding text_le
text_le_total [] t h = cc
text_le_total (c ∷ s) [] h = refl
text_le_total (c ∷ s) (d ∷ t) h = ground (arith, text_le_total s t)

pub text_le_antisym : (s t : Text) → text_le s t ≡ true → text_le t s ≡ true → bytes_eq s t ≡ true
unfolding text_le bytes_eq
text_le_antisym [] [] h k = refl
text_le_antisym [] (d ∷ t) h k = cc
text_le_antisym (c ∷ s) [] h k = cc
text_le_antisym (c ∷ s) (d ∷ t) h k = ground (arith, text_le_antisym s t)

pub text_le_trans : (s t u : Text) → text_le s t ≡ true → text_le t u ≡ true → text_le s u ≡ true
unfolding text_le
text_le_trans [] t u h k = refl
text_le_trans (c ∷ s) [] u h k = cc
text_le_trans (c ∷ s) (d ∷ t) [] h k = cc
text_le_trans (c ∷ s) (d ∷ t) (e ∷ u) h k = ground (arith, text_le_trans s t u)

module _ {ℓ} {A : Type ℓ} where
  unfoldable pub get : Text → List (Text × A) → Option A
  get key [] = none
  get key ((k, a) ∷ rest) = let later = get key rest in if bytes_eq k key then some a else later

  unfoldable pub insert : Text → A → List (Text × A) → List (Text × A)
  insert key a [] = (key, a) ∷ []
  insert key a ((k, old) ∷ rest) =
      let later = insert key a rest in if bytes_eq k key then (key, a) ∷ rest else (k, old) ∷ later

  pub get-insert : (key : Text) (a : A) (m : List (Text × A)) → get key (insert key a m) ≡ some a
  unfolding get insert
  get-insert key a [] = ground (arith, bytes_eq_refl key)
  get-insert key a ((k, old) ∷ rest) = ground (arith, get-insert key a rest, bytes_eq_refl key)

  pub get-insert_ne :
      (key other : Text) (a : A) (m : List (Text × A))
      → bytes_eq key other ≡ false
      → get other (insert key a m) ≡ get other m
  unfolding get insert
  get-insert_ne key other a [] h = ground arith
  get-insert_ne key other a ((k, old) ∷ rest) h =
      ground (arith, get-insert_ne key other a rest h, bytes_eq→eq k key)

  pub get-insert_if :
      (key other : Text) (a : A) (m : List (Text × A))
      → get other (insert key a m) ≡ (if bytes_eq key other then some a else get other m)
  get-insert_if key other a m = elim (Bool-cases (bytes_eq key other)) [
    | inl e ↦ rw e (rw (sym (bytes_eq→eq key other e)) (get-insert key a m))
    | inr e ↦ rw e (get-insert_ne key other a m e)
  ]

module _ {ℓ} {A : Type ℓ} (key : A → Text) where
  -- `sort_by` of the keys: stable.
  unfoldable pub insert_by : A → List A → List A
  insert_by a [] = a ∷ []
  insert_by a (b ∷ bs) =
      let later = insert_by a bs in if text_le (key a) (key b) then a ∷ b ∷ bs else b ∷ later

  unfoldable pub sort_by : List A → List A
  sort_by [] = []
  sort_by (a ∷ as_) = insert_by a (sort_by as_)
