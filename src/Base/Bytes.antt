-- ===== src/Base/Bytes.antt =====
-- Bytes are numbers below 256. The byte orders of `to_be_bytes`, `from_be_bytes`, `to_le_bytes`.
use Prim.Native.Nat.{ℕ, zero, suc, ◌+◌, ◌-◌, ◌*◌, ◌/◌, ◌%◌, ◌^◌, ◌≤◌, ◌<◌}
use mathlib.Core.Path.{◌≡◌, refl, sym, ap, ap₂, subst, ◌∙◌}
use mathlib.Core.Bool.{Bool, true, false, ◌&&◌}
use mathlib.Core.List.{List, [], ◌∷◌, ◌++◌}
use native.Mathlib.Omega.{arith}
use native.Mathlib.Nat.{
  pow-suc, mod-lt, mod-eq_of_lt, mul-add-mod_self_left, div-add-mod, mul-add-div, mul-add-div_right,
  div-eq_of_lt,
}
use gpustat4cluster.Base.Tests.{◌==◌}
use gpustat4cluster.Base.Lists.{
  length, take, drop, All, All-take, All-drop, take-append-drop, drop-drop, length-take,
  length-drop,
}

abbrev pub IsByte : ℕ → Type 0
IsByte b = b < 256

abbrev pub Bytes : Type 0
Bytes = List ℕ

-- `bytes[a..b]`
abbrev pub slice : Bytes → ℕ → ℕ → Bytes
slice bytes a b = take (b - a) (drop a bytes)

abbrev pub to_be_bytes : ℕ → ℕ → Bytes
to_be_bytes zero v = []
to_be_bytes (suc k) v = (v / 256 ^ k % 256) ∷ to_be_bytes k v

abbrev pub from_be_bytes : Bytes → ℕ
from_be_bytes [] = 0
from_be_bytes (b ∷ bs) = b * 256 ^ length bs + from_be_bytes bs

abbrev pub to_le_bytes : ℕ → ℕ → Bytes
to_le_bytes zero v = []
to_le_bytes (suc k) v = (v % 256) ∷ to_le_bytes k (v / 256)

-- `==` of byte slices
unfoldable pub bytes_eq : Bytes → Bytes → Bool
bytes_eq [] [] = true
bytes_eq [] (y ∷ ys) = false
bytes_eq (x ∷ xs) [] = false
bytes_eq (x ∷ xs) (y ∷ ys) = (x == y) && bytes_eq xs ys

pub bytes_eq_refl : (xs : Bytes) → bytes_eq xs xs ≡ true
unfolding bytes_eq
bytes_eq_refl [] = refl
bytes_eq_refl (x ∷ xs) = ground (arith, bytes_eq_refl xs)

pub bytes_eq→eq : (xs ys : Bytes) → bytes_eq xs ys ≡ true → xs ≡ ys
unfolding bytes_eq
bytes_eq→eq [] [] h = refl
bytes_eq→eq [] (y ∷ ys) h = cc
bytes_eq→eq (x ∷ xs) [] h = cc
bytes_eq→eq (x ∷ xs) (y ∷ ys) h = ground (arith, bytes_eq→eq xs ys)

pub bytes_eq_sym : (xs ys : Bytes) → bytes_eq xs ys ≡ bytes_eq ys xs
unfolding bytes_eq
bytes_eq_sym [] [] = refl
bytes_eq_sym [] (y ∷ ys) = refl
bytes_eq_sym (x ∷ xs) [] = refl
bytes_eq_sym (x ∷ xs) (y ∷ ys) = ground (arith, bytes_eq_sym xs ys)

pub length-to_be_bytes : (k v : ℕ) → length (to_be_bytes k v) ≡ k
length-to_be_bytes zero v = refl
length-to_be_bytes (suc k) v = ap suc (length-to_be_bytes k v)

pub to_be_bytes-IsByte : (k v : ℕ) → All IsByte (to_be_bytes k v)
to_be_bytes-IsByte zero v = tt
to_be_bytes-IsByte (suc k) v = (omega arith, to_be_bytes-IsByte k v)

pow_pos : (k : ℕ) → 0 < 256 ^ k
pow_pos zero = omega arith
pow_pos (suc k) = rw (pow-suc 256 k) (omega (arith, pow_pos k))

mod_split : (p v : ℕ) → 0 < p → v / p % 256 * p + v % p ≡ v % (p * 256)
mod_split p v h = sym (
    ap (λ (t : ℕ). t % (p * 256)) v_eq
    ∙ mul-add-mod_self_left (p * 256) (q / 256) low
    ∙ mod-eq_of_lt low_lt)
  where
    q : ℕ
    q = v / p

    low : ℕ
    low = q % 256 * p + v % p

    q_eq : 256 * (q / 256) + q % 256 ≡ q
    q_eq = omega arith

    v_eq : v ≡ p * 256 * (q / 256) + low
    v_eq = sym (div-add-mod v p) ∙ omega (arith, ap (λ (t : ℕ). t * p) q_eq)

    low_lt : low < p * 256
    low_lt = grind (arith, mod-lt v h, mod-lt q)

pub from_be_bytes-lt : (bs : Bytes) → All IsByte bs → from_be_bytes bs < 256 ^ length bs
from_be_bytes-lt [] h = omega arith
from_be_bytes-lt (b ∷ bs) h = rw (pow-suc 256 (length bs)) (grind (arith, from_be_bytes-lt bs h.1))

-- Reading back what was written keeps the low `k` bytes.
pub from_be_bytes-to_be_bytes : (k v : ℕ) → from_be_bytes (to_be_bytes k v) ≡ v % 256 ^ k
from_be_bytes-to_be_bytes zero v = omega arith
from_be_bytes-to_be_bytes (suc k) v =
    rw (length-to_be_bytes k v)
      (rw (from_be_bytes-to_be_bytes k v) (rw (pow-suc 256 k) (mod_split (256 ^ k) v (pow_pos k))))

-- Only the low `k` bytes of a number are written.
to_be_bytes-add_high : (k c r : ℕ) → to_be_bytes k (c * 256 ^ k + r) ≡ to_be_bytes k r
to_be_bytes-add_high zero c r = refl
to_be_bytes-add_high (suc k) c r = ap₂ ◌∷◌ head_eq (low_eq ∙ to_be_bytes-add_high k (c * 256) r)
  where
    p : ℕ
    p = 256 ^ k

    whole : c * 256 ^ suc k + r ≡ p * (c * 256) + r
    whole = rw (pow-suc 256 k) (omega arith)

    head_eq : (c * 256 ^ suc k + r) / 256 ^ k % 256 ≡ r / 256 ^ k % 256
    head_eq = rw whole (rw (mul-add-div (pow_pos k) (c * 256) r) (omega arith))

    low_eq : to_be_bytes k (c * 256 ^ suc k + r) ≡ to_be_bytes k (c * 256 * 256 ^ k + r)
    low_eq = ap (to_be_bytes k) (whole ∙ omega arith)

-- Writing back what was read gives the bytes that were read.
pub to_be_bytes-from_be_bytes :
    (bs : Bytes) → All IsByte bs → to_be_bytes (length bs) (from_be_bytes bs) ≡ bs
to_be_bytes-from_be_bytes [] h = refl
to_be_bytes-from_be_bytes (b ∷ bs) h =
    ap₂ ◌∷◌ head_eq (to_be_bytes-add_high (length bs) b r ∙ to_be_bytes-from_be_bytes bs h.1)
  where
    p : ℕ
    p = 256 ^ length bs

    r : ℕ
    r = from_be_bytes bs

    head_eq : (b * 256 ^ length bs + from_be_bytes bs) / 256 ^ length bs % 256 ≡ b
    head_eq =
        rw (mul-add-div_right (pow_pos (length bs)) b r)
          (rw (div-eq_of_lt (from_be_bytes-lt bs h.1)) (omega (arith, h.0)))

-- The part of `bytes` from `a` on is the field `bytes[a..b]` and the part from `b` on.
pub drop-field : (a b : ℕ) (bytes : Bytes) → a ≤ b → drop a bytes ≡ slice bytes a b ++ drop b bytes
drop-field a b bytes h =
    sym (take-append-drop (b - a) (drop a bytes))
    ∙ ap (λ rest. slice bytes a b ++ rest)
        (drop-drop a (b - a) bytes ∙ ap (λ k. drop k bytes) (omega arith))

module _ (a b : ℕ) (bytes : Bytes) (ordered : a ≤ b) (inside : b ≤ length bytes) where
  pub length-field : length (slice bytes a b) ≡ b - a
  length-field = length-take (b - a) (drop a bytes) ∙ omega (arith, length-drop a bytes)

  field-IsByte : All IsByte bytes → All IsByte (slice bytes a b)
  field-IsByte h = All-take IsByte (b - a) (drop a bytes) (All-drop IsByte a bytes h)

  -- A field of a byte string that is read as a number is what the number is written as.
  pub to_be_bytes-field :
      All IsByte bytes → to_be_bytes (b - a) (from_be_bytes (slice bytes a b)) ≡ slice bytes a b
  to_be_bytes-field h =
      ap (λ k. to_be_bytes k (from_be_bytes (slice bytes a b))) (sym length-field)
      ∙ to_be_bytes-from_be_bytes (slice bytes a b) (field-IsByte h)

  pub field-lt : All IsByte bytes → from_be_bytes (slice bytes a b) < 256 ^ (b - a)
  field-lt h =
      subst (λ k. from_be_bytes (slice bytes a b) < 256 ^ k) length-field
        (from_be_bytes-lt (slice bytes a b) (field-IsByte h))
