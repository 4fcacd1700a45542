-- ===== src/Server/Startup/LogSize.antt =====
-- The sizes that `parse_log_size_bytes` reads.
use native.Mathlib.Nat.{mul-le-mul_left}
use gpustat4cluster.Base.{
  ℕ, ◌*◌, ◌^◌, ◌≤◌, ◌<◌, ◌≡◌, ap, ◌∙◌, ltb, ◌==◌, true, false, some, [], ◌∷◌, ◌++◌, ok, All,
  All-append, arith, length, length-append, Option-cases, Bool-cases, inl, inr, ltb→lt,
}
use gpustat4cluster.Base.Text.{Text}
use gpustat4cluster.Base.Scan.{is_empty, is_digit, trim, to_ascii_lowercase}
use gpustat4cluster.Base.Scan.Digits.{
  parse_uint, decimal, IsDigit, decimal-IsDigit, decimal_pos, parse_uint-decimal,
}
use gpustat4cluster.Base.Scan.Trim.{IsGraphic, trim_graphic}
use gpustat4cluster.Server.Startup.{
  split_digits, multiplier, checked_mul, scale, parse_log_size_bytes,
}

split_digits-append :
    (number unit : Text) (c : ℕ)
    → All IsDigit number
    → is_digit c ≡ false
    → split_digits (number ++ (c ∷ unit)) ≡ (number, c ∷ unit)
unfolding split_digits
split_digits-append [] unit c all other = ground arith
split_digits-append (d ∷ number) unit c all other =
    ground (arith, all.0, split_digits-append number unit c all.1 other)

digits-IsGraphic : (number : Text) → All IsDigit number → All IsGraphic number
digits-IsGraphic [] all = tt
digits-IsGraphic (d ∷ number) all = (omega (arith, all.0), digits-IsGraphic number all.1)

scaled :
    (value times : ℕ) (unit : Text)
    → All IsGraphic unit
    → multiplier (to_ascii_lowercase unit) ≡ some times
    → value * times < 2 ^ 64
    → scale value unit ≡ ok (value * times)
unfolding scale checked_mul
scaled value times unit graphic known fits =
    let found =
      ap (λ (u : Text). multiplier (to_ascii_lowercase u)) (trim_graphic unit graphic) ∙ known in
    ground arith

empty_length : (t : Text) → is_empty t ≡ true → 0 < length t → ⊥
empty_length [] e pos = omega arith
empty_length (c ∷ t) e pos = cc

-- The number and the unit, without the space that may stand around the text.
parsed :
    (number unit : Text) (value : ℕ)
    → split_digits (trim (number ++ unit)) ≡ (number, unit)
    → 0 < length number
    → 0 < length (trim (number ++ unit))
    → parse_uint (2 ^ 64) number ≡ some value
    → 0 < value
    → parse_log_size_bytes (number ++ unit) ≡ scale value unit
unfolding parse_log_size_bytes
parsed [] unit value cut some_ whole read pos = absurd (omega arith)
parsed (c ∷ number) unit value cut some_ whole read pos =
    elim (Bool-cases (is_empty (trim ((c ∷ number) ++ unit)))) [
      | inl e ↦ absurd (empty_length (trim ((c ∷ number) ++ unit)) e whole)
      | inr e ↦ ground arith
    ]

-- A size above 0, written in decimal digits and followed by a known unit in upper or lower case, of
-- visible ASCII characters and not beginning with a digit, is read as the size times the unit, if
-- the product is below 2^64.
pub parse_log_size_bytes-decimal :
    (n times c : ℕ) (unit : Text)
    → 0 < n
    → All IsGraphic (c ∷ unit)
    → is_digit c ≡ false
    → multiplier (to_ascii_lowercase (c ∷ unit)) ≡ some times
    → 0 < times
    → n * times < 2 ^ 64
    → parse_log_size_bytes (decimal n ++ (c ∷ unit)) ≡ ok (n * times)
parse_log_size_bytes-decimal n times c unit pos graphic other known unit_pos fits =
    let number = decimal n in
    let plain : All IsGraphic (number ++ (c ∷ unit)) =
      All-append IsGraphic number (c ∷ unit) (digits-IsGraphic number (decimal-IsDigit n))
        graphic in
    let same : trim (number ++ (c ∷ unit)) ≡ number ++ (c ∷ unit) =
      trim_graphic (number ++ (c ∷ unit)) plain in
    let small : n * 1 ≤ n * times = mul-le-mul_left n unit_pos in
    let cut : split_digits (trim (number ++ (c ∷ unit))) ≡ (number, c ∷ unit) =
      ap split_digits same ∙ split_digits-append number unit c (decimal-IsDigit n) other in
    let long : 0 < length (trim (number ++ (c ∷ unit))) =
      omega (arith, ap length same, length-append number (c ∷ unit)) in
    parsed number (c ∷ unit) n cut (decimal_pos n) long
      (parse_uint-decimal (2 ^ 64) n (omega arith) (omega arith)) pos
    ∙ scaled n times (c ∷ unit) graphic known fits

multiplier_pos : (unit : Text) (times : ℕ) → multiplier unit ≡ some times → 0 < times
unfolding multiplier
multiplier_pos unit times h = ground arith

scale_bounds :
    (value size : ℕ) (unit : Text)
    → 0 < value
    → scale value unit ≡ ok size
    → (0 < size) × (size < 2 ^ 64)
unfolding scale checked_mul
scale_bounds value size unit pos h =
    elim (Option-cases (multiplier (to_ascii_lowercase (trim unit)))) [
      | inl e ↦ absurd (ground arith)
      | inr (times, e) ↦
          let least : value * 1 ≤ value * times =
            mul-le-mul_left value (multiplier_pos (to_ascii_lowercase (trim unit)) times e) in
          elim (Bool-cases (ltb (value * times) (2 ^ 64))) [
            | inl f ↦
                let own : value * times ≡ size = ground arith in
                (omega (arith, own, least), omega (arith, own, ltb→lt (value * times) (2 ^ 64) f))
            | inr f ↦ absurd (ground arith)
          ]
    ]

-- Whatever text is accepted as a size: the size is not zero and fits 64 bits.
pub parse_log_size_bytes_bounds :
    (raw : Text) (size : ℕ) → parse_log_size_bytes raw ≡ ok size → (0 < size) × (size < 2 ^ 64)
unfolding parse_log_size_bytes
parse_log_size_bytes_bounds raw size read =
    let (number, unit) = split_digits (trim raw) in
    elim (Option-cases (parse_uint (2 ^ 64) number)) [
      | inl e ↦ absurd (ground arith)
      | inr (value, e) ↦ elim (Bool-cases (value == 0)) [
        | inl zero_ ↦ absurd (ground arith)
        | inr other ↦ scale_bounds value size unit (ground arith) (ground arith)
      ]
    ]
