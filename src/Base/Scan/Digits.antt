-- ===== src/Base/Scan/Digits.antt =====
-- `parse` of an unsigned integer, and its decimal digits.
use gpustat4cluster.Base.{
  ℕ, zero, suc, ◌+◌, ◌-◌, ◌*◌, ◌/◌, ◌%◌, ◌^◌, ◌<◌, ◌≤◌, ◌≡◌, refl, ap, ◌∙◌, Bool, true, Option,
  none, some, [], ◌∷◌, ◌++◌, ◌==◌, ltb, leb, if◌then◌else◌, ◌&&◌, length, replicate, arith,
  length-append, length-replicate, Bool-cases, inl, inr, All, All-append, ltb→lt,
}
use gpustat4cluster.Base.Text.{Text}
use native.Mathlib.Nat.{pow-suc}

abbrev digit : ℕ → Bool
digit c = leb b'0' c && leb c b'9'

-- The digits read so far have the value `acc`; the result is below `limit`.
unfoldable pub digits_from : ℕ → ℕ → Text → Option ℕ
digits_from limit acc [] = some acc
digits_from limit acc (c ∷ t) =
    let acc' = acc * 10 + (c - b'0') in
    let rest = digits_from limit acc' t in
    if digit c then (if ltb acc' limit then rest else none) else none

-- `str::parse` of an unsigned integer below `limit`: one `+` may stand in front.
unfoldable pub parse_uint : ℕ → Text → Option ℕ
unfolding digits_from
parse_uint limit [] = none
parse_uint limit (c ∷ []) = digits_from limit 0 (c ∷ [])
parse_uint limit (c ∷ d ∷ t) =
    if c == b'+' then digits_from limit 0 (d ∷ t) else digits_from limit 0 (c ∷ d ∷ t)

-- The decimal digits of a number below `10 ^ fuel`.
unfoldable pub digits_fuel : ℕ → ℕ → Text
digits_fuel zero n = []
digits_fuel (suc fuel) n =
    let more = digits_fuel fuel (n / 10) in
    if ltb n 10 then (n + b'0') ∷ [] else more ++ ((n % 10 + b'0') ∷ [])

-- 20 digits are enough for 64 bits.
unfoldable pub decimal : ℕ → Text
unfolding digits_fuel
decimal n = digits_fuel 20 n

-- `{:0width$}`
unfoldable pub pad_decimal : ℕ → ℕ → Text
unfolding decimal
pad_decimal width n = replicate (width - length (decimal n)) b'0' ++ decimal n

digits_fuel_pos : (fuel n : ℕ) → 0 < fuel → 0 < length (digits_fuel fuel n)
unfolding digits_fuel
digits_fuel_pos zero n pos = absurd (omega arith)
digits_fuel_pos (suc fuel) n pos =
    ground (arith, length-append (digits_fuel fuel (n / 10)) ((n % 10 + b'0') ∷ []))

pub pad_decimal-le-length : (width n : ℕ) → width ≤ length (pad_decimal width n)
unfolding pad_decimal
pad_decimal-le-length width n = omega (
  arith,
  length-append (replicate (width - length (decimal n)) b'0') (decimal n),
  length-replicate {A = ℕ} (width - length (decimal n)) b'0',
)

pad_decimal_pos : (width n : ℕ) → 0 < length (pad_decimal width n)
unfolding pad_decimal decimal
pad_decimal_pos width n = omega (
  arith,
  length-append (replicate (width - length (decimal n)) b'0') (decimal n),
  digits_fuel_pos 20 n,
)

module _ (limit : ℕ) where
  digits_from-snoc :
      (acc : ℕ) (t : Text) (v c : ℕ)
      → digits_from limit acc t ≡ some v
      → digit c ≡ true
      → v * 10 + (c - b'0') < limit
      → digits_from limit acc (t ++ (c ∷ [])) ≡ some (v * 10 + (c - b'0'))
  unfolding digits_from
  digits_from-snoc acc [] v c h is small = ground (arith, h)
  digits_from-snoc acc (d ∷ t) v c h is small =
      ground (arith, digits_from-snoc (acc * 10 + (d - b'0')) t v c)

  digits_from-replicate :
      (k : ℕ) (t : Text)
      → 0 < limit
      → digits_from limit 0 (replicate k b'0' ++ t) ≡ digits_from limit 0 t
  unfolding digits_from
  digits_from-replicate zero t pos = refl
  digits_from-replicate (suc k) t pos = ground (arith, digits_from-replicate k t pos)

  digits_from-digits_fuel :
      (fuel n : ℕ) → n < limit → n < 10 ^ fuel → digits_from limit 0 (digits_fuel fuel n) ≡ some n
  unfolding digits_fuel
  digits_from-digits_fuel zero n small few = unfold digits_from in ground arith
  digits_from-digits_fuel (suc fuel) n small few =
      let fits : n < 10 * 10 ^ fuel = omega (arith, few, pow-suc 10 fuel) in
      let value : n / 10 * 10 + (n % 10 + b'0' - b'0') ≡ n = omega arith in
      elim (Bool-cases (ltb n 10)) [
        | inl one ↦ rw one (unfold digits_from in ground arith)
        | inr more ↦ rw more (
            digits_from-snoc 0 (digits_fuel fuel (n / 10)) (n / 10) (n % 10 + b'0')
              (digits_from-digits_fuel fuel (n / 10) (omega arith) (omega arith)) (ground arith)
              (omega arith)
            ∙ ap some value)
      ]

  parse_uint-digits_from :
      (t : Text) (v : ℕ)
      → 0 < length t
      → digits_from limit 0 t ≡ some v
      → parse_uint limit t ≡ some v
  unfolding parse_uint digits_from
  parse_uint-digits_from [] v pos h = absurd (omega arith)
  parse_uint-digits_from (c ∷ []) v pos h = h
  parse_uint-digits_from (c ∷ d ∷ t) v pos h = ground arith

  -- The digits of a number, with zeros in front, are parsed as the number.
  pub parse_uint-pad_decimal :
      (width n : ℕ) → n < limit → limit ≤ 10 ^ 20 → parse_uint limit (pad_decimal width n) ≡ some n
  unfolding pad_decimal decimal
  parse_uint-pad_decimal width n small few =
      parse_uint-digits_from (pad_decimal width n) n (pad_decimal_pos width n) (
        digits_from-replicate (width - length (decimal n)) (decimal n) (omega arith)
        ∙ digits_from-digits_fuel 20 n small (omega arith))

pub parse_uint-decimal :
    (limit n : ℕ) → n < limit → limit ≤ 10 ^ 20 → parse_uint limit (decimal n) ≡ some n
unfolding decimal
parse_uint-decimal limit n small few =
    parse_uint-digits_from limit (digits_fuel 20 n) n (digits_fuel_pos 20 n (omega arith))
      (digits_from-digits_fuel limit 20 n small (omega arith))

pub decimal_pos : (n : ℕ) → 0 < length (decimal n)
unfolding decimal
decimal_pos n = digits_fuel_pos 20 n (omega arith)

abbrev pub IsDigit : ℕ → Type 0
IsDigit c = (b'0' ≤ c) × (c ≤ b'9')

digits_fuel-IsDigit : (fuel n : ℕ) → All IsDigit (digits_fuel fuel n)
unfolding digits_fuel
digits_fuel-IsDigit zero n = tt
digits_fuel-IsDigit (suc fuel) n = elim (Bool-cases (ltb n 10)) [
  | inl one ↦ rw one ((omega arith, omega (arith, ltb→lt n 10 one)), tt)
  | inr more ↦ rw more (
      All-append IsDigit (digits_fuel fuel (n / 10)) ((n % 10 + b'0') ∷ [])
        (digits_fuel-IsDigit fuel (n / 10)) ((omega arith, omega arith), tt))
]

pub decimal-IsDigit : (n : ℕ) → All IsDigit (decimal n)
unfolding decimal
decimal-IsDigit n = digits_fuel-IsDigit 20 n
