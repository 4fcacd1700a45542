-- ===== src/Client/Adapter/Base64.antt =====
-- crates/client-backend/src/adapter.rs: `decode_base64`, and that it reads what the usual encoding of
-- bytes writes.
use Prim.Native.Nat.{bit_or}
use gpustat4cluster.Base.{
  ℕ, zero, suc, ◌+◌, ◌-◌, ◌*◌, ◌/◌, ◌%◌, ◌<◌, ◌≡◌, refl, sym, ap, ap₂, ◌∙◌, ltb, leb, not, ◌==◌,
  ==_iff, if◌then◌else◌, Bool, true, false, ◌&&◌, ◌||◌, Option, none, some, [], ◌∷◌, ◌++◌, All,
  append_assoc, append-nil, arith,
}
use gpustat4cluster.Base.Bytes.{Bytes, IsByte}
use gpustat4cluster.Base.Text.{Text}

-- `u8::is_ascii_whitespace`
abbrev is_ascii_whitespace : ℕ → Bool
is_ascii_whitespace b =
    (b == 0x20) || ((b == 0x09) || ((b == 0x0a) || ((b == 0x0c) || (b == 0x0d))))

-- The value of a character, 64 for the padding.
unfoldable pub base64_value : ℕ → Option ℕ
base64_value byte =
    if leb b'A' byte && leb byte b'Z'
    then some (byte - b'A')
    else if leb b'a' byte && leb byte b'z'
    then some (byte - b'a' + 26)
    else if leb b'0' byte && leb byte b'9'
    then some (byte - b'0' + 52)
    else if byte == b'+'
    then some 62
    else if byte == b'/'
    then some 63
    else if byte == b'='
    then some 64
    else none

-- `out` with the bytes of a chunk of four values; `u8` shifts drop what leaves the byte.
unfoldable pub push_base64_chunk : Bytes → ℕ → ℕ → ℕ → ℕ → Option Bytes
push_base64_chunk out c0 c1 c2 c3 =
    let first : Bytes = bit_or (c0 * 4 % 256) (c1 / 16) ∷ [] in
    let second : Bytes = if c2 == 64 then [] else bit_or (c1 * 16 % 256) (c2 / 4) ∷ [] in
    let third : Bytes = if c3 == 64 then [] else bit_or (c2 * 64 % 256) c3 ∷ [] in
    if (c0 == 64) || (c1 == 64)
    then none
    else if (c2 == 64) && not (c3 == 64)
    then none
    else some (out ++ (first ++ (second ++ third)))

-- The values of the chunk so far, at most three.
pub data Chunk : Type 0 where
  empty : Chunk
  one : ℕ → Chunk
  two : ℕ → ℕ → Chunk
  three : ℕ → ℕ → ℕ → Chunk

unfoldable pub decode_loop : Chunk → Bytes → Text → Option Bytes
decode_loop empty out [] = some out
decode_loop chunk out [] = none
decode_loop chunk out (b ∷ t) =
    let skipped = decode_loop chunk out t in
    if is_ascii_whitespace b then skipped else elim (base64_value b) [
      | none ↦ none
      | some v ↦ elim chunk [
        | empty ↦ decode_loop (one v) out t
        | one c0 ↦ decode_loop (two c0 v) out t
        | two c0 c1 ↦ decode_loop (three c0 c1 v) out t
        | three c0 c1 c2 ↦ elim (push_base64_chunk out c0 c1 c2 v) [
          | none ↦ none
          | some out' ↦ decode_loop empty out' t
        ]
      ]
    ]

unfoldable pub decode_base64 : Text → Option Bytes
unfolding decode_loop
decode_base64 raw = decode_loop empty [] raw

-- The usual encoding.
abbrev symbol : ℕ → ℕ
symbol v =
    if ltb v 26
    then v + b'A'
    else if ltb v 52
    then v + 71
    else if ltb v 62
    then v - 4
    else if v == 62
    then b'+'
    else b'/'

pub encode_base64 : Bytes → Text
encode_base64 [] = []
encode_base64 (a ∷ []) = symbol (a / 4) ∷ symbol (a % 4 * 16) ∷ b'=' ∷ b'=' ∷ []
encode_base64 (a ∷ b ∷ []) =
    symbol (a / 4) ∷ symbol (a % 4 * 16 + b / 16) ∷ symbol (b % 16 * 4) ∷ b'=' ∷ []
encode_base64 (a ∷ b ∷ c ∷ t) =
    symbol (a / 4)
    ∷ symbol (a % 4 * 16 + b / 16)
    ∷ symbol (b % 16 * 4 + c / 64)
    ∷ symbol (c % 64)
    ∷ encode_base64 t

-- The test holds of the numbers that are less than the bound.
holds_below : (ℕ → Bool) → ℕ → Bool
holds_below test zero = true
holds_below test (suc last) = if test last then holds_below test last else false

holds_below_lem :
    (test : ℕ → Bool) (byte bound : ℕ)
    → byte < bound
    → holds_below test bound ≡ true
    → test byte ≡ true
unfolding holds_below
holds_below_lem test byte zero inside passed = absurd (omega arith)
holds_below_lem test byte (suc last) inside passed =
    let earlier : byte < last → holds_below test last ≡ true → test byte ≡ true =
      holds_below_lem test byte last in
    ground (arith, earlier)

-- The two parts of a byte share no bit, wherever it is divided.
divided :
    (k : ℕ)
    → (holds_below (λ n. bit_or (n / k * k) (n % k) == n) 256 ≡ true)
    → (n : ℕ) → n < 256
    → bit_or (n / k * k) (n % k) ≡ n
divided k table n h =
    (==_iff _ n).0 (holds_below_lem (λ n. bit_or (n / k * k) (n % k) == n) n 256 h table)

divided4 : (n : ℕ) → n < 256 → bit_or (n / 4 * 4) (n % 4) ≡ n
unfolding holds_below
divided4 = divided 4 refl

divided16 : (n : ℕ) → n < 256 → bit_or (n / 16 * 16) (n % 16) ≡ n
unfolding holds_below
divided16 = divided 16 refl

divided64 : (n : ℕ) → n < 256 → bit_or (n / 64 * 64) (n % 64) ≡ n
unfolding holds_below
divided64 = divided 64 refl

value_symbol :
    (v : ℕ) → v < 64 → (base64_value (symbol v) ≡ some v) × (is_ascii_whitespace (symbol v) ≡ false)
unfolding base64_value
value_symbol v h = ground arith

-- Four characters that stand for values are one chunk.
four :
    (out : Bytes) (t : Text) (p q r s w x y z : ℕ)
    → (base64_value p ≡ some w) × (is_ascii_whitespace p ≡ false)
    → (base64_value q ≡ some x) × (is_ascii_whitespace q ≡ false)
    → (base64_value r ≡ some y) × (is_ascii_whitespace r ≡ false)
    → (base64_value s ≡ some z) × (is_ascii_whitespace s ≡ false)
    → decode_loop empty out (p ∷ q ∷ r ∷ s ∷ t) ≡ (elim (push_base64_chunk out w x y z) [
      | none ↦ none
      | some out' ↦ decode_loop empty out' t
    ])
unfolding decode_loop
four out t p q r s w x y z hp hq hr hs =
    rw hp.1 (rw hp.0 (rw hq.1 (rw hq.0 (rw hr.1 (rw hr.0 (rw hs.1 (rw hs.0 refl)))))))

padding : (base64_value b'=' ≡ some 64) × (is_ascii_whitespace b'=' ≡ false)
unfolding base64_value
padding = (refl, refl)

-- The bytes of a chunk, put together again.
module _ (a b c : ℕ) (ha : a < 256) (hb : b < 256) (hc : c < 256) where
  first_byte : (y : ℕ) → y < 16 → bit_or (a / 4 * 4 % 256) ((a % 4 * 16 + y) / 16) ≡ a
  first_byte y h = ap₂ bit_or (omega arith) (omega arith) ∙ divided4 a ha

  second_byte :
      (y : ℕ) → y < 4 → bit_or ((a % 4 * 16 + b / 16) * 16 % 256) ((b % 16 * 4 + y) / 4) ≡ b
  second_byte y h = ap₂ bit_or (omega arith) (omega arith) ∙ divided16 b hb

  third_byte : bit_or ((b % 16 * 4 + c / 64) * 64 % 256) (c % 64) ≡ c
  third_byte = ap₂ bit_or (omega arith) refl ∙ divided64 c hc

  push_full :
      (out : Bytes)
      → push_base64_chunk out (a / 4) (a % 4 * 16 + b / 16) (b % 16 * 4 + c / 64) (c % 64)
        ≡ some (out ++ (a ∷ b ∷ c ∷ []))
  unfolding push_base64_chunk
  push_full out =
      ground
        (arith, first_byte (b / 16) (omega arith), second_byte (c / 64) (omega arith), third_byte)

module _ (a b : ℕ) (ha : a < 256) (hb : b < 256) (out : Bytes) where
  push_two :
      push_base64_chunk out (a / 4) (a % 4 * 16 + b / 16) (b % 16 * 4) 64
      ≡ some (out ++ (a ∷ b ∷ []))
  unfolding push_base64_chunk
  push_two = ground (
    arith,
    first_byte a b 0 ha hb (omega arith) (b / 16) (omega arith),
    ap (λ (y : ℕ). bit_or ((a % 4 * 16 + b / 16) * 16 % 256) (y / 4)) {x = b % 16 * 4}
          {y = b % 16 * 4 + 0} (omega arith)
        ∙ second_byte a b 0 ha hb (omega arith) 0 (omega arith),
  )

  push_one : push_base64_chunk out (a / 4) (a % 4 * 16) 64 64 ≡ some (out ++ (a ∷ []))
  unfolding push_base64_chunk
  push_one = ground (
    arith,
    ap (λ (x : ℕ). bit_or (a / 4 * 4 % 256) (x / 16)) {x = a % 4 * 16} {y = a % 4 * 16 + 0}
          (omega arith)
        ∙ first_byte a 0 0 ha (omega arith) (omega arith) 0 (omega arith),
  )

decode_loop-encode_base64 :
    (out bs : Bytes) → All IsByte bs → decode_loop empty out (encode_base64 bs) ≡ some (out ++ bs)
unfolding encode_base64
decode_loop-encode_base64 out [] h = unfold decode_loop in ap some (sym (append-nil out))
decode_loop-encode_base64 out (a ∷ []) h =
    four out [] (symbol (a / 4)) (symbol (a % 4 * 16)) b'=' b'=' (a / 4) (a % 4 * 16) 64 64
      (value_symbol (a / 4) (omega (arith, h.0))) (value_symbol (a % 4 * 16) (omega arith)) padding
      padding
    ∙ rw (push_one a 0 h.0 (omega arith) out) (unfold decode_loop in refl)
decode_loop-encode_base64 out (a ∷ b ∷ []) h =
    four out [] (symbol (a / 4)) (symbol (a % 4 * 16 + b / 16)) (symbol (b % 16 * 4)) b'=' (a / 4)
      (a % 4 * 16 + b / 16) (b % 16 * 4) 64 (value_symbol (a / 4) (omega (arith, h.0)))
      (value_symbol (a % 4 * 16 + b / 16) (omega (arith, h.1.0)))
      (value_symbol (b % 16 * 4) (omega arith)) padding
    ∙ rw (push_two a b h.0 h.1.0 out) (unfold decode_loop in refl)
decode_loop-encode_base64 out (a ∷ b ∷ c ∷ t) h =
    four out (encode_base64 t) (symbol (a / 4)) (symbol (a % 4 * 16 + b / 16))
      (symbol (b % 16 * 4 + c / 64)) (symbol (c % 64)) (a / 4) (a % 4 * 16 + b / 16)
      (b % 16 * 4 + c / 64) (c % 64) (value_symbol (a / 4) (omega (arith, h.0)))
      (value_symbol (a % 4 * 16 + b / 16) (omega (arith, h.1.0)))
      (value_symbol (b % 16 * 4 + c / 64) (omega (arith, h.1.1.0)))
      (value_symbol (c % 64) (omega arith))
    ∙ rw (push_full a b c h.0 h.1.0 h.1.1.0 out) (
        decode_loop-encode_base64 (out ++ (a ∷ b ∷ c ∷ [])) t h.1.1.1
        ∙ ap some (append_assoc out (a ∷ b ∷ c ∷ []) t))

-- Bytes in the standard Base64 form, padding included, are decoded to the bytes.
pub decode_base64-encode_base64 :
    (bs : Bytes) → All IsByte bs → decode_base64 (encode_base64 bs) ≡ some bs
unfolding decode_base64
decode_base64-encode_base64 bs h = decode_loop-encode_base64 [] bs h
