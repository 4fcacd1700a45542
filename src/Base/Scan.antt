-- ===== src/Base/Scan.antt =====
-- What the crates use of Rust's `str`: searching, splitting, trimming, and numbers in decimal. The
-- characters searched for are ASCII, so a search among characters is one among bytes.
pub mod Find
pub mod Digits
pub mod Trim
use mathlib.Core.List.{reverse}
use gpustat4cluster.Base.Bytes.{bytes_eq}
use gpustat4cluster.Base.Text.{Text}
use gpustat4cluster.Base.Lists.{filter}
use gpustat4cluster.Base.Tests.{◌==◌, ltb, leb, if◌then◌else◌}
use Prim.Native.Nat.{ℕ, zero, suc, ◌+◌, ◌-◌, ◌*◌, ◌/◌, ◌%◌, ◌<◌}
use mathlib.Core.Bool.{Bool, true, false, not, ◌&&◌, ◌||◌}
use mathlib.Core.Option.{Option, none, some}
use mathlib.Core.List.{List, [], ◌∷◌, ◌++◌}

-- `str::is_empty`
abbrev pub is_empty : Text → Bool
is_empty [] = true
is_empty (c ∷ t) = false

-- `str::strip_prefix`
unfoldable pub strip_prefix : Text → Text → Option Text
strip_prefix [] t = some t
strip_prefix (c ∷ p) [] = none
strip_prefix (c ∷ p) (d ∷ t) = if c == d then strip_prefix p t else none

abbrev pub is_some {ℓ} : {A : Type ℓ} → Option A → Bool
is_some none = false
is_some (some a) = true

-- `str::find` of a text: what stands before the leftmost place, and what stands behind it.
unfoldable pub find_text : Text → Text → Option (Text × Text)
find_text needle [] = elim (strip_prefix needle []) [ none ↦ none | some rest ↦ some ([], rest) ]
find_text needle (c ∷ t) = elim (strip_prefix needle (c ∷ t)) [
  | some rest ↦ some ([], rest)
  | none ↦ elim (find_text needle t) [
    | none ↦ none
    | some (before, after) ↦ some (c ∷ before, after)
  ]
]

-- `str::split_once`, or `find` of a character: what stands before it and behind it.
unfoldable pub split_once : ℕ → Text → Option (Text × Text)
split_once sep [] = none
split_once sep (c ∷ t) =
    let later : Option (Text × Text) = elim (split_once sep t) [
      | none ↦ none
      | some (before, after) ↦ some (c ∷ before, after)
    ] in
    if c == sep then some ([], t) else later

-- `str::contains` of a character
unfoldable pub contains_char : ℕ → Text → Bool
contains_char ch [] = false
contains_char ch (c ∷ t) = (c == ch) || contains_char ch t

-- `str::ends_with` of a character
unfoldable pub ends_with_char : ℕ → Text → Bool
ends_with_char ch [] = false
ends_with_char ch (c ∷ []) = c == ch
ends_with_char ch (c ∷ d ∷ t) = ends_with_char ch (d ∷ t)

-- `str::starts_with` of a character
abbrev pub starts_with_char : ℕ → Text → Bool
starts_with_char ch [] = false
starts_with_char ch (c ∷ t) = c == ch

abbrev pub push_front : ℕ → List Text → List Text
push_front c [] = (c ∷ []) ∷ []
push_front c (piece ∷ pieces) = (c ∷ piece) ∷ pieces

-- `str::split` at a character
unfoldable pub split_char : ℕ → Text → List Text
split_char sep [] = [] ∷ []
split_char sep (c ∷ t) =
    let pieces = split_char sep t in if c == sep then [] ∷ pieces else push_front c pieces

abbrev in_range : ℕ → ℕ → ℕ → Bool
in_range lo hi c = leb lo c && leb c hi

abbrev is_space : ℕ → Bool
is_space c = (c == 0x20) || in_range 0x09 0x0d c

-- The `char::is_whitespace` characters that take two and three bytes.
abbrev is_space2 : ℕ → ℕ → Bool
is_space2 a b = (a == 0xc2) && ((b == 0x85) || (b == 0xa0))

abbrev is_space3 : ℕ → ℕ → ℕ → Bool
is_space3 a b c =
    ((a == 0xe1) && ((b == 0x9a) && (c == 0x80)))
    || ((a == 0xe2)
        && (((b == 0x80) && (in_range 0x80 0x8a c || ((c == 0xa8) || ((c == 0xa9) || (c == 0xaf)))))
            || ((b == 0x81) && (c == 0x9f))))
    || ((a == 0xe3) && ((b == 0x80) && (c == 0x80)))

abbrev width : Bool → Bool → Bool → ℕ
width one two three = if one then 1 else if two then 2 else if three then 3 else 0

-- How many bytes the whitespace character takes with which a text begins, or, for the bytes in
-- reverse order, with which it ends. None: 0.
unfoldable pub leading_space : Text → ℕ
leading_space [] = 0
leading_space (a ∷ []) = width (is_space a) false false
leading_space (a ∷ b ∷ []) = width (is_space a) (is_space2 a b) false
leading_space (a ∷ b ∷ c ∷ t) = width (is_space a) (is_space2 a b) (is_space3 a b c)

unfoldable pub trailing_space : Text → ℕ
trailing_space [] = 0
trailing_space (a ∷ []) = width (is_space a) false false
trailing_space (b ∷ a ∷ []) = width (is_space b) (is_space2 a b) false
trailing_space (c ∷ b ∷ a ∷ t) = width (is_space c) (is_space2 b c) (is_space3 a b c)

-- The number counts the bytes that are left of a whitespace character.
unfoldable pub skip_space : (Text → ℕ) → ℕ → Text → Text
skip_space measure left [] = []
skip_space measure (suc left) (c ∷ t) = skip_space measure left t
skip_space measure zero (c ∷ t) =
    let taken = measure (c ∷ t) in
    let rest = skip_space measure (taken - 1) t in if taken == 0 then c ∷ t else rest

unfoldable pub trim_start : Text → Text
unfolding skip_space leading_space
trim_start t = skip_space leading_space 0 t

unfoldable pub trim_end : Text → Text
unfolding skip_space trailing_space
trim_end t = reverse (skip_space trailing_space 0 (reverse t))

-- `str::trim`
unfoldable pub trim : Text → Text
unfolding trim_start trim_end
trim t = trim_end (trim_start t)

abbrev lower : ℕ → ℕ
lower c = if in_range b'A' b'Z' c then c + 32 else c

-- `str::to_ascii_lowercase`
unfoldable pub to_ascii_lowercase : Text → Text
to_ascii_lowercase [] = []
to_ascii_lowercase (c ∷ t) = lower c ∷ to_ascii_lowercase t

-- `char::is_ascii_digit`, `char::is_ascii_alphanumeric`
abbrev pub is_digit : ℕ → Bool
is_digit c = in_range b'0' b'9' c

abbrev pub is_alphanumeric : ℕ → Bool
is_alphanumeric c = is_digit c || (in_range b'a' b'z' c || in_range b'A' b'Z' c)

-- `HashSet::contains`, of a set of texts
abbrev pub is_member : Text → List Text → Bool
is_member t [] = false
is_member t (x ∷ xs) = bytes_eq x t || is_member t xs

-- `str::lines`: a line feed ends a line, and takes a carriage return before it along.
unfoldable pub strip_return : Text → Text
strip_return [] = []
strip_return (c ∷ []) = if c == 13 then [] else c ∷ []
strip_return (c ∷ d ∷ t) = c ∷ strip_return (d ∷ t)

unfoldable pub ended_lines : List Text → List Text
ended_lines [] = []
ended_lines (p ∷ []) = if is_empty p then [] else p ∷ []
ended_lines (p ∷ q ∷ ps) = strip_return p ∷ ended_lines (q ∷ ps)

unfoldable pub lines : Text → List Text
unfolding ended_lines strip_return
lines t = ended_lines (split_char 10 t)

-- `str::split_whitespace`; the number counts the bytes that are left of a whitespace character.
unfoldable pub split_spaces : ℕ → Text → List Text
split_spaces left [] = [] ∷ []
split_spaces (suc left) (c ∷ t) = split_spaces left t
split_spaces zero (c ∷ t) =
    let taken = leading_space (c ∷ t) in
    let word = split_spaces 0 t in
    let next = split_spaces (taken - 1) t in if taken == 0 then push_front c word else [] ∷ next

unfoldable pub split_whitespace : Text → List Text
unfolding split_spaces
split_whitespace t = filter (λ word. not (is_empty word)) (split_spaces 0 t)
