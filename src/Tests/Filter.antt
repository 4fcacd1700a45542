-- ===== src/Tests/Filter.antt =====
-- Patterns and what they match at concrete inputs.
use gpustat4cluster.Base.{
  ◌+◌, ◌-◌, ◌^◌, ◌≤◌, ◌≡◌, refl, max, true, false, some, [], ◌∷◌, ◌++◌, length, get_elem?, arith,
}
use gpustat4cluster.Base.Text.{Text, text}
use gpustat4cluster.Base.Scan.{contains_char, ends_with_char, split_char, strip_prefix, find_text}
use gpustat4cluster.Base.Scan.Digits.{parse_uint}
use gpustat4cluster.Client.Filter.{wildcard_match, match_parts, expand_numeric_range}
use gpustat4cluster.Client.Filter.Wildcard.{Fits, wildcard_match-Fits, wildcard_match_leftmost}
use gpustat4cluster.Client.Filter.Range.{expand_numeric_range_lem}

star_inside : contains_char b'*' (text "n*1") ≡ true
unfolding contains_char
star_inside = refl

matched : wildcard_match (text "n*1") (text "no1") ≡ true
unfolding wildcard_match match_parts contains_char split_char ends_with_char strip_prefix find_text
matched = refl

wildcard_match-Fits_example : Fits (split_char b'*' (text "n*1")) (text "no1")
wildcard_match-Fits_example = wildcard_match-Fits (text "n*1") (text "no1") star_inside matched

plain_a : contains_char b'*' (b'a' ∷ []) ≡ false
unfolding contains_char
plain_a = refl

wildcard_match_leftmost_example :
    Fits (split_char b'*' (text "*a")) (text "aa")
    × (wildcard_match (text "*a") (text "aa") ≡ false)
wildcard_match_leftmost_example = wildcard_match_leftmost b'a' [] plain_a

read_08 : parse_uint (2 ^ 32) (text "08") ≡ some 8
unfolding parse_uint
read_08 = refl

read_11 : parse_uint (2 ^ 32) (text "11") ≡ some 11
unfolding parse_uint
read_11 = refl

expand_numeric_range_lem_example :
    (digits : Text) × (length
        (expand_numeric_range (text "n[08-11]") (text "n") [] (text "08") (text "11"))
      ≡ 11 - 8 + 1)
    × (get_elem? (expand_numeric_range (text "n[08-11]") (text "n") [] (text "08") (text "11")) 2
        ≡ some (text "n" ++ (digits ++ [])))
    × (parse_uint (2 ^ 32) digits ≡ some (8 + 2))
    × (max (length (text "08")) (length (text "11")) ≤ length digits)
expand_numeric_range_lem_example =
    expand_numeric_range_lem (text "n[08-11]") (text "n") [] (text "08") (text "11") 8 11 2 read_08
      read_11 (omega arith) (omega arith) (omega arith)
