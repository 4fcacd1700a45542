-- ===== src/Client/Filter.antt =====
-- crates/client-backend/src/filter.rs: `NodeFilter`, the patterns by which nodes are selected.
pub mod Pieces
pub mod Wildcard
pub mod Range
use gpustat4cluster.Base.{
  ℕ, zero, suc, ◌+◌, ◌-◌, ◌^◌, max, ltb, ◌==◌, if◌then◌else◌, Bool, true, false, not, ◌&&◌, ◌||◌,
  Option, none, some, List, [], ◌∷◌, ◌++◌, map, length, filter, any,
}
use gpustat4cluster.Base.Chunks.{concat}
use gpustat4cluster.Base.Text.{Text}
use gpustat4cluster.Base.Scan.{
  is_empty, is_some, strip_prefix, find_text, split_once, contains_char, ends_with_char,
  starts_with_char, push_front, split_char, trim, is_member,
}
use gpustat4cluster.Base.Scan.Digits.{parse_uint, pad_decimal}

-- The addresses of `std::net`: a socket address is an IP address and a port, and both are read from
-- text and printed.
pub record Net : Type 1 where
  pub IpAddr : Type 0
  pub ip_eq : IpAddr → IpAddr → Bool
  pub parse_ip : Text → Option IpAddr
  pub parse_socket_addr : Text → Option (IpAddr × ℕ)
  pub ip_to_string : IpAddr → Text
  pub socket_addr_to_string : IpAddr × ℕ → Text

-- `split_filter_items`: the loop from the current character on, with the bracket depth. Its first
-- item is the one that the current character belongs to.
unfoldable pub split_items_from : ℕ → Text → List Text
split_items_from depth [] = [] ∷ []
split_items_from depth (c ∷ t) =
    let depth' = if c == b'[' then depth + 1 else if c == b']' then depth - 1 else depth in
    let items = split_items_from depth' t in
    if (c == b',') && (depth == 0) then [] ∷ items else push_front c items

unfoldable pub split_filter_items : Text → List Text
unfolding split_items_from
split_filter_items raw = split_items_from 0 raw

-- The numbers from `start` on, `count` of them, each as `format!` writes it.
unfoldable pub range_items : Text → Text → ℕ → ℕ → ℕ → List Text
range_items prefix suffix width start zero = []
range_items prefix suffix width start (suc count) =
    (prefix ++ (pad_decimal width start ++ suffix))
    ∷ range_items prefix suffix width (start + 1) count

unfoldable pub expand_numeric_range : Text → Text → Text → Text → Text → List Text
unfolding range_items
expand_numeric_range raw prefix suffix start end_ = elim (parse_uint (2 ^ 32) start) [
  | none ↦ raw ∷ []
  | some start_num ↦ elim (parse_uint (2 ^ 32) end_) [
    | none ↦ raw ∷ []
    | some end_num ↦
        if ltb end_num start_num
        then raw ∷ []
        else range_items prefix suffix (max (length start) (length end_)) start_num
            (end_num - start_num + 1)
  ]
]

unfoldable pub expand_list : Text → Text → Text → Text → List Text
expand_list raw prefix suffix expression =
    let items = filter (λ item. not (is_empty item)) (map trim (split_char b',' expression)) in
    elim items [
      | [] ↦ raw ∷ []
      | first ∷ others ↦ map (λ item. prefix ++ (item ++ suffix)) (first ∷ others)
    ]

unfoldable pub expand_bracket_expression : Text → List Text
unfolding expand_list
expand_bracket_expression raw = elim (split_once b'[' raw) [
  | none ↦ raw ∷ []
  | some (prefix, behind) ↦ elim (split_once b']' behind) [
    | none ↦ raw ∷ []
    | some (expression, suffix) ↦ elim (split_once b'-' expression) [
      | some (start, end_) ↦ expand_numeric_range raw prefix suffix start end_
      | none ↦ expand_list raw prefix suffix expression
    ]
  ]
]

-- `filter(|pattern| seen.insert(pattern.clone()))`
unfoldable pub insert_new : List Text → List Text → List Text
insert_new seen [] = []
insert_new seen (p ∷ ps) =
    let fresh = insert_new (p ∷ seen) ps in
    let again = insert_new seen ps in elim (is_member p seen) [ true ↦ again | false ↦ p ∷ fresh ]

unfoldable pub parse_items : Text → List Text
unfolding insert_new
parse_items raw = insert_new [] (
    concat (
      map expand_bracket_expression
        (filter (λ item. not (is_empty item)) (map trim (split_filter_items raw)))))

-- `NodeFilter::parse`, the patterns of the filter.
unfoldable pub node_filter : Option Text → List Text
unfolding parse_items
node_filter none = []
node_filter (some raw) = parse_items raw

module _ (net : Net) where
  unfoldable pub exact_addr_match : Text → net.IpAddr × ℕ → Bool
  exact_addr_match pattern_ (ip, port) = elim (net.parse_socket_addr pattern_) [
    | some (pattern_ip, pattern_port) ↦ net.ip_eq pattern_ip ip && (pattern_port == port)
    | none ↦ elim (net.parse_ip pattern_) [
      | some pattern_ip ↦ net.ip_eq pattern_ip ip
      | none ↦ false
    ]
  ]

  unfoldable pub is_exact_addr_pattern : Text → Bool
  is_exact_addr_pattern pattern_ =
      not (contains_char b'*' pattern_)
      && (is_some (net.parse_socket_addr pattern_) || is_some (net.parse_ip pattern_))

-- The loop of `wildcard_match`: `first`, whether the pattern starts with a star, the parts that are
-- left and the rest of the text. `none`: the loop returns `false`.
unfoldable pub match_parts : Bool → Bool → List Text → Text → Option Text
match_parts first starred [] rest = some rest
match_parts first starred (part ∷ parts) rest = elim (is_empty part) [
  | true ↦ match_parts false starred parts rest
  | false ↦ elim (first && not starred) [
    | true ↦ elim (strip_prefix part rest) [
      | none ↦ none
      | some next ↦ match_parts false starred parts next
    ]
    | false ↦ elim (find_text part rest) [
      | none ↦ none
      | some (before, next) ↦ match_parts false starred parts next
    ]
  ]
]

unfoldable pub wildcard_match : Text → Text → Bool
unfolding match_parts
wildcard_match pattern_ t =
    if not (contains_char b'*' pattern_)
    then is_some (find_text pattern_ t)
    else elim (match_parts true (starts_with_char b'*' pattern_) (split_char b'*' pattern_) t) [
      | none ↦ false
      | some rest ↦ ends_with_char b'*' pattern_ || is_empty rest
    ]

module _ (net : Net) where
  -- The closure of `matches_target` for one pattern.
  unfoldable pub pattern_matches : Text → net.IpAddr × ℕ → Text → Text → Bool
  pattern_matches hostname addr connection_id pattern_ =
      if is_exact_addr_pattern net pattern_
      then exact_addr_match net pattern_ addr
      else (exact_addr_match net pattern_ addr
          || (wildcard_match pattern_ hostname
              || (wildcard_match pattern_ (net.ip_to_string addr.0)
                  || (wildcard_match pattern_ (net.socket_addr_to_string addr)
                      || wildcard_match pattern_ connection_id))))

  unfoldable pub matches_target : List Text → Text → net.IpAddr × ℕ → Text → Bool
  unfolding pattern_matches
  matches_target patterns hostname addr connection_id = elim patterns [
    | [] ↦ true
    | first ∷ others ↦ any (λ p. pattern_matches hostname addr connection_id p) (first ∷ others)
  ]
