-- ===== src/Base/Scan/Find.antt =====
-- Where a text is found in another, and its pieces between separators.
use gpustat4cluster.Base.{
  ℕ, ◌≤◌, ◌≡◌, refl, sym, ap, ◌∙◌, true, false, none, some, List, [], ◌∷◌, ◌++◌, ◌==◌, length,
  arith, append_assoc, length-append, Option-cases, inl, inr, ==_refl, Bool-cases,
}
use gpustat4cluster.Base.Text.{Text}
use gpustat4cluster.Base.Scan.{
  strip_prefix, find_text, split_char, push_front, contains_char, ends_with_char, is_member,
}

pub strip_prefix-append : (p r : Text) → strip_prefix p (p ++ r) ≡ some r
unfolding strip_prefix
strip_prefix-append [] r = refl
strip_prefix-append (c ∷ p) r = rw (==_refl c) (strip_prefix-append p r)

pub strip_prefix-eq : (p t r : Text) → strip_prefix p t ≡ some r → t ≡ p ++ r
unfolding strip_prefix
strip_prefix-eq [] t r h = cc
strip_prefix-eq (c ∷ p) [] r h = cc
strip_prefix-eq (c ∷ p) (d ∷ t) r h = ground (arith, strip_prefix-eq p t r)

-- The text is what stands before the place, the needle and what stands behind it.
pub find_text-eq : (n t b a : Text) → find_text n t ≡ some (b, a) → t ≡ b ++ (n ++ a)
unfolding find_text
find_text-eq n [] b a h = elim (Option-cases (strip_prefix n [])) [
  | inl e ↦ ground arith
  | inr (r, e) ↦ ground (arith, strip_prefix-eq n [] r e)
]
find_text-eq n (c ∷ t) b a h = elim (Option-cases (strip_prefix n (c ∷ t))) [
  | inr (r, e) ↦ ground (arith, strip_prefix-eq n (c ∷ t) r e)
  | inl e ↦ elim (Option-cases (find_text n t)) [
    | inl f ↦ ground arith
    | inr (p, f) ↦ ground (arith, find_text-eq n t p.0 p.1)
  ]
]

pub find_text_here : (n t r : Text) → strip_prefix n t ≡ some r → find_text n t ≡ some ([], r)
unfolding find_text
find_text_here n [] r h = ground arith
find_text_here n (c ∷ t) r h = ground arith

-- Of two ends of one text the shorter is an end of the longer.
shorter_end : (a b c d : Text) → a ++ b ≡ c ++ d → length d ≤ length b → (x : Text) × (b ≡ x ++ d)
shorter_end [] b c d e h = (c, e)
shorter_end (x ∷ a) b [] d e h = absurd (omega (arith, ap length e, length-append a b))
shorter_end (x ∷ a) b (y ∷ c) d e h = shorter_end a b c d (cc) h

find_text_later :
    (n t b a : Text) (c : ℕ)
    → strip_prefix n (c ∷ t) ≡ none
    → find_text n t ≡ some (b, a)
    → find_text n (c ∷ t) ≡ some (c ∷ b, a)
unfolding find_text
find_text_later n t b a c e h = ground arith

behind : (n g w r : Text) (c : ℕ) → c ∷ (g ++ (n ++ w)) ≡ n ++ r → (x : Text) × (r ≡ x ++ w)
behind n g w r c whole =
    shorter_end n r ((c ∷ g) ++ n) w
      (sym whole ∙ ap (λ (t : Text). c ∷ t) (sym (append_assoc g n w)))
      (omega
        (arith, ap length whole, length-append n r, length-append g (n ++ w), length-append n w))

-- A text in which the needle stands somewhere has a leftmost place, and what stands behind it ends
-- with what stands behind the place given.
pub find_text_found :
    (n g w : Text) → (b : Text) × (x : Text) × (find_text n (g ++ (n ++ w)) ≡ some (b, x ++ w))
find_text_found n [] w = ([], [], find_text_here n (n ++ w) w (strip_prefix-append n w))
find_text_found n (c ∷ g) w = elim (Option-cases (strip_prefix n (c ∷ (g ++ (n ++ w))))) [
  | inr (r, e) ↦
      let whole = strip_prefix-eq n (c ∷ (g ++ (n ++ w))) r e in
      let (x, same) = behind n g w r c whole in
      ([], x, find_text_here n (c ∷ (g ++ (n ++ w))) r e ∙ ap (λ (a : Text). some ([], a)) same)
  | inl e ↦
      let (b, x, found) = find_text_found n g w in
      (c ∷ b, x, find_text_later n (g ++ (n ++ w)) b (x ++ w) c e found)
]

-- The pieces of a split: the first, and the others.
pub split_char_pieces :
    (sep : ℕ) (t : Text) → (p : Text) × (ps : List Text) × (split_char sep t ≡ p ∷ ps)
unfolding split_char
split_char_pieces sep [] = ([], [], refl)
split_char_pieces sep (c ∷ t) =
    let (p, ps, e) = split_char_pieces sep t in
    elim (Bool-cases (c == sep)) [
      | inl same ↦ ([], p ∷ ps, ground arith)
      | inr other ↦ (c ∷ p, ps, ground arith)
    ]

pub split_char_none : (sep : ℕ) (t : Text) → contains_char sep t ≡ false → split_char sep t ≡ t ∷ []
unfolding split_char contains_char
split_char_none sep [] h = refl
split_char_none sep (c ∷ t) h = ground (arith, split_char_none sep t)

-- The last of the pieces, if there is one, is empty.
abbrev pub IsLastEmpty : List Text → Type 0
IsLastEmpty [] = ⊥
IsLastEmpty (p ∷ []) = p ≡ []
IsLastEmpty (p ∷ q ∷ ps) = IsLastEmpty (q ∷ ps)

abbrev pub IsTailEmpty : List Text → Type 0
IsTailEmpty [] = ⊥
IsTailEmpty (p ∷ ps) = IsLastEmpty ps

IsTailEmpty-cons : (p : Text) (ps : List Text) → IsTailEmpty ps → IsTailEmpty (p ∷ ps)
IsTailEmpty-cons p [] h = absurd h
IsTailEmpty-cons p (q ∷ []) h = absurd h
IsTailEmpty-cons p (q ∷ r ∷ ps) h = h

IsTailEmpty-push_front : (c : ℕ) (ps : List Text) → IsTailEmpty ps → IsTailEmpty (push_front c ps)
IsTailEmpty-push_front c [] h = absurd h
IsTailEmpty-push_front c (p ∷ ps) h = h

-- A text that ends with the separator has an empty last piece behind its first.
pub split_char-IsTailEmpty :
    (sep : ℕ) (t : Text) → ends_with_char sep t ≡ true → IsTailEmpty (split_char sep t)
unfolding split_char ends_with_char
split_char-IsTailEmpty sep [] h = absurd (cc)
split_char-IsTailEmpty sep (c ∷ []) h = rw h refl
split_char-IsTailEmpty sep (c ∷ d ∷ t) h = elim (Bool-cases (c == sep)) [
  | inl same ↦
      rw same (IsTailEmpty-cons [] (split_char sep (d ∷ t)) (split_char-IsTailEmpty sep (d ∷ t) h))
  | inr other ↦
      rw other
        (IsTailEmpty-push_front c (split_char sep (d ∷ t)) (split_char-IsTailEmpty sep (d ∷ t) h))
]

-- The pieces in a row, with the separator between them: `join`.
abbrev pub intercalate : ℕ → List Text → Text
intercalate sep [] = []
intercalate sep (p ∷ []) = p
intercalate sep (p ∷ q ∷ ps) = p ++ (sep ∷ intercalate sep (q ∷ ps))

pub intercalate-push_front :
    (sep c : ℕ) (p : Text) (ps : List Text)
    → intercalate sep (push_front c (p ∷ ps)) ≡ c ∷ intercalate sep (p ∷ ps)
intercalate-push_front sep c p [] = refl
intercalate-push_front sep c p (q ∷ ps) = refl

pub ends_with_char-contains_char :
    (ch : ℕ) (t : Text) → contains_char ch t ≡ false → ends_with_char ch t ≡ false
unfolding contains_char ends_with_char
ends_with_char-contains_char ch [] h = refl
ends_with_char-contains_char ch (c ∷ []) h = ground arith
ends_with_char-contains_char ch (c ∷ d ∷ t) h =
    ends_with_char-contains_char ch (d ∷ t) (unfold contains_char in ground arith)

-- No text stands twice in the list.
abbrev pub IsDistinct : List Text → Type 0
IsDistinct [] = Unit
IsDistinct (p ∷ ps) = (is_member p ps ≡ false) × IsDistinct ps
