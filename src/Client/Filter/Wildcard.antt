-- ===== src/Client/Filter/Wildcard.antt =====
-- The texts that a pattern with stars stands for, and what `wildcard_match` makes of them.
use gpustat4cluster.Base.{
  ℕ, ◌≡◌, refl, sym, ap, subst, ◌∙◌, Bool, true, false, ◌||◌, some, List, [], ◌∷◌, ◌++◌, ◌==◌,
  arith, append_assoc, append-nil, Option-cases, Bool-cases, inl, inr, ◌⊎◌,
}
use gpustat4cluster.Base.Text.{Text}
use gpustat4cluster.Base.Scan.{
  is_empty, strip_prefix, find_text, contains_char, ends_with_char, starts_with_char, split_char,
}
use gpustat4cluster.Base.Scan.Find.{
  strip_prefix-append, strip_prefix-eq, find_text-eq, find_text_here, find_text_found,
  split_char_pieces, split_char_none, IsLastEmpty, IsTailEmpty, split_char-IsTailEmpty,
  ends_with_char-contains_char,
}
use gpustat4cluster.Client.Filter.{match_parts, wildcard_match}

-- A text is made of the pieces in a row, with any text between two of them: what a pattern means,
-- of which the pieces are what stands between its stars.
abbrev pub Fits : List Text → Text → Type 0
Fits [] t = ⊥
Fits (p ∷ []) t = t ≡ p
Fits (p ∷ q ∷ ps) t = (gap : Text) × (rest : Text) × (t ≡ p ++ (gap ++ rest)) × Fits (q ∷ ps) rest

-- The pieces stand in the text in their order, and `r` behind the last.
abbrev Floats : List Text → Text → Text → Type 0
Floats [] t r = t ≡ r
Floats (p ∷ ps) t r = (gap : Text) × (rest : Text) × (t ≡ gap ++ (p ++ rest)) × Floats ps rest r

match_parts-Floats :
    (starred : Bool) (parts : List Text) (t r : Text)
    → match_parts false starred parts t ≡ some r
    → Floats parts t r
unfolding match_parts
match_parts-Floats starred [] t r h = cc
match_parts-Floats starred ([] ∷ parts) t r h =
    ([], t, refl, match_parts-Floats starred parts t r h)
match_parts-Floats starred ((c ∷ p) ∷ parts) t r h = elim (Option-cases (find_text (c ∷ p) t)) [
  | inl e ↦ absurd (ground arith)
  | inr ((before, next), e) ↦ (
    before,
    next,
    find_text-eq (c ∷ p) t before next e,
    match_parts-Floats starred parts next r (ground arith),
  )
]

Floats-Fits :
    (q : Text) (ps : List Text) (t r : Text)
    → Floats (q ∷ ps) t r
    → (r ≡ []) ⊎ IsLastEmpty (q ∷ ps)
    → (gap : Text) × (rest : Text) × (t ≡ gap ++ rest) × Fits (q ∷ ps) rest
Floats-Fits q [] t r (gap, rest, e, same) (inl done) = (
  gap,
  q,
  e ∙ ap (λ (u : Text). gap ++ (q ++ u)) (same ∙ done) ∙ ap (λ (u : Text). gap ++ u) (append-nil q),
  refl,
)
Floats-Fits q [] t r (gap, rest, e, same) (inr last) = (t, [], sym (append-nil t), sym last)
Floats-Fits q (q2 ∷ ps) t r (gap, rest, e, later) h =
    let (gap2, rest2, e2, fits) = Floats-Fits q2 ps rest r later h in
    (gap, q ++ rest, e, (gap2, rest2, ap (λ (u : Text). q ++ u) e2, fits))

split_char_head :
    (d : ℕ) (pattern_ : Text) (c : ℕ) (p : Text) (ps : List Text)
    → split_char b'*' (d ∷ pattern_) ≡ (c ∷ p) ∷ ps
    → (d == b'*') ≡ false
unfolding split_char
split_char_head d pattern_ c p ps e = elim (Bool-cases (d == b'*')) [
  | inr other ↦ other
  | inl same ↦ absurd (ground arith)
]

-- The whole loop, the first part of a pattern that begins with no star being a prefix.
match_parts_first :
    (pattern_ t r p : Text) (ps : List Text)
    → split_char b'*' pattern_ ≡ p ∷ ps
    → match_parts true (starts_with_char b'*' pattern_) (p ∷ ps) t ≡ some r
    → (rest : Text) × (t ≡ p ++ rest) × Floats ps rest r
unfolding match_parts
match_parts_first pattern_ t r [] ps e h =
    (t, refl, match_parts-Floats (starts_with_char b'*' pattern_) ps t r h)
match_parts_first [] t r (c ∷ p) ps e h = absurd (unfold split_char in cc e)
match_parts_first (d ∷ pattern_) t r (c ∷ p) ps e h =
    let plain : (d == b'*') ≡ false = split_char_head d pattern_ c p ps e in
    elim (Option-cases (strip_prefix (c ∷ p) t)) [
      | inl none_ ↦ absurd (ground arith)
      | inr (next, found) ↦ (
        next,
        strip_prefix-eq (c ∷ p) t next found,
        match_parts-Floats (d == b'*') ps next r (ground arith),
      )
    ]

Floats-Fits_whole :
    (p : Text) (ps : List Text) (t rest r : Text)
    → t ≡ p ++ rest
    → Floats ps rest r
    → (r ≡ []) ⊎ IsLastEmpty ps
    → Fits (p ∷ ps) t
Floats-Fits_whole p [] t rest r e same (inl done) =
    e ∙ ap (λ (u : Text). p ++ u) (same ∙ done) ∙ append-nil p
Floats-Fits_whole p [] t rest r e same (inr last) = absurd last
Floats-Fits_whole p (q ∷ ps) t rest r e floats h =
    let (gap, rest2, e2, fits) = Floats-Fits q ps rest r floats h in
    (gap, rest2, e ∙ ap (λ (u : Text). p ++ u) e2, fits)

-- What the test after the loop says of the rest of the text.
accepted :
    (pattern_ r p : Text) (ps : List Text)
    → split_char b'*' pattern_ ≡ p ∷ ps
    → (ends_with_char b'*' pattern_ || is_empty r) ≡ true
    → (r ≡ []) ⊎ IsLastEmpty ps
accepted pattern_ [] p ps e h = inl refl
accepted pattern_ (c ∷ r) p ps e h =
    inr (subst IsTailEmpty e (split_char-IsTailEmpty b'*' pattern_ (ground arith)))

-- A text that a pattern with a star matches is made of the pattern's pieces between the stars, in
-- their order, with any text between two of them, the first piece at the start and the last at the
-- end.
pub wildcard_match-Fits :
    (pattern_ t : Text)
    → contains_char b'*' pattern_ ≡ true
    → wildcard_match pattern_ t ≡ true
    → Fits (split_char b'*' pattern_) t
unfolding wildcard_match
wildcard_match-Fits pattern_ t star h =
    let (p, ps, e) = split_char_pieces b'*' pattern_ in
    elim (Option-cases (match_parts true (starts_with_char b'*' pattern_) (p ∷ ps) t)) [
      | inl none_ ↦ absurd (ground arith)
      | inr (r, m) ↦
          let (rest, whole, floats) = match_parts_first pattern_ t r p ps e m in
          rw e (
            Floats-Fits_whole p ps t rest r whole floats
              (accepted pattern_ r p ps e (ground arith)))
    ]

match_parts_complete :
    (starred : Bool) (q : Text) (ps : List Text) (x rest : Text)
    → Fits (q ∷ ps) rest
    → (r : Text) × (match_parts false starred (q ∷ ps) (x ++ rest) ≡ some r)
unfolding match_parts
match_parts_complete starred [] [] x rest fits = (x ++ rest, refl)
match_parts_complete starred [] (q2 ∷ ps) x rest (gap, rest2, e, fits) =
    let (r, done) = match_parts_complete starred q2 ps (x ++ gap) rest2 fits in
    (r, rw e (rw (← append_assoc x gap rest2) done))
match_parts_complete starred (c ∷ q) [] x rest fits =
    let (b, y, found) = find_text_found (c ∷ q) x [] in
    (y ++ [], rw fits (ground (arith, append-nil (c ∷ q))))
match_parts_complete starred (c ∷ q) (q2 ∷ ps) x rest (gap, rest2, e, fits) =
    let (b, y, found) = find_text_found (c ∷ q) x (gap ++ rest2) in
    let (r, done) = match_parts_complete starred q2 ps (y ++ gap) rest2 fits in
    (r, rw e (ground (arith, append_assoc y gap rest2)))

complete_first :
    (pattern_ t p : Text) (ps : List Text)
    → split_char b'*' pattern_ ≡ p ∷ ps
    → Fits (p ∷ ps) t
    → (r : Text) × (match_parts true (starts_with_char b'*' pattern_) (p ∷ ps) t ≡ some r)
unfolding match_parts
complete_first pattern_ t [] [] e fits = (t, refl)
complete_first pattern_ t [] (q ∷ ps) e (gap, rest, whole, fits) =
    let (r, done) = match_parts_complete (starts_with_char b'*' pattern_) q ps gap rest fits in
    (r, rw whole done)
complete_first [] t (c ∷ p) ps e fits = absurd (unfold split_char in cc e)
complete_first (d ∷ pattern_) t (c ∷ p) [] e fits =
    let plain = split_char_head d pattern_ c p [] e in
    let found = strip_prefix-append (c ∷ p) [] in
    ([], rw fits (rw plain (ground (arith, append-nil (c ∷ p)))))
complete_first (d ∷ pattern_) t (c ∷ p) (q ∷ ps) e (gap, rest, whole, fits) =
    let plain = split_char_head d pattern_ c p (q ∷ ps) e in
    let (r, done) = match_parts_complete (d == b'*') q ps gap rest fits in
    let found = strip_prefix-append (c ∷ p) (gap ++ rest) in (r, rw whole (ground arith))

-- A pattern that ends with a star matches every text that it means.
pub Fits-wildcard_match :
    (pattern_ t : Text)
    → ends_with_char b'*' pattern_ ≡ true
    → contains_char b'*' pattern_ ≡ true
    → Fits (split_char b'*' pattern_) t
    → wildcard_match pattern_ t ≡ true
unfolding wildcard_match
Fits-wildcard_match pattern_ t last star fits =
    let (p, ps, e) = split_char_pieces b'*' pattern_ in
    let (r, done) = complete_first pattern_ t p ps e (subst (λ pieces. Fits pieces t) e fits) in
    rw e (ground arith)

double_split : (x : Text) → contains_char b'*' x ≡ false → split_char b'*' (b'*' ∷ x) ≡ [] ∷ x ∷ []
unfolding split_char
double_split x plain = rw (split_char_none b'*' x plain) refl

-- A pattern of a star and a piece without star, not empty, does not match the piece written twice,
-- although that text ends with the piece.
pub wildcard_match_leftmost :
    (c : ℕ) (p : Text)
    → contains_char b'*' (c ∷ p) ≡ false
    → Fits (split_char b'*' (b'*' ∷ c ∷ p)) ((c ∷ p) ++ (c ∷ p))
      × (wildcard_match (b'*' ∷ c ∷ p) ((c ∷ p) ++ (c ∷ p)) ≡ false)
unfolding wildcard_match match_parts
wildcard_match_leftmost c p plain =
    let last = ends_with_char-contains_char b'*' (c ∷ p) plain in
    let found =
      find_text_here (c ∷ p) ((c ∷ p) ++ (c ∷ p)) (c ∷ p) (strip_prefix-append (c ∷ p) (c ∷ p)) in
    rw (double_split (c ∷ p) plain)
      ((c ∷ p, c ∷ p, refl, refl), unfold contains_char in unfold ends_with_char in ground arith)
