-- ===== src/Base/Scan/Trim.antt =====
-- A text that begins and ends with a visible ASCII character is not changed by `trim`.
use mathlib.Core.List.{reverse, reverse-append, reverse-reverse}
use gpustat4cluster.Base.{ℕ, ◌<◌, ◌≡◌, refl, sym, ap, ◌∙◌, [], ◌∷◌, ◌++◌, All, arith}
use gpustat4cluster.Base.Text.{Text}
use gpustat4cluster.Base.Scan.{
  leading_space, trailing_space, skip_space, trim_start, trim_end, trim,
}

abbrev pub IsGraphic : ℕ → Type 0
IsGraphic c = (0x20 < c) × (c < 0x7f)

leading_graphic : (c : ℕ) (t : Text) → IsGraphic c → leading_space (c ∷ t) ≡ 0
unfolding leading_space
leading_graphic c [] g = ground arith
leading_graphic c (d ∷ []) g = ground arith
leading_graphic c (d ∷ e ∷ t) g = ground arith

trailing_graphic : (c : ℕ) (t : Text) → IsGraphic c → trailing_space (c ∷ t) ≡ 0
unfolding trailing_space
trailing_graphic c [] g = ground arith
trailing_graphic c (d ∷ []) g = ground arith
trailing_graphic c (d ∷ e ∷ t) g = ground arith

skip_space_none :
    (measure : Text → ℕ) (c : ℕ) (t : Text)
    → measure (c ∷ t) ≡ 0
    → skip_space measure 0 (c ∷ t) ≡ c ∷ t
unfolding skip_space
skip_space_none measure c t h = ground arith

trim_start_graphic : (c : ℕ) (t : Text) → IsGraphic c → trim_start (c ∷ t) ≡ c ∷ t
unfolding trim_start
trim_start_graphic c t g = skip_space_none leading_space c t (leading_graphic c t g)

trim_end_graphic : (t : Text) (c : ℕ) → IsGraphic c → trim_end (t ++ (c ∷ [])) ≡ t ++ (c ∷ [])
unfolding trim_end
trim_end_graphic t c g =
    let back : reverse (t ++ (c ∷ [])) ≡ c ∷ reverse t = reverse-append t (c ∷ []) in
    ap (λ (u : Text). reverse (skip_space trailing_space 0 u)) back
    ∙ ap reverse (skip_space_none trailing_space c (reverse t) (trailing_graphic c (reverse t) g))
    ∙ ap reverse (sym back)
    ∙ reverse-reverse (t ++ (c ∷ []))

-- A text of visible characters.
last-IsGraphic :
    (c : ℕ) (t : Text)
    → IsGraphic c
    → All IsGraphic t
    → (u : Text) × (d : ℕ) × (c ∷ t ≡ u ++ (d ∷ [])) × IsGraphic d
last-IsGraphic c [] g all = ([], c, refl, g)
last-IsGraphic c (e ∷ t) g all =
    let (u, d, same, h) = last-IsGraphic e t all.0 all.1 in
    (c ∷ u, d, ap (λ (v : Text). c ∷ v) same, h)

pub trim_graphic : (t : Text) → All IsGraphic t → trim t ≡ t
unfolding trim
trim_graphic [] all = refl
trim_graphic (c ∷ t) all =
    let (u, d, same, g) = last-IsGraphic c t all.0 all.1 in
    ap trim_end (trim_start_graphic c t all.0)
    ∙ ap trim_end same
    ∙ trim_end_graphic u d g
    ∙ sym same
