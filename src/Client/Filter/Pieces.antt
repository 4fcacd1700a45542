-- ===== src/Client/Filter/Pieces.antt =====
-- The items of a filter, and the patterns that are kept of them.
use gpustat4cluster.Base.{
  ℕ, ◌+◌, ◌-◌, ◌≡◌, refl, sym, ap, subst, ◌∙◌, true, false, ◌&&◌, List, [], ◌∷◌, ◌==◌,
  if◌then◌else◌, arith, Bool-cases, inl, inr,
}
use gpustat4cluster.Base.Bytes.{bytes_eq_refl, bytes_eq→eq}
use gpustat4cluster.Base.Text.{Text}
use gpustat4cluster.Base.Scan.{contains_char, split_char, is_member}
use gpustat4cluster.Base.Scan.Find.{intercalate, intercalate-push_front, IsDistinct}
use gpustat4cluster.Client.Filter.{split_items_from, split_filter_items, insert_new}

split_items_pieces :
    (depth : ℕ) (t : Text) → (p : Text) × (ps : List Text) × (split_items_from depth t ≡ p ∷ ps)
unfolding split_items_from
split_items_pieces depth [] = ([], [], refl)
split_items_pieces depth (c ∷ t) =
    let depth' : ℕ = if c == b'[' then depth + 1 else if c == b']' then depth - 1 else depth in
    let (p, ps, e) = split_items_pieces depth' t in
    elim (Bool-cases ((c == b',') && (depth == 0))) [
      | inl cut ↦ ([], p ∷ ps, rw cut (rw e refl))
      | inr kept ↦ (c ∷ p, ps, rw kept (rw e refl))
    ]

split_items_from-intercalate :
    (depth : ℕ) (t : Text) → intercalate b',' (split_items_from depth t) ≡ t
unfolding split_items_from
split_items_from-intercalate depth [] = refl
split_items_from-intercalate depth (c ∷ t) =
    let depth' : ℕ = if c == b'[' then depth + 1 else if c == b']' then depth - 1 else depth in
    let (p, ps, e) = split_items_pieces depth' t in
    let same =
      ap (λ (pieces : List Text). intercalate b',' pieces) (sym e)
      ∙ split_items_from-intercalate depth' t in
    elim (Bool-cases ((c == b',') && (depth == 0))) [
      | inl cut ↦ rw cut (rw e (rw same (ground arith)))
      | inr kept ↦
          rw kept (rw e (intercalate-push_front b',' c p ps ∙ ap (λ (u : Text). c ∷ u) same))
    ]

split_items_from-split_char :
    (t : Text) → contains_char b'[' t ≡ false → split_items_from 0 t ≡ split_char b',' t
unfolding split_items_from split_char contains_char
split_items_from-split_char [] h = refl
split_items_from-split_char (c ∷ t) h = ground (arith, split_items_from-split_char t)

-- No character of a filter is lost: its items, with a comma between two of them, are the filter.
-- Without an opening bracket it is divided at every comma.
pub split_filter_items_lem :
    (raw : Text)
    → (intercalate b',' (split_filter_items raw) ≡ raw)
      × (contains_char b'[' raw ≡ false → split_filter_items raw ≡ split_char b',' raw)
unfolding split_filter_items
split_filter_items_lem raw = (split_items_from-intercalate 0 raw, split_items_from-split_char raw)

module _ (p : Text) (seen ps : List Text) where
  insert_new_again : is_member p seen ≡ true → insert_new seen (p ∷ ps) ≡ insert_new seen ps
  unfolding insert_new
  insert_new_again h = ground arith

  insert_new_fresh :
      is_member p seen ≡ false → insert_new seen (p ∷ ps) ≡ p ∷ insert_new (p ∷ seen) ps
  unfolding insert_new
  insert_new_fresh h = ground arith

insert_new_seen :
    (q : Text) (seen ps : List Text)
    → is_member q seen ≡ true
    → is_member q (insert_new seen ps) ≡ false
insert_new_seen q seen [] h = unfold insert_new in refl
insert_new_seen q seen (p ∷ ps) h = elim (Bool-cases (is_member p seen)) [
  | inl again ↦ rw (insert_new_again p seen ps again) (insert_new_seen q seen ps h)
  | inr fresh ↦
      rw (insert_new_fresh p seen ps fresh)
        (ground (arith, insert_new_seen q (p ∷ seen) ps, bytes_eq→eq p q))
]

insert_new_unseen :
    (q : Text) (seen ps : List Text)
    → is_member q seen ≡ false
    → is_member q (insert_new seen ps) ≡ is_member q ps
insert_new_unseen q seen [] h = unfold insert_new in refl
insert_new_unseen q seen (p ∷ ps) h = elim (Bool-cases (is_member p seen)) [
  | inl again ↦
      rw (insert_new_again p seen ps again)
        (ground (arith, insert_new_unseen q seen ps, bytes_eq→eq p q))
  | inr fresh ↦
      rw (insert_new_fresh p seen ps fresh) (ground (arith, insert_new_unseen q (p ∷ seen) ps))
]

insert_new-IsDistinct : (seen ps : List Text) → IsDistinct (insert_new seen ps)
insert_new-IsDistinct seen [] = unfold insert_new in tt
insert_new-IsDistinct seen (p ∷ ps) = elim (Bool-cases (is_member p seen)) [
  | inl again ↦
      subst IsDistinct (sym (insert_new_again p seen ps again)) (insert_new-IsDistinct seen ps)
  | inr fresh ↦ subst IsDistinct (sym (insert_new_fresh p seen ps fresh)) (
    insert_new_seen p (p ∷ seen) ps (ground (arith, bytes_eq_refl p)),
    insert_new-IsDistinct (p ∷ seen) ps,
  )
]

-- A filter keeps each of its patterns, and keeps it once.
pub insert_new_lem :
    (ps : List Text) (q : Text)
    → IsDistinct (insert_new [] ps) × (is_member q (insert_new [] ps) ≡ is_member q ps)
insert_new_lem ps q = (insert_new-IsDistinct [] ps, insert_new_unseen q [] ps refl)
