-- ===== src/Server/Ports/Picked.antt =====
-- Which ports are picked.
use native.Mathlib.Nat.{mod-lt, mod-eq_of_lt, add-mod_right}
use gpustat4cluster.Base.{
  ℕ, zero, suc, ◌+◌, ◌-◌, ◌%◌, ◌≤◌, ◌<◌, ◌≡◌, ◌⊎◌, inl, inr, ap, subst, ◌∙◌, Bool, true, false,
  Option, List, [], ◌∷◌, ok, err, arith, Bool-cases,
}
use gpustat4cluster.ErrorCode.{ErrorCode, port_exhausted}
use gpustat4cluster.Server.Ports.{
  candidates_from, port_candidates, is_excluded, first_free, pick_port,
}

-- A port is one of the list.
abbrev pub IsIn : ℕ → List ℕ → Type 0
IsIn port [] = ⊥
IsIn port (p ∷ ps) = (p ≡ port) ⊎ IsIn port ps

candidates_in_range :
    (start count offset rounds idx port : ℕ)
    → 0 < count
    → IsIn port (candidates_from start count offset rounds idx)
    → (start ≤ port) × (port < start + count)
unfolding candidates_from
candidates_in_range start count offset zero idx port pos h = absurd h
candidates_in_range start count offset (suc rounds) idx port pos (inl same) =
    ground (arith, same, mod-lt (offset + idx) pos)
candidates_in_range start count offset (suc rounds) idx port pos (inr later) =
    candidates_in_range start count offset rounds (idx + 1) port pos later

-- The candidate with a number below the number of rounds is in the list.
candidate_at :
    (start count offset rounds idx k : ℕ)
    → k < rounds
    → IsIn (start + (offset + (idx + k)) % count) (candidates_from start count offset rounds idx)
unfolding candidates_from
candidate_at start count offset zero idx k h = absurd (omega (arith, h))
candidate_at start count offset (suc rounds) idx zero h =
    inl (ap (λ i. start + (offset + i) % count) {x = idx} (omega arith))
candidate_at start count offset (suc rounds) idx (suc k) h = inr (
    subst
      (λ i.
        IsIn (start + (offset + i) % count) (candidates_from start count offset rounds (idx + 1)))
      {x = idx + 1 + k} (omega arith)
      (candidate_at start count offset rounds (idx + 1) k (omega arith)))

split_at : (a b : ℕ) → (a ≤ b) ⊎ (b < a)
split_at zero b = inl (omega arith)
split_at (suc a) zero = inr (omega arith)
split_at (suc a) (suc b) = elim (split_at a b) [
  | inl h ↦ inl (omega (arith, h))
  | inr h ↦ inr (omega (arith, h))
]

module _ (is_free : ℕ → Bool) (exclude : Option ℕ) where
  first_free_ok :
      (ports : List ℕ) (port : ℕ)
      → first_free is_free exclude ports ≡ ok port
      → IsIn port ports × (is_free port ≡ true) × (is_excluded port exclude ≡ false)
  unfolding first_free
  first_free_ok [] port e = absurd (ground arith)
  first_free_ok (p ∷ ports) port e = elim (Bool-cases (is_excluded p exclude)) [
    | inl out ↦
        let (inside, free, good) = first_free_ok ports port (ground (arith, out)) in
        (inr inside, free, good)
    | inr good ↦ elim (Bool-cases (is_free p)) [
      | inl free ↦
          let same : p ≡ port = ground (arith, good, free) in
          (
            inl same,
            subst (λ x. is_free x ≡ true) same free,
            subst (λ x. is_excluded x exclude ≡ false) same good,
          )
      | inr busy ↦
          let (inside, free, fine) = first_free_ok ports port (ground (arith, good, busy)) in
          (inr inside, free, fine)
    ]
  ]

  first_free_err :
      (ports : List ℕ) (code : ErrorCode) (port : ℕ)
      → first_free is_free exclude ports ≡ err code
      → IsIn port ports
      → is_excluded port exclude ≡ false
      → is_free port ≡ false
  unfolding first_free
  first_free_err [] code port e h good = absurd h
  first_free_err (p ∷ ports) code port e h good = elim (Bool-cases (is_excluded p exclude)) [
    | inl out ↦
        first_free_err ports code port (ground (arith, out))
          (elim h [
            | inl same ↦
                absurd (ground (arith, subst (λ x. is_excluded x exclude ≡ true) same out, good))
            | inr later ↦ later
          ])
          good
    | inr fine ↦ elim (Bool-cases (is_free p)) [
      | inl free ↦ absurd (ground (arith, fine, free))
      | inr busy ↦ elim h [
        | inl same ↦ subst (λ x. is_free x ≡ false) same busy
        | inr later ↦ first_free_err ports code port (ground (arith, fine, busy)) later good
      ]
    ]
  ]

  first_free_code :
      (ports : List ℕ) (code : ErrorCode)
      → first_free is_free exclude ports ≡ err code
      → code ≡ port_exhausted
  unfolding first_free
  first_free_code [] code e = ground arith
  first_free_code (p ∷ ports) code e = ground (arith, first_free_code ports code)

-- Every port of the range is a candidate.
candidates_cover :
    (start end nanos port : ℕ)
    → start ≤ port
    → port ≤ end
    → IsIn port (port_candidates (start, end) nanos)
unfolding port_candidates
candidates_cover start end nanos port low high =
    let count = end - start + 1 in
    let offset = nanos % count in
    let d = port - start in
    let offset_lt : offset < count = mod-lt nanos (omega arith) in
    elim (split_at offset d) [
      | inl before ↦
          subst (λ x. IsIn x (candidates_from start count offset count 0))
            (let m : (offset + (0 + (d - offset))) % count ≡ d =
                ap (λ x. x % count) (omega (arith, before)) ∙ mod-eq_of_lt (omega arith) in
              omega (arith, m))
            (candidate_at start count offset count 0 (d - offset) (omega arith))
      | inr behind ↦
          subst (λ x. IsIn x (candidates_from start count offset count 0))
            (let m : (offset + (0 + (d + count - offset))) % count ≡ d =
                ap (λ x. x % count) {y = d + count} (omega (arith, offset_lt))
                ∙ add-mod_right d count
                ∙ mod-eq_of_lt (omega arith) in
              omega (arith, m))
            (candidate_at start count offset count 0 (d + count - offset)
              (omega (arith, offset_lt, behind)))
    ]

module _ (is_free : ℕ → Bool) (exclude : Option ℕ) where
  -- A port that is picked from a range with a start not above its end, where none is configured,
  -- lies in the range, is free and is not the excluded one.
  pub pick_port-IsIn :
      (start end nanos port : ℕ)
      → start ≤ end
      → pick_port is_free exclude (start, end) 0 nanos ≡ ok port
      → (start ≤ port) × (port ≤ end) × (is_free port ≡ true) × (is_excluded port exclude ≡ false)
  unfolding pick_port port_candidates
  pick_port-IsIn start end nanos port h e =
      let (inside, free, good) =
        first_free_ok is_free exclude (port_candidates (start, end) nanos) port
          (ground (arith, e)) in
      let range =
        candidates_in_range start (end - start + 1) (nanos % (end - start + 1)) (end - start + 1) 0
          port (omega arith) inside in
      (range.0, omega (arith, range.1), free, good)

  -- If no port is picked, where none is configured, the error is PortExhausted and no port of the
  -- range but the excluded one is free.
  pub pick_port_exhausted :
      (start end nanos port : ℕ) (code : ErrorCode)
      → pick_port is_free exclude (start, end) 0 nanos ≡ err code
      → start ≤ port
      → port ≤ end
      → is_excluded port exclude ≡ false
      → (is_free port ≡ false) × (code ≡ port_exhausted)
  unfolding pick_port
  pick_port_exhausted start end nanos port code e low high good =
      let failed : first_free is_free exclude (port_candidates (start, end) nanos) ≡ err code =
        ground (arith, e) in
      (
        first_free_err is_free exclude (port_candidates (start, end) nanos) code port failed
            (candidates_cover start end nanos port low high) good,
        first_free_code is_free exclude (port_candidates (start, end) nanos) code failed,
      )
