-- ===== src/Server/Collector/Contract.antt =====
-- What a snapshot that passes the contract is like.
use gpustat4cluster.Base.{
  ℕ, ◌+◌, ◌≤◌, ◌<◌, ◌≡◌, ◌≢◌, ◌↔◌, refl, sym, subst, false, Option, none, some, List, [], ◌∷◌, ok,
  Result-cases, inl, inr, length, All, arith,
}
use gpustat4cluster.Base.Bytes.{bytes_eq_sym}
use gpustat4cluster.Base.Text.{Text}
use gpustat4cluster.Base.Scan.{is_member}
use gpustat4cluster.Base.Scan.Find.{IsDistinct}
use gpustat4cluster.Server.Collector.{
  GresProcess, GresResource, GresNodeSnapshot, is_blank, check_processes, insert_uuid, check_fields,
  check_resources, validate_gres_node_snapshot_contract,
}

abbrev pub IsProcess : ℕ → GresProcess → Type 0
IsProcess total p = (p.pid ≢ 0) × (p.used_memory_mb ≤ total)

-- One resource with its processes.
abbrev pub IsResource : GresResource → Type 0
IsResource r =
    (is_blank r.name ≡ false)
    × (0 < r.memory_total_mb)
    × (r.memory_used_mb ≤ r.memory_total_mb)
    × (r.utilization_gres_percent ≤ 100)
    × (r.utilization_memory_percent ≤ 100)
    × All (IsProcess r.memory_total_mb) r.processes

-- The indices count up from the first.
abbrev pub IsDense : ℕ → List GresResource → Type 0
IsDense k [] = Unit
IsDense k (r ∷ rs) = (r.index ≡ k) × IsDense (k + 1) rs

abbrev pub with_uuid : Option Text → List Text → List Text
with_uuid none us = us
with_uuid (some u) us = u ∷ us

-- The uuids that resources have.
abbrev pub uuids_of : List GresResource → List Text
uuids_of [] = []
uuids_of (r ∷ rs) = with_uuid r.uuid (uuids_of rs)

abbrev pub IsNamed : Text → Type 0
IsNamed t = is_blank t ≡ false

abbrev pub MeetsContract : GresNodeSnapshot → Type 0
MeetsContract s =
    (is_blank s.hostname ≡ false)
    × ((elim s.driver_version [ none ↦ false | some version ↦ is_blank version ]) ≡ false)
    × IsDense 0 s.resources
    × (length s.resources ≤ 255)
    × All IsResource s.resources
    × All IsNamed (uuids_of s.resources)
    × IsDistinct (uuids_of s.resources)

check_processes-All :
    (index total : ℕ) (ps : List GresProcess)
    → check_processes index total ps ≡ ok tt
    → All (IsProcess total) ps
unfolding check_processes
check_processes-All index total [] h = tt
check_processes-All index total (p ∷ ps) h = ground (arith, check_processes-All index total ps)

All-check_processes :
    (index total : ℕ) (ps : List GresProcess)
    → All (IsProcess total) ps
    → check_processes index total ps ≡ ok tt
unfolding check_processes
All-check_processes index total [] h = refl
All-check_processes index total (p ∷ ps) h = ground (arith, All-check_processes index total ps h.1)

module _ (r : GresResource) where
  fields_ok :
      check_fields r ≡ ok tt
      → (is_blank r.name ≡ false)
        × (0 < r.memory_total_mb)
        × (r.memory_used_mb ≤ r.memory_total_mb)
        × (r.utilization_gres_percent ≤ 100)
        × (r.utilization_memory_percent ≤ 100)
  unfolding check_fields
  fields_ok h = ground arith

  ok_fields : IsResource r → check_fields r ≡ ok tt
  unfolding check_fields
  ok_fields h = ground arith

abbrev IsUnseen : List Text → Text → Type 0
IsUnseen seen v = is_member v seen ≡ false

abbrev IsUuids : List Text → List Text → Type 0
IsUuids seen us = All IsNamed us × All (IsUnseen seen) us × IsDistinct us

-- Unseen by a longer list: unseen by the shorter, and no copy of its first.
IsUnseen-cons :
    (u : Text) (seen us : List Text)
    → All (IsUnseen (u ∷ seen)) us
    → (is_member u us ≡ false) × All (IsUnseen seen) us
IsUnseen-cons u seen [] h = (refl, tt)
IsUnseen-cons u seen (v ∷ us) h =
    let rest = IsUnseen-cons u seen us h.1 in ground (arith, bytes_eq_sym u v)

cons-IsUnseen :
    (u : Text) (seen us : List Text)
    → is_member u us ≡ false
    → All (IsUnseen seen) us
    → All (IsUnseen (u ∷ seen)) us
cons-IsUnseen u seen [] new h = tt
cons-IsUnseen u seen (v ∷ us) new h =
    (ground (arith, bytes_eq_sym v u), cons-IsUnseen u seen us (ground arith) h.1)

module _ (index : ℕ) where
  uuid_ok :
      (o : Option Text) (seen seen' us : List Text)
      → insert_uuid index o seen ≡ ok seen'
      → IsUuids seen' us
      → IsUuids seen (with_uuid o us)
  unfolding insert_uuid
  uuid_ok none seen seen' us h i = subst (λ s. IsUuids s us) (cc h) i
  uuid_ok (some u) seen seen' us h i =
      let same : u ∷ seen ≡ seen' = ground arith in
      let (new, old) = IsUnseen-cons u seen us (subst (λ s. All (IsUnseen s) us) (sym same) i.1) in
      ((ground arith, i.0), (ground arith, old), (new, i.2))

  ok_uuid :
      (o : Option Text) (seen us : List Text)
      → IsUuids seen (with_uuid o us)
      → (seen' : List Text) × (insert_uuid index o seen ≡ ok seen') × IsUuids seen' us
  unfolding insert_uuid
  ok_uuid none seen us i = (seen, refl, i)
  ok_uuid (some u) seen us i =
      (u ∷ seen, ground (arith, i.0.0, i.1.0), (i.0.1, cons-IsUnseen u seen us i.2.0 i.1.1, i.2.1))

-- A round of the loop that succeeds.
check_resources_ok :
    (k : ℕ) (seen : List Text) (r : GresResource) (rs : List GresResource)
    → check_resources k seen (r ∷ rs) ≡ ok tt
    → (seen' : List Text) × (r.index ≡ k)
      × (k ≢ 255)
      × (check_fields r ≡ ok tt)
      × (insert_uuid r.index r.uuid seen ≡ ok seen')
      × (check_processes r.index r.memory_total_mb r.processes ≡ ok tt)
      × (check_resources (k + 1) seen' rs ≡ ok tt)
unfolding check_resources
check_resources_ok k seen r rs h = elim (Result-cases (insert_uuid r.index r.uuid seen)) [
  | inl (seen', e) ↦
      (seen', ground arith, ground arith, ground arith, e, ground arith, ground arith)
  | inr (x, e) ↦ absurd (ground arith)
]

check_resources_sound :
    (k : ℕ) (seen : List Text) (rs : List GresResource)
    → k ≤ 255
    → check_resources k seen rs ≡ ok tt
    → IsDense k rs × (k + length rs ≤ 255) × All IsResource rs × IsUuids seen (uuids_of rs)
check_resources_sound k seen [] few h = (tt, omega arith, tt, (tt, tt, tt))
check_resources_sound k seen (r ∷ rs) few h =
    let (seen', index, below, fields, uuid, processes, later) = check_resources_ok k seen r rs h in
    let (dense, count, all, uuids) = check_resources_sound (k + 1) seen' rs (omega arith) later in
    let f = fields_ok r fields in
    (
      (index, dense),
      omega arith,
      (
        (
          f.0,
          f.1,
          f.2,
          f.3,
          f.4,
          check_processes-All r.index r.memory_total_mb r.processes processes,
        ),
        all,
      ),
      uuid_ok r.index r.uuid seen seen' (uuids_of rs) uuid uuids,
    )

check_resources_complete :
    (k : ℕ) (seen : List Text) (rs : List GresResource)
    → IsDense k rs
    → k + length rs ≤ 255
    → All IsResource rs
    → IsUuids seen (uuids_of rs)
    → check_resources k seen rs ≡ ok tt
unfolding check_resources
check_resources_complete k seen [] dense count all uuids = refl
check_resources_complete k seen (r ∷ rs) dense count all uuids =
    let (seen', uuid, later) = ok_uuid r.index r.uuid seen (uuids_of rs) uuids in
    let fields = ok_fields r all.0 in
    let processes = All-check_processes r.index r.memory_total_mb r.processes all.0.5 in
    let rest = check_resources_complete (k + 1) seen' rs dense.1 (omega arith) all.1 later in
    ground (arith, dense.0)

All-IsUnseen : (us : List Text) → All (IsUnseen []) us
All-IsUnseen [] = tt
All-IsUnseen (u ∷ us) = (refl, All-IsUnseen us)

-- A node's snapshot passes the check of the contract exactly if its hostname is not blank, a driver
-- version and the uuids that are given are not blank, the uuids are distinct, the resources, at
-- most 255, are numbered from 0 on, and each has a name that is not blank, a memory above 0 that is
-- not below what is used, percentages of at most 100, and processes with a pid other than 0 that
-- use at most its memory.
pub contract_lem :
    (s : GresNodeSnapshot) → (validate_gres_node_snapshot_contract s ≡ ok tt) ↔ MeetsContract s
unfolding validate_gres_node_snapshot_contract
contract_lem s = (
  λ h.
      let sound = check_resources_sound 0 [] s.resources (omega arith) (ground arith) in
      (ground arith, ground arith, sound.0, omega (arith, sound.1), sound.2, sound.3.0, sound.3.2),
  λ m.
      let done =
        check_resources_complete 0 [] s.resources m.2 (omega (arith, m.3)) m.4
          (m.5, All-IsUnseen (uuids_of s.resources), m.6) in
      ground (arith, m.0, m.1),
)
