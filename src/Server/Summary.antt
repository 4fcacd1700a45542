-- ===== src/Server/Summary.antt =====
-- crates/server/src/model.rs: the numbers that a server announces of its snapshot.
use gpustat4cluster.Base.{
  ℕ, ◌+◌, ◌*◌, ◌/◌, ◌%◌, ◌^◌, ◌≤◌, ◌<◌, List, [], ◌∷◌, ◌≡◌, refl, min, ◌==◌, if◌then◌else◌, length,
  All, arith,
}
use native.Mathlib.Nat.{mul-div-le, lt-mul-div-succ, div-le_of_le-mul}
use gpustat4cluster.Snapshot.{GresInfo, ServerGresSnapshot}

unfoldable pub gres_num : ServerGresSnapshot → ℕ
gres_num self = min (length self.gres) 255

-- The sum of the percentages, as `u64`.
unfoldable pub total_percent : List GresInfo → ℕ
total_percent [] = 0
total_percent (gres ∷ rest) = (gres.utilization.gres_percent + total_percent rest) % 2 ^ 64

unfoldable pub avg_utilization : ServerGresSnapshot → ℕ
avg_utilization self =
    if length self.gres == 0 then 0 else min (total_percent self.gres / length self.gres) 100

-- The sum of the percentages.
abbrev pub sum_percent : List GresInfo → ℕ
sum_percent [] = 0
sum_percent (gres ∷ rest) = gres.utilization.gres_percent + sum_percent rest

abbrev pub IsPercent : GresInfo → Type 0
IsPercent gres = gres.utilization.gres_percent ≤ 100

sum_percent-le : (gs : List GresInfo) → All IsPercent gs → sum_percent gs ≤ 100 * length gs
sum_percent-le [] h = omega arith
sum_percent-le (g ∷ gs) h = omega (arith, h.0, sum_percent-le gs h.1)

total_percent-eq :
    (gs : List GresInfo) → All IsPercent gs → length gs < 2 ^ 56 → total_percent gs ≡ sum_percent gs
unfolding total_percent
total_percent-eq [] h n = refl
total_percent-eq (g ∷ gs) h n =
    omega (arith, h.0, sum_percent-le gs h.1, total_percent-eq gs h.1 (omega arith))

-- The announced load is the average of the percentages, rounded down, and at most 100, for one
-- resource or more (fewer than 2^56) that report at most 100 percent.
pub avg_utilization_lem :
    (s : ServerGresSnapshot)
    → All IsPercent s.gres
    → length s.gres < 2 ^ 56
    → 0 < length s.gres
    → (length s.gres * avg_utilization s ≤ sum_percent s.gres)
      × (sum_percent s.gres < length s.gres * (avg_utilization s + 1))
      × (avg_utilization s ≤ 100)
unfolding avg_utilization
avg_utilization_lem s h n pos =
    let same = total_percent-eq s.gres h n in
    let few = sum_percent-le s.gres h in
    let low = mul-div-le (sum_percent s.gres) (length s.gres) in
    let high = lt-mul-div-succ (sum_percent s.gres) pos in
    let q = sum_percent s.gres / length s.gres in
    let q_le : q ≤ 100 = div-le_of_le-mul (length s.gres) (omega (arith, few)) in
    let avg : avg_utilization s ≡ q = ground (arith, same, q_le) in
    rw avg (low, omega (arith, high), q_le)
