-- ===== src/Server/Collector/Fixture/Runs.antt =====
-- The snapshots of the debug collector at each tick, and the contract.
use gpustat4cluster.Base.{
  ℕ, ◌+◌, ◌*◌, ◌%◌, ◌≤◌, ◌<◌, ◌≡◌, ◌≢◌, refl, sym, ap₂, subst, ◌∙◌, ◌==◌, false, Option, none, some,
  List, [], ◌∷◌, ok, map, All, arith, length-map, Option-cases, Bool-cases, inl, inr, ==_iff,
  ==_refl,
}
use gpustat4cluster.Base.Text.{Text}
use gpustat4cluster.Base.Scan.Find.{IsDistinct}
use gpustat4cluster.Server.Collector.{GresResource, is_blank, validate_gres_node_snapshot_contract}
use gpustat4cluster.Server.Collector.Contract.{
  IsProcess, IsResource, IsDense, IsNamed, with_uuid, uuids_of, contract_lem,
}
use gpustat4cluster.Server.Collector.Fixture.{
  TestGresInventoryResource, TestGresInventory, TestGresRuntimeProcess, TestGresRuntimeResource,
  runtime_resource, runtime_for_tick, initial_runtime, runtime_by_index, test_process,
  test_resource, snapshot_from_inventory_runtime, validate_inventory,
}

-- The resource of the inventory with its load at a tick.
abbrev at_tick : List TestGresInventoryResource → ℕ → TestGresInventoryResource → GresResource
at_tick all tick r = test_resource r (runtime_by_index r.index (map (runtime_resource tick) all))

module _ (r : TestGresInventoryResource) (o : Option TestGresRuntimeResource) where
  static_parts :
      ((test_resource r o).index ≡ r.index)
      × ((test_resource r o).name ≡ r.name)
      × ((test_resource r o).uuid ≡ r.uuid)
      × ((test_resource r o).memory_total_mb ≡ r.memory_total_mb)
  unfolding test_resource
  static_parts = elim (Option-cases o) [ inl e ↦ ground arith | inr (run, e) ↦ ground arith ]

  bounds :
      ((test_resource r o).memory_used_mb ≤ r.memory_total_mb)
      × ((test_resource r o).utilization_gres_percent ≤ 100)
      × ((test_resource r o).utilization_memory_percent ≤ 100)
  unfolding test_resource
  bounds = elim (Option-cases o) [ inl e ↦ ground arith | inr (run, e) ↦ ground arith ]

-- The processes of a resource depend on its index and the tick.
abbrev Small : ℕ → TestGresRuntimeProcess → Type 0
Small total p = (p.pid ≢ 0) × (p.used_memory_mb ≤ total)

runtime_processes :
    (tick i total : ℕ) (all : List TestGresInventoryResource) (run : TestGresRuntimeResource)
    → 831 + i * 128 ≤ total
    → runtime_by_index i (map (runtime_resource tick) all) ≡ some run
    → All (Small total) run.processes
unfolding runtime_by_index runtime_resource
runtime_processes tick i total [] run enough h = cc
runtime_processes tick i total (r ∷ all) run enough h =
    elim (Option-cases (runtime_by_index i (map (runtime_resource tick) all))) [
      | inr (later, e) ↦ runtime_processes tick i total all run enough (ground arith)
      | inl e ↦ elim (Bool-cases (r.index == i)) [
        | inr other ↦ absurd (ground arith)
        | inl same ↦
            let own : runtime_resource tick r ≡ run = ground arith in
            let index : r.index ≡ i = (==_iff r.index i).0 same in
            subst (λ x. All (Small total) x.processes) own
              ((omega arith, omega arith), ((omega arith, omega arith), tt))
      ]
    ]

test_processes :
    (total : ℕ) (ps : List TestGresRuntimeProcess)
    → All (Small total) ps
    → All (IsProcess total) (map test_process ps)
unfolding test_process
test_processes total [] h = tt
test_processes total (p ∷ ps) h = (h.0, test_processes total ps h.1)

test_resource-IsResource :
    (r : TestGresInventoryResource) (o : Option TestGresRuntimeResource)
    → is_blank r.name ≡ false
    → 0 < r.memory_total_mb
    → ((run : TestGresRuntimeResource) → o ≡ some run → All (Small r.memory_total_mb) run.processes)
    → IsResource (test_resource r o)
unfolding test_resource
test_resource-IsResource r none name total small =
    (name, total, omega arith, omega arith, omega arith, tt)
test_resource-IsResource r (some run) name total small = (
  name,
  total,
  omega arith,
  omega arith,
  omega arith,
  test_processes r.memory_total_mb run.processes (small run refl),
)

abbrev HasRoom : TestGresInventoryResource → Type 0
HasRoom r = 831 + r.index * 128 ≤ r.memory_total_mb

module _ (all : List TestGresInventoryResource) (tick : ℕ) where
  resources_good :
      (rs : List TestGresInventoryResource)
      → All HasRoom rs
      → All IsResource (map (at_tick all 0) rs)
      → All IsResource (map (at_tick all tick) rs)
  resources_good [] room h = tt
  resources_good (r ∷ rs) room h =
      let first = static_parts r (runtime_by_index r.index (map (runtime_resource 0) all)) in
      (
        test_resource-IsResource r (runtime_by_index r.index (map (runtime_resource tick) all))
            (subst (λ t. is_blank t ≡ false) first.1 h.0.0) (subst (λ t. 0 < t) first.3 h.0.1)
            (λ run found. runtime_processes tick r.index r.memory_total_mb all run room.0 found),
        resources_good rs room.1 h.1,
      )

  IsDense-same :
      (k : ℕ) (rs : List TestGresInventoryResource)
      → IsDense k (map (at_tick all 0) rs)
      → IsDense k (map (at_tick all tick) rs)
  IsDense-same k [] h = tt
  IsDense-same k (r ∷ rs) h =
      let first = static_parts r (runtime_by_index r.index (map (runtime_resource 0) all)) in
      let now = static_parts r (runtime_by_index r.index (map (runtime_resource tick) all)) in
      (now.0 ∙ sym first.0 ∙ h.0, IsDense-same (k + 1) rs h.1)

  uuids_same :
      (rs : List TestGresInventoryResource)
      → uuids_of (map (at_tick all 0) rs) ≡ uuids_of (map (at_tick all tick) rs)
  uuids_same [] = refl
  uuids_same (r ∷ rs) =
      let first = static_parts r (runtime_by_index r.index (map (runtime_resource 0) all)) in
      let now = static_parts r (runtime_by_index r.index (map (runtime_resource tick) all)) in
      ap₂ with_uuid (first.2 ∙ sym now.2) (uuids_same rs)

-- An inventory that is validated, with 831 MB and 128 MB more for each index before it on every
-- resource, gives a snapshot that passes the contract at every tick.
pub every_tick :
    (inventory : TestGresInventory) (tick : ℕ)
    → validate_inventory inventory ≡ ok tt
    → All HasRoom inventory.gres
    → validate_gres_node_snapshot_contract
        (snapshot_from_inventory_runtime inventory (runtime_for_tick inventory tick))
      ≡ ok tt
unfolding validate_inventory snapshot_from_inventory_runtime runtime_for_tick initial_runtime
every_tick inventory tick valid room =
    let all = inventory.gres in
    let start = snapshot_from_inventory_runtime inventory (initial_runtime inventory) in
    let m = (contract_lem start).0 (ground arith) in
    (contract_lem (snapshot_from_inventory_runtime inventory (runtime_for_tick inventory tick))).1 (
      m.0,
      m.1,
      IsDense-same all tick 0 all m.2,
      omega (arith, m.3, length-map (at_tick all 0) all, length-map (at_tick all tick) all),
      resources_good all tick all room m.4,
      subst (All IsNamed) (uuids_same all tick all) m.5,
      subst IsDistinct (uuids_same all tick all) m.6,
    )

found_alone :
    (r : TestGresInventoryResource) (tick : ℕ)
    → runtime_by_index r.index (map (runtime_resource tick) (r ∷ []))
      ≡ some (runtime_resource tick r)
unfolding runtime_by_index runtime_resource
found_alone r tick = rw (==_refl r.index) refl

too_much :
    (r : TestGresInventoryResource) (tick : ℕ)
    → r.memory_total_mb ≡ 768 + r.index * 128
    → tick % 64 ≢ 0
    → IsResource (at_tick (r ∷ []) tick r)
    → ⊥
too_much r tick exact off good =
    let alone = subst (λ o. IsResource (test_resource r o)) (found_alone r tick) good in
    let processes = alone.5 in
    unfold test_resource in
    unfold runtime_resource in unfold test_process in omega (arith, processes.0.1)

-- At a tick that is no multiple of 64, the snapshot of an inventory of one resource whose memory is
-- 768 MB and 128 MB times its index breaks the contract.
pub later_tick_refused :
    (hostname : Text) (driver_version : Option Text) (r : TestGresInventoryResource) (tick : ℕ)
    → r.memory_total_mb ≡ 768 + r.index * 128
    → tick % 64 ≢ 0
    → validate_gres_node_snapshot_contract (
        snapshot_from_inventory_runtime
          (record { hostname = hostname; driver_version = driver_version; gres = r ∷ [] })
          (runtime_for_tick
            (record { hostname = hostname; driver_version = driver_version; gres = r ∷ [] })
            tick))
      ≢ ok tt
unfolding snapshot_from_inventory_runtime runtime_for_tick
later_tick_refused hostname driver_version r tick exact off = λ h.
    let inventory : TestGresInventory = record {
      hostname = hostname;
      driver_version = driver_version;
      gres = r ∷ [];
    } in
    let m =
      (contract_lem (snapshot_from_inventory_runtime inventory (runtime_for_tick inventory tick))).0
        h in
    absurd (too_much r tick exact off m.4.0)
