-- ===== src/Server/Collector/Nvml/Collected.antt =====
-- What the NVML collector returns, whatever NVML and /proc answer.
use gpustat4cluster.Base.{
  ℕ, zero, suc, ◌+◌, ◌≤◌, ◌≡◌, ◌≢◌, refl, sym, ap, subst, ◌∙◌, min, ◌==◌, ==_refl, true, false,
  Option, none, some, List, [], ◌∷◌, ok, map, any, All, length, arith, length-map, Result-cases,
  Option-cases, Bool-cases, inl, inr,
}
use gpustat4cluster.Base.Text.{Text}
use gpustat4cluster.Snapshot.{GresInfo, metadata_of, runtime_of, to_snapshot}
use gpustat4cluster.Server.Collector.{
  GresProcess, GresResource, GresNodeSnapshot, process_of, resource_of, from_gres_snapshot,
  into_gres_snapshot,
}
use gpustat4cluster.Server.Collector.Contract.{IsDense}
use gpustat4cluster.Server.Collector.Rebuilt.{to_snapshot-into_gres_snapshot}
use gpustat4cluster.Server.Collector.Nvml.{
  NvmlProcess, Device, NvmlLib, ProcFiles, collected_process, collect_from, collect_processes,
  collect_device, collect_devices, nvml_snapshot, nvml_collect_gres,
}

abbrev pub DistinctPids : List GresProcess → Type 0
DistinctPids [] = Unit
DistinctPids (p ∷ ps) = All (λ q. q.pid ≢ p.pid) ps × DistinctPids ps

abbrev pub IsCollected : GresResource → Type 0
IsCollected r =
    (r.utilization_gres_percent ≤ 100)
    × (r.utilization_memory_percent ≤ 100)
    × DistinctPids r.processes

module _ (files : ProcFiles) where
  module _ (seen : List ℕ) (p : NvmlProcess) (ps : List NvmlProcess) where
    collect_again :
        any (λ pid. pid == p.pid) seen ≡ true
        → collect_from files seen (p ∷ ps) ≡ collect_from files seen ps
    unfolding collect_from
    collect_again h = ground arith

    collect_fresh :
        any (λ pid. pid == p.pid) seen ≡ false
        → collect_from files seen (p ∷ ps)
          ≡ collected_process files p ∷ collect_from files (p.pid ∷ seen) ps
    unfolding collect_from
    collect_fresh h = ground arith

  same_pid : (p : NvmlProcess) → (process_of (collected_process files p)).pid ≡ p.pid
  unfolding collected_process process_of
  same_pid p = refl

  unseen_pid :
      (j k : ℕ) (seen : List ℕ)
      → any (λ pid. pid == j) seen ≡ true
      → any (λ pid. pid == k) seen ≡ false
      → k ≢ j
  unseen_pid j k seen h n = λ e. cc (subst (λ i. any (λ pid. pid == i) seen ≡ false) e n)

  seen_pid :
      (j : ℕ) (seen : List ℕ) (ps : List NvmlProcess)
      → any (λ pid. pid == j) seen ≡ true
      → All (λ q. q.pid ≢ j) (map process_of (collect_from files seen ps))
  seen_pid j seen [] h = unfold collect_from in tt
  seen_pid j seen (p ∷ ps) h = elim (Bool-cases (any (λ pid. pid == p.pid) seen)) [
    | inl again ↦
        subst (λ c. All (λ q. q.pid ≢ j) (map process_of c)) (sym (collect_again seen p ps again))
          (seen_pid j seen ps h)
    | inr fresh ↦
        subst (λ c. All (λ q. q.pid ≢ j) (map process_of c)) (sym (collect_fresh seen p ps fresh))
          (
            subst (λ i. i ≢ j) (sym (same_pid p)) (unseen_pid j p.pid seen h fresh),
            seen_pid j (p.pid ∷ seen) ps (unfold any in ground (arith, h)),
          )
  ]

  collect_from-DistinctPids :
      (seen : List ℕ) (ps : List NvmlProcess)
      → DistinctPids (map process_of (collect_from files seen ps))
  collect_from-DistinctPids seen [] = unfold collect_from in tt
  collect_from-DistinctPids seen (p ∷ ps) = elim (Bool-cases (any (λ pid. pid == p.pid) seen)) [
    | inl again ↦
        subst (λ c. DistinctPids (map process_of c)) (sym (collect_again seen p ps again))
          (collect_from-DistinctPids seen ps)
    | inr fresh ↦
        subst (λ c. DistinctPids (map process_of c)) (sym (collect_fresh seen p ps fresh))
          (
            subst
                (λ i. All (λ q. q.pid ≢ i) (map process_of (collect_from files (p.pid ∷ seen) ps)))
                (sym (same_pid p))
                (seen_pid p.pid (p.pid ∷ seen) ps (unfold any in ground (arith, ==_refl p.pid))),
            collect_from-DistinctPids (p.pid ∷ seen) ps,
          )
  ]

  collect_device-IsCollected :
      (index : ℕ) (device : Option Device) (g : GresInfo)
      → collect_device files index device ≡ ok g
      → (g.index ≡ index) × IsCollected (resource_of g)
  unfolding collect_device resource_of collect_processes
  collect_device-IsCollected index none g h = cc
  collect_device-IsCollected index (some device) g h =
      elim (Option-cases device.utilization_rates) [
        | inl e ↦ absurd (ground arith)
        | inr (rates, e) ↦ elim (Option-cases device.memory_info) [
          | inl f ↦ absurd (ground arith)
          | inr (memory, f) ↦
              let ps : g.processes ≡ collect_processes files device = ground arith in
              let gpu : g.utilization.gres_percent ≡ min rates.0 100 = ground arith in
              let mem : g.utilization.memory_percent ≡ min rates.1 100 = ground arith in
              let own : g.index ≡ index = ground arith in
              (
                own,
                (
                  omega arith,
                  omega arith,
                  subst (λ c. DistinctPids (map process_of c)) (sym ps)
                      (collect_from-DistinctPids [] _),
                ),
              )
        ]
      ]

  module _ (nvml : NvmlLib) where
    collect_devices-cons :
        (index count : ℕ) (gs : List GresInfo)
        → collect_devices files nvml index (suc count) ≡ ok gs
        → (g : GresInfo) × (later : List GresInfo) × (gs ≡ g ∷ later)
          × (collect_device files index (nvml.device_by_index index) ≡ ok g)
          × (collect_devices files nvml (index + 1) count ≡ ok later)
    unfolding collect_devices
    collect_devices-cons index count gs h =
        elim (Result-cases (collect_device files index (nvml.device_by_index index))) [
          | inr (x, e) ↦ absurd (ground arith)
          | inl (g, e) ↦ elim (Result-cases (collect_devices files nvml (index + 1) count)) [
            | inr (x, f) ↦ absurd (ground arith)
            | inl (later, f) ↦ (g, later, ground arith, e, f)
          ]
        ]

    same_index : (g : GresInfo) → (resource_of g).index ≡ g.index
    unfolding resource_of
    same_index g = refl

    collect_devices-IsCollected :
        (index count : ℕ) (gs : List GresInfo)
        → collect_devices files nvml index count ≡ ok gs
        → IsDense index (map resource_of gs)
          × All IsCollected (map resource_of gs)
          × (length gs ≡ count)
    collect_devices-IsCollected index zero gs h =
        let e : [] ≡ gs = unfold collect_devices in ground arith in
        subst
          (λ l.
            IsDense index (map resource_of l)
            × All IsCollected (map resource_of l)
            × (length l ≡ 0))
          e (tt, tt, refl)
    collect_devices-IsCollected index (suc count) gs h =
        let (g, later, e, first, others) = collect_devices-cons index count gs h in
        let (own, good) = collect_device-IsCollected index (nvml.device_by_index index) g first in
        let (dense, all, count_) = collect_devices-IsCollected (index + 1) count later others in
        subst
          (λ l.
            IsDense index (map resource_of l)
            × All IsCollected (map resource_of l)
            × (length l ≡ suc count))
          (sym e) ((same_index g ∙ own, dense), (good, all), ap suc count_)

    -- A snapshot that the NVML collector returns, where the library counts some number of devices,
    -- has resources numbered from 0 on, as many as there are devices but at most 255, with
    -- percentages of at most 100 and no process twice in one resource, and its metadata and runtime
    -- part rebuild it.
    pub nvml_collect_gres-IsCollected :
        (hostname : Text) (count : ℕ) (n : GresNodeSnapshot)
        → nvml.device_count ≡ some count
        → nvml_collect_gres files hostname nvml ≡ ok n
        → IsDense 0 n.resources
          × (length n.resources ≡ min count 255)
          × All IsCollected n.resources
          × (to_snapshot (runtime_of (into_gres_snapshot n)) (metadata_of (into_gres_snapshot n))
              ≡ into_gres_snapshot n)
    unfolding nvml_collect_gres nvml_snapshot
    nvml_collect_gres-IsCollected hostname count n some_count h =
        elim (Result-cases (collect_devices files nvml 0 (min count 255))) [
          | inr (x, e) ↦ absurd (ground arith)
          | inl (gs, e) ↦
              let (dense, all, counted) = collect_devices-IsCollected 0 (min count 255) gs e in
              let parts : map resource_of gs ≡ n.resources =
                unfold from_gres_snapshot in ground arith in
              let whole = subst (IsDense 0) parts dense in
              (
                whole,
                sym (ap length parts) ∙ length-map resource_of gs ∙ counted,
                subst (All IsCollected) parts all,
                to_snapshot-into_gres_snapshot n whole,
              )
        ]
