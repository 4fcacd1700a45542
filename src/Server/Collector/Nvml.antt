-- ===== src/Server/Collector/Nvml.antt =====
-- crates/server/src/collector.rs: `RealNvmlCollector`. NVML and the files under /proc are
-- parameters: what each call returns, `none` for an error.
pub mod Collected
use gpustat4cluster.Base.{
  ℕ, zero, suc, ◌+◌, ◌-◌, ◌/◌, ◌^◌, min, ltb, ◌==◌, not, if◌then◌else◌, Bool, true, false, ◌||◌,
  Option, none, some, List, [], ◌∷◌, ◌++◌, Result, ok, err, ◌>>=◌, map_ok, map, get_elem?, any,
}
use gpustat4cluster.Base.Text.{Text, text}
use gpustat4cluster.Base.Scan.{is_empty, is_some, strip_prefix, lines, split_whitespace, trim}
use gpustat4cluster.Base.Scan.Digits.{parse_uint}
use gpustat4cluster.ErrorCode.{ErrorCode, nvml_unavailable}
use gpustat4cluster.Snapshot.{GresInfo, GresProcessInfo, ServerGresSnapshot}
use gpustat4cluster.Server.Collector.{GresNodeSnapshot, from_gres_snapshot}

pub data UsedGpuMemory : Type 0 where
  used_bytes : ℕ → UsedGpuMemory
  unavailable : UsedGpuMemory

pub record NvmlProcess : Type 0 where
  pub pid : ℕ
  pub used_gpu_memory : UsedGpuMemory

-- The memory in bytes, used and total; the rates of use of the processor and of the memory.
pub record Device : Type 0 where
  pub utilization_rates : Option (ℕ × ℕ)
  pub memory_info : Option (ℕ × ℕ)
  pub temperature : Option ℕ
  pub name : Option Text
  pub uuid : Option Text
  pub running_compute_processes : Option (List NvmlProcess)
  pub running_graphics_processes : Option (List NvmlProcess)

pub record NvmlLib : Type 0 where
  pub device_count : Option ℕ
  pub device_by_index : ℕ → Option Device
  pub sys_driver_version : Option Text

-- The files `/proc/{pid}/comm` and `/proc/{pid}/status`.
pub record ProcFiles : Type 0 where
  pub comm : ℕ → Option Text
  pub status : ℕ → Option Text

unfoldable pub used_gres_memory_mb : UsedGpuMemory → ℕ
used_gres_memory_mb (used_bytes bytes) = bytes / 1024 / 1024
used_gres_memory_mb unavailable = 0

unfoldable pub command_for_pid : Option Text → Option Text
command_for_pid none = none
command_for_pid (some s) = if is_empty (trim s) then none else some (trim s)

-- The first line that starts with `Uid:`.
unfoldable pub uid_line : List Text → Option Text
uid_line [] = none
uid_line (line ∷ rest) =
    if is_some (strip_prefix (text "Uid:") line) then some line else uid_line rest

unfoldable pub uid_for_pid : Option Text → Option ℕ
unfolding uid_line
uid_for_pid none = none
uid_for_pid (some status) = elim (uid_line (lines status)) [
  | none ↦ none
  | some line ↦ elim (get_elem? (split_whitespace line) 1) [
    | none ↦ none
    | some raw ↦ parse_uint (2 ^ 32) raw
  ]
]

module _ (files : ProcFiles) where
  unfoldable pub collected_process : NvmlProcess → GresProcessInfo
  unfolding used_gres_memory_mb command_for_pid uid_for_pid
  collected_process process = record {
    pid = process.pid;
    uid = elim (uid_for_pid (files.status process.pid)) [ none ↦ 2 ^ 32 - 1 | some uid ↦ uid ];
    command = command_for_pid (files.comm process.pid);
    used_memory_mb = used_gres_memory_mb process.used_gpu_memory;
  }

  -- The loop of `collect_processes`, with the pids seen.
  unfoldable pub collect_from : List ℕ → List NvmlProcess → List GresProcessInfo
  collect_from seen [] = []
  collect_from seen (process ∷ rest) =
      let again = collect_from seen rest in
      let fresh = collect_from (process.pid ∷ seen) rest in
      elim (any (λ pid. pid == process.pid) seen) [
        | true ↦ again
        | false ↦ collected_process process ∷ fresh
      ]

  unfoldable pub collect_processes : Device → List GresProcessInfo
  unfolding collect_from
  collect_processes device = collect_from [] (
      (elim device.running_compute_processes [ none ↦ [] | some processes ↦ processes ])
      ++ (elim device.running_graphics_processes [ none ↦ [] | some processes ↦ processes ]))

  -- The body of the loop over the devices.
  unfoldable pub collect_device : ℕ → Option Device → Result GresInfo ErrorCode
  collect_device index none = err nvml_unavailable
  collect_device index (some device) = elim device.utilization_rates [
    | none ↦ err nvml_unavailable
    | some (gpu, memory_rate) ↦ elim device.memory_info [
      | none ↦ err nvml_unavailable
      | some (used, total) ↦ ok (record {
        index = index;
        name = elim device.name [ none ↦ text "unknown" | some name ↦ name ];
        temperature_c = device.temperature;
        uuid = device.uuid;
        memory = record { used_mb = used / 1024 / 1024; total_mb = total / 1024 / 1024 };
        utilization = record { gres_percent = min gpu 100; memory_percent = min memory_rate 100 };
        processes = collect_processes device;
      })
    ]
  ]

  -- The devices from `index` on, `count` of them; the first error ends the loop.
  unfoldable pub collect_devices : NvmlLib → ℕ → ℕ → Result (List GresInfo) ErrorCode
  collect_devices nvml index zero = ok []
  collect_devices nvml index (suc count) =
      let rest = collect_devices nvml (index + 1) count in
      collect_device index (nvml.device_by_index index) >>= λ gres.
      (map_ok (λ later. gres ∷ later) rest)

  -- `RealNvmlCollector::collect_gres_snapshot`
  unfoldable pub nvml_snapshot : Text → NvmlLib → Result ServerGresSnapshot ErrorCode
  unfolding collect_devices
  nvml_snapshot hostname nvml = elim nvml.device_count [
    | none ↦ err nvml_unavailable
    | some count ↦
        map_ok
          (λ gres.
            let s : ServerGresSnapshot = record {
              hostname = hostname;
              driver_version = nvml.sys_driver_version;
              gres = gres;
            } in
            s)
          (collect_devices nvml 0 (min count 255))
  ]

  -- `RealNvmlCollector::collect_gres`
  unfoldable pub nvml_collect_gres : Text → NvmlLib → Result GresNodeSnapshot ErrorCode
  unfolding nvml_snapshot
  nvml_collect_gres hostname nvml = map_ok from_gres_snapshot (nvml_snapshot hostname nvml)
