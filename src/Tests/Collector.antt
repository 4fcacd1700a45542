-- ===== src/Tests/Collector.antt =====
-- Collectors at concrete inputs.
use gpustat4cluster.Base.{
  ◌≡◌, ◌≢◌, ◌↔◌, refl, min, some, none, [], ◌∷◌, ok, All, length, arith, any,
}
use gpustat4cluster.Base.Bytes.{Bytes}
use gpustat4cluster.Base.Text.{text}
use gpustat4cluster.Snapshot.{metadata_of, runtime_of, to_snapshot}
use gpustat4cluster.Server.Collector.{
  GresResource, GresNodeSnapshot, nvml, from_gres_snapshot, into_gres_snapshot,
  validate_gres_node_snapshot_contract,
}
use gpustat4cluster.Server.Collector.Contract.{MeetsContract, IsDense, contract_lem}
use gpustat4cluster.Server.Collector.Nvml.{
  Device, NvmlLib, NvmlProcess, ProcFiles, used_bytes, nvml_collect_gres, nvml_snapshot,
  collect_devices, collect_device, collect_processes, collected_process,
}
use gpustat4cluster.Server.Collector.Nvml.Collected.{IsCollected, nvml_collect_gres-IsCollected}
use gpustat4cluster.Server.Collector.Fixture.{
  TestGresInventoryResource, TestGresRuntimeState, snapshot_from_inventory_runtime,
  runtime_for_tick,
}
use gpustat4cluster.Server.Collector.Fixture.Runs.{later_tick_refused}
use gpustat4cluster.Server.Collector.Fixture.Mapped.{
  StateJson, write_runtime_mmap, read_runtime_mmap, read_runtime_mmap-write_runtime_mmap,
}

abbrev resource : GresResource
resource = record {
  kind = nvml;
  index = 0;
  name = text "A100";
  uuid = some (text "u");
  temperature_c = none;
  memory_used_mb = 3;
  memory_total_mb = 80;
  utilization_gres_percent = 5;
  utilization_memory_percent = 6;
  processes = record { pid = 7; uid = 0; used_memory_mb = 2 } ∷ [];
}

abbrev collected : GresNodeSnapshot
collected = record { hostname = text "n1"; driver_version = none; resources = resource ∷ [] }

contract_lem_example :
    (validate_gres_node_snapshot_contract collected ≡ ok tt) ↔ MeetsContract collected
contract_lem_example = contract_lem collected

-- A device with the process 7 in both lists.
abbrev running : NvmlProcess
running = record { pid = 7; used_gpu_memory = used_bytes 2097152 }

abbrev device : Device
device = record {
  utilization_rates = some (120, 4);
  memory_info = some (3145728, 83886080);
  temperature = some 40;
  name = none;
  uuid = none;
  running_compute_processes = some (running ∷ []);
  running_graphics_processes = some (running ∷ []);
}

abbrev library : NvmlLib
library = record {
  device_count = some 1;
  device_by_index = λ index. some device;
  sys_driver_version = none;
}

abbrev no_files : ProcFiles
no_files = record { comm = λ pid. none; status = λ pid. none }

abbrev answer : GresNodeSnapshot
answer = record {
  hostname = text "n1";
  driver_version = none;
  resources =
      record {
        kind = nvml;
        index = 0;
        name = text "unknown";
        uuid = none;
        temperature_c = some 40;
        memory_used_mb = 3;
        memory_total_mb = 80;
        utilization_gres_percent = 100;
        utilization_memory_percent = 4;
        processes = record { pid = 7; uid = 4294967295; used_memory_mb = 2 } ∷ [];
      }
      ∷ [];
}

answered : nvml_collect_gres no_files (text "n1") library ≡ ok answer
unfolding nvml_collect_gres nvml_snapshot collect_devices collect_device collect_processes
    collected_process from_gres_snapshot any
answered = refl

nvml_collect_gres-IsCollected_example :
    IsDense 0 answer.resources
    × (length answer.resources ≡ min 1 255)
    × All IsCollected answer.resources
    × (to_snapshot
          (runtime_of (into_gres_snapshot answer))
          (metadata_of (into_gres_snapshot answer))
        ≡ into_gres_snapshot answer)
nvml_collect_gres-IsCollected_example =
    nvml_collect_gres-IsCollected no_files library (text "n1") 1 answer refl answered

abbrev exact : TestGresInventoryResource
exact = record { index = 0; name = text "Test"; uuid = none; memory_total_mb = 768 }

later_tick_refused_example :
    validate_gres_node_snapshot_contract (
      snapshot_from_inventory_runtime
        (record { hostname = text "n1"; driver_version = none; gres = exact ∷ [] })
        (runtime_for_tick
          (record { hostname = text "n1"; driver_version = none; gres = exact ∷ [] })
          1))
    ≢ ok tt
later_tick_refused_example = later_tick_refused (text "n1") none exact 1 refl (omega arith)

abbrev idle : TestGresRuntimeState
idle = record { gres = [] }

-- A state is written as one byte here.
abbrev state_json : StateJson
state_json = record {
  state_to_vec = λ state. some (5 ∷ []);
  state_from_slice = λ bytes. some idle;
  inventory_from_str = λ bytes. none;
}

read_runtime_mmap-write_runtime_mmap_example :
    (written : Bytes) × (write_runtime_mmap state_json
        (0 ∷ 0 ∷ 0 ∷ 0 ∷ 0 ∷ 0 ∷ 0 ∷ 0 ∷ 0 ∷ 0 ∷ [])
        idle
      ≡ ok written)
    × (length written ≡ 10)
    × (read_runtime_mmap state_json written ≡ ok idle)
read_runtime_mmap-write_runtime_mmap_example =
    read_runtime_mmap-write_runtime_mmap state_json (0 ∷ 0 ∷ 0 ∷ 0 ∷ 0 ∷ 0 ∷ 0 ∷ 0 ∷ 0 ∷ 0 ∷ [])
      (5 ∷ []) idle refl refl (omega arith) (omega arith) (omega arith)
