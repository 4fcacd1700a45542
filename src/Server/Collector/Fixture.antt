-- ===== src/Server/Collector/Fixture.antt =====
-- crates/server/src/collector.rs: `test_collector`, the collector of the debug build, whose resources
-- come from an inventory and whose load changes with a tick; ticks are small enough that no product
-- overflows.
pub mod Runs
pub mod Mapped
use gpustat4cluster.Base.{
  ℕ, zero, suc, ◌+◌, ◌-◌, ◌*◌, ◌/◌, ◌%◌, ◌^◌, min, max, ltb, leb, ◌&&◌, ◌==◌, if◌then◌else◌, Bool,
  true, false, Option, none, some, List, [], ◌∷◌, ◌++◌, Result, ok, err, ◌>>=◌, map, get_or,
}
use gpustat4cluster.Base.Text.{Text, text}
use gpustat4cluster.Base.Scan.{is_alphanumeric}
use gpustat4cluster.Base.Scan.Digits.{decimal, pad_decimal}
use gpustat4cluster.ErrorCode.{ErrorCode, config_invalid}
use gpustat4cluster.Server.Collector.{
  GresProcess, GresResource, GresNodeSnapshot, nvml, ContractError, empty_hostname, is_blank,
  validate_gres_node_snapshot_contract,
}

pub record TestGresInventoryResource : Type 0 where
  pub index : ℕ
  pub name : Text
  pub uuid : Option Text
  pub memory_total_mb : ℕ

pub record TestGresInventory : Type 0 where
  pub hostname : Text
  pub driver_version : Option Text
  pub gres : List TestGresInventoryResource

pub record TestGresRuntimeProcess : Type 0 where
  pub pid : ℕ
  pub uid : ℕ
  pub used_memory_mb : ℕ

pub record TestGresRuntimeResource : Type 0 where
  pub index : ℕ
  pub temperature_c : Option ℕ
  pub memory_used_mb : ℕ
  pub utilization_gres_percent : ℕ
  pub utilization_memory_percent : ℕ
  pub processes : List TestGresRuntimeProcess

pub record TestGresRuntimeState : Type 0 where
  pub gres : List TestGresRuntimeResource

abbrev max_used : ℕ → ℕ
max_used total = max (total - 1) 1

-- The memory in use: `tick * 257` does not overflow below 2^55 ticks.
unfoldable pub used_memory : ℕ → ℕ → ℕ → ℕ
used_memory idx total tick =
    min (max ((1234 + idx * 512 + tick * 257) % max_used total) 1) (max_used total)

-- The closure of `runtime_for_tick`.
unfoldable pub runtime_resource : ℕ → TestGresInventoryResource → TestGresRuntimeResource
runtime_resource tick resource =
    let idx = resource.index in
    let used = used_memory idx resource.memory_total_mb tick in
    let base_util = max (87 - idx * 7) 1 in
    let memory_percent = min (used * 100) (2 ^ 64 - 1) / max resource.memory_total_mb 1 in
    record {
      index = idx;
      temperature_c = some (28 + (tick + idx) % 55);
      memory_used_mb = used;
      utilization_gres_percent = max ((base_util + tick * 13) % 101) 1;
      utilization_memory_percent = min memory_percent 100;
      processes =
          record {
            pid = 4242 + idx * 10;
            uid = 1000 + idx;
            used_memory_mb = 768 + idx * 128 + tick % 64;
          }
          ∷ record { pid = 4243 + idx * 10; uid = 2000 + idx; used_memory_mb = 128 }
          ∷ [];
    }

unfoldable pub runtime_for_tick : TestGresInventory → ℕ → TestGresRuntimeState
unfolding runtime_resource
runtime_for_tick inventory tick = record { gres = map (runtime_resource tick) inventory.gres }

unfoldable pub initial_runtime : TestGresInventory → TestGresRuntimeState
initial_runtime inventory = runtime_for_tick inventory 0

-- By bytes: of a character outside ASCII, which is a lead byte and continuation bytes, the lead
-- byte becomes the `-`.
unfoldable pub sanitize_uuid_part : Text → Text
sanitize_uuid_part [] = []
sanitize_uuid_part (ch ∷ input) =
    let rest = sanitize_uuid_part input in
    if leb 0x80 ch && ltb ch 0xc0 then rest else ((if is_alphanumeric ch then ch else b'-') ∷ rest)

abbrev test_uuid : Text → ℕ → Text
test_uuid hostname index =
    text "GRES-TEST-" ++ (sanitize_uuid_part hostname ++ (text "-" ++ pad_decimal 4 index))

-- The resources of an inventory, from `index` on.
unfoldable pub inventory_from : Text → (ℕ → ℕ) → ℕ → ℕ → List TestGresInventoryResource
inventory_from hostname memory index zero = []
inventory_from hostname memory index (suc count) =
    record {
      index = index;
      name = text "NVIDIA Test GPU " ++ decimal index;
      uuid = some (test_uuid hostname index);
      memory_total_mb = memory index;
    }
    ∷ inventory_from hostname memory (index + 1) count

unfoldable pub default_inventory : Text → ℕ → TestGresInventory
default_inventory hostname gres_count = record {
  hostname = hostname;
  driver_version = some (text "test-driver");
  gres = inventory_from hostname (λ index. 16384 + index * 1024) 0 gres_count;
}

abbrev pub memory_gib : List ℕ
memory_gib = 8 ∷ 16 ∷ 24 ∷ 36 ∷ 48 ∷ 80 ∷ 96 ∷ []

unfoldable pub deterministic_inventory : ℕ → Text → TestGresInventory
deterministic_inventory seed hostname = record {
  hostname = hostname;
  driver_version = some (text "test-driver-" ++ decimal seed);
  gres =
      inventory_from hostname (λ index. get_or memory_gib ((seed + index * 3) % 7) 0 * 1024) 0
        (seed % 8 + 1);
}

-- The map by index: of two runtime records with one index the later stays.
unfoldable pub runtime_by_index : ℕ → List TestGresRuntimeResource → Option TestGresRuntimeResource
runtime_by_index index [] = none
runtime_by_index index (resource ∷ rest) = elim (runtime_by_index index rest) [
  | some later ↦ some later
  | none ↦ if resource.index == index then some resource else none
]

unfoldable pub test_process : TestGresRuntimeProcess → GresProcess
test_process process = record {
  pid = process.pid;
  uid = process.uid;
  used_memory_mb = process.used_memory_mb;
}

-- The closure of `snapshot_from_inventory_runtime`, for one resource.
unfoldable pub test_resource :
    TestGresInventoryResource → Option TestGresRuntimeResource → GresResource
unfolding test_process
test_resource resource none = record {
  kind = nvml;
  index = resource.index;
  name = resource.name;
  uuid = resource.uuid;
  temperature_c = none;
  memory_used_mb = min 0 resource.memory_total_mb;
  memory_total_mb = resource.memory_total_mb;
  utilization_gres_percent = 0;
  utilization_memory_percent = 0;
  processes = [];
}
test_resource resource (some runtime) = record {
  kind = nvml;
  index = resource.index;
  name = resource.name;
  uuid = resource.uuid;
  temperature_c = runtime.temperature_c;
  memory_used_mb = min runtime.memory_used_mb resource.memory_total_mb;
  memory_total_mb = resource.memory_total_mb;
  utilization_gres_percent = min runtime.utilization_gres_percent 100;
  utilization_memory_percent = min runtime.utilization_memory_percent 100;
  processes = map test_process runtime.processes;
}

unfoldable pub snapshot_from_inventory_runtime :
    TestGresInventory → TestGresRuntimeState → GresNodeSnapshot
unfolding test_resource runtime_by_index
snapshot_from_inventory_runtime inventory runtime = record {
  hostname = inventory.hostname;
  driver_version = inventory.driver_version;
  resources =
      map (λ resource. test_resource resource (runtime_by_index resource.index runtime.gres))
        inventory.gres;
}

unfoldable pub validate_inventory : TestGresInventory → Result (Unit {0}) ContractError
validate_inventory inventory =
    if is_blank inventory.hostname
    then err empty_hostname
    else validate_gres_node_snapshot_contract
        (snapshot_from_inventory_runtime inventory (initial_runtime inventory))
