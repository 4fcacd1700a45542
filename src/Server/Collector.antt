-- ===== src/Server/Collector.antt =====
-- crates/server/src/collector.rs: what a collector returns of its node, the conversion to the
-- snapshot of the protocol, and the contract that the snapshots of test collectors are checked by.
pub mod Convert
pub mod Contract
pub mod Rebuilt
pub mod Nvml
pub mod Fixture
use gpustat4cluster.Base.{
  ℕ, ◌+◌, ltb, ◌==◌, not, if◌then◌else◌, Bool, true, false, ◌&&◌, ◌||◌, Option, none, some, List,
  [], ◌∷◌, Result, ok, err, ◌>>=◌, map_ok, map,
}
use gpustat4cluster.Base.Text.{Text}
use gpustat4cluster.Base.Scan.{is_empty, trim, is_member}
use gpustat4cluster.ErrorCode.{ErrorCode}
use gpustat4cluster.Snapshot.{GresInfo, GresProcessInfo, ServerGresSnapshot}

pub data GresResourceKind : Type 0 where
  nvml : GresResourceKind

pub record GresProcess : Type 0 where
  pub pid : ℕ
  pub uid : ℕ
  pub used_memory_mb : ℕ

pub record GresResource : Type 0 where
  pub kind : GresResourceKind
  pub index : ℕ
  pub name : Text
  pub uuid : Option Text
  pub temperature_c : Option ℕ
  pub memory_used_mb : ℕ
  pub memory_total_mb : ℕ
  pub utilization_gres_percent : ℕ
  pub utilization_memory_percent : ℕ
  pub processes : List GresProcess

pub record GresNodeSnapshot : Type 0 where
  pub hostname : Text
  pub driver_version : Option Text
  pub resources : List GresResource

-- The closures of `from_gres_snapshot`.
unfoldable pub process_of : GresProcessInfo → GresProcess
process_of process = record {
  pid = process.pid;
  uid = process.uid;
  used_memory_mb = process.used_memory_mb;
}

unfoldable pub resource_of : GresInfo → GresResource
unfolding process_of
resource_of gres = record {
  kind = nvml;
  index = gres.index;
  name = gres.name;
  uuid = gres.uuid;
  temperature_c = gres.temperature_c;
  memory_used_mb = gres.memory.used_mb;
  memory_total_mb = gres.memory.total_mb;
  utilization_gres_percent = gres.utilization.gres_percent;
  utilization_memory_percent = gres.utilization.memory_percent;
  processes = map process_of gres.processes;
}

unfoldable pub from_gres_snapshot : ServerGresSnapshot → GresNodeSnapshot
unfolding resource_of
from_gres_snapshot snapshot = record {
  hostname = snapshot.hostname;
  driver_version = snapshot.driver_version;
  resources = map resource_of snapshot.gres;
}

-- The closures of `into_gres_snapshot`.
unfoldable pub info_of_process : GresProcess → GresProcessInfo
info_of_process process = record {
  pid = process.pid;
  uid = process.uid;
  command = none;
  used_memory_mb = process.used_memory_mb;
}

unfoldable pub info_of_resource : GresResource → GresInfo
unfolding info_of_process
info_of_resource resource = record {
  index = resource.index;
  name = resource.name;
  temperature_c = resource.temperature_c;
  uuid = resource.uuid;
  memory = record { used_mb = resource.memory_used_mb; total_mb = resource.memory_total_mb };
  utilization = record {
    gres_percent = resource.utilization_gres_percent;
    memory_percent = resource.utilization_memory_percent;
  };
  processes = map info_of_process resource.processes;
}

unfoldable pub into_gres_snapshot : GresNodeSnapshot → ServerGresSnapshot
unfolding info_of_resource
into_gres_snapshot self = record {
  hostname = self.hostname;
  driver_version = self.driver_version;
  gres = map info_of_resource self.resources;
}

-- `GresCollector::collect_gres_snapshot`, of what `collect_gres` returns.
unfoldable pub collect_gres_snapshot :
    Result GresNodeSnapshot ErrorCode → Result ServerGresSnapshot ErrorCode
unfolding into_gres_snapshot
collect_gres_snapshot collected = map_ok into_gres_snapshot collected

-- The errors of the contract, without their texts.
pub data ContractError : Type 0 where
  empty_hostname : ContractError
  empty_driver_version : ContractError
  not_dense : ℕ → ℕ → ContractError
  index_overflow : ContractError
  empty_name : ℕ → ContractError
  no_memory : ℕ → ContractError
  memory_exceeded : ℕ → ContractError
  gres_percent_exceeded : ℕ → ContractError
  memory_percent_exceeded : ℕ → ContractError
  empty_uuid : ℕ → ContractError
  duplicate_uuid : Text → ContractError
  zero_pid : ℕ → ContractError
  process_memory_exceeded : ℕ → ℕ → ContractError

abbrev pub is_blank : Text → Bool
is_blank t = is_empty (trim t)

-- The inner loop, over the processes of a resource.
unfoldable pub check_processes : ℕ → ℕ → List GresProcess → Result (Unit {0}) ContractError
check_processes index total [] = ok tt
check_processes index total (process ∷ rest) =
    let others = check_processes index total rest in
    if process.pid == 0
    then err (zero_pid index)
    else if ltb total process.used_memory_mb
    then err (process_memory_exceeded index process.pid)
    else others

-- The uuids seen so far, with the uuid of one more resource.
unfoldable pub insert_uuid : ℕ → Option Text → List Text → Result (List Text) ContractError
insert_uuid index none uuids = ok uuids
insert_uuid index (some uuid) uuids =
    if is_blank uuid
    then err (empty_uuid index)
    else if is_member uuid uuids
    then err (duplicate_uuid uuid)
    else ok (uuid ∷ uuids)

-- The checks of one resource on its own.
unfoldable pub check_fields : GresResource → Result (Unit {0}) ContractError
check_fields resource =
    if is_blank resource.name
    then err (empty_name resource.index)
    else if resource.memory_total_mb == 0
    then err (no_memory resource.index)
    else if ltb resource.memory_total_mb resource.memory_used_mb
    then err (memory_exceeded resource.index)
    else if ltb 100 resource.utilization_gres_percent
    then err (gres_percent_exceeded resource.index)
    else if ltb 100 resource.utilization_memory_percent
    then err (memory_percent_exceeded resource.index)
    else ok tt

-- The loop over the resources, with the index expected next and the uuids seen.
unfoldable pub check_resources : ℕ → List Text → List GresResource → Result (Unit {0}) ContractError
check_resources expected_index uuids [] = ok tt
check_resources expected_index uuids (resource ∷ rest) =
    let others = λ (seen : List Text). check_resources (expected_index + 1) seen rest in
    if not (resource.index == expected_index)
    then err (not_dense expected_index resource.index)
    else if expected_index == 255
    then err index_overflow
    else (check_fields resource >>= λ checked.
        (insert_uuid resource.index resource.uuid uuids >>= λ seen.
        (check_processes resource.index resource.memory_total_mb resource.processes >>= λ done.
        others seen)))

unfoldable pub validate_gres_node_snapshot_contract :
    GresNodeSnapshot → Result (Unit {0}) ContractError
unfolding check_resources
validate_gres_node_snapshot_contract snapshot =
    if is_blank snapshot.hostname
    then err empty_hostname
    else if (elim snapshot.driver_version [ none ↦ false | some version ↦ is_blank version ])
    then err empty_driver_version
    else check_resources 0 [] snapshot.resources
