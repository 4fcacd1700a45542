-- ===== src/Snapshot.antt =====
-- crates/common/src/protocol.rs: a node's snapshot, and its division into metadata that seldom
-- change and a runtime part that is sent on every query.
pub mod Rebuild
use Prim.Native.Nat.{bit_xor}
use mathlib.Core.List.{foldl}
use mathlib.Core.Option
use gpustat4cluster.Base.{
  ℕ, ◌*◌, ◌%◌, ◌^◌, List, [], ◌∷◌, Option, none, some, ◌==◌, if◌then◌else◌, map,
}
use gpustat4cluster.Base.Bytes.{Bytes, to_le_bytes}
use gpustat4cluster.Base.Text.{Text, text}

pub record GresMemory : Type 0 where
  pub used_mb : ℕ
  pub total_mb : ℕ

pub record GresUtilization : Type 0 where
  pub gres_percent : ℕ
  pub memory_percent : ℕ

pub record GresProcessInfo : Type 0 where
  pub pid : ℕ
  pub uid : ℕ
  pub command : Option Text
  pub used_memory_mb : ℕ

pub record GresInfo : Type 0 where
  pub index : ℕ
  pub name : Text
  pub temperature_c : Option ℕ
  pub uuid : Option Text
  pub memory : GresMemory
  pub utilization : GresUtilization
  pub processes : List GresProcessInfo

pub record ServerGresSnapshot : Type 0 where
  pub hostname : Text
  pub driver_version : Option Text
  pub gres : List GresInfo

pub record GresStaticInfo : Type 0 where
  pub index : ℕ
  pub name : Text
  pub uuid : Option Text
  pub memory_total_mb : ℕ

pub record HostMetadata : Type 0 where
  pub hostname : Text
  pub driver_version : Option Text
  pub gres : List GresStaticInfo

pub record GresProcessRuntimeInfo : Type 0 where
  pub pid : ℕ
  pub uid : ℕ
  pub used_memory_mb : ℕ

pub record GresRuntimeInfo : Type 0 where
  pub index : ℕ
  pub temperature_c : Option ℕ
  pub memory_used_mb : ℕ
  pub utilization : GresUtilization
  pub processes : List GresProcessRuntimeInfo

pub record RuntimeSnapshot : Type 0 where
  pub metadata_hash : ℕ
  pub gres : List GresRuntimeInfo

-- The closures of `HostMetadata::from_snapshot` and `RuntimeSnapshot::from_snapshot`.
unfoldable pub static_info : GresInfo → GresStaticInfo
static_info gres = record {
  index = gres.index;
  name = gres.name;
  uuid = gres.uuid;
  memory_total_mb = gres.memory.total_mb;
}

unfoldable pub process_runtime : GresProcessInfo → GresProcessRuntimeInfo
process_runtime process = record {
  pid = process.pid;
  uid = process.uid;
  used_memory_mb = process.used_memory_mb;
}

unfoldable pub runtime_info : GresInfo → GresRuntimeInfo
unfolding process_runtime
runtime_info gres = record {
  index = gres.index;
  temperature_c = gres.temperature_c;
  memory_used_mb = gres.memory.used_mb;
  utilization = gres.utilization;
  processes = map process_runtime gres.processes;
}

-- `HostMetadata::from_snapshot`
unfoldable pub metadata_of : ServerGresSnapshot → HostMetadata
metadata_of snapshot = record {
  hostname = snapshot.hostname;
  driver_version = snapshot.driver_version;
  gres = map static_info snapshot.gres;
}

-- One byte of the FNV-1a hash: `hash ^= byte`, then `wrapping_mul`.
unfoldable pub hash_byte : ℕ → ℕ → ℕ
hash_byte hash byte = bit_xor hash byte * 0x100000001b3 % 2 ^ 64

-- The bytes of one field, and the byte 0xff behind them.
unfoldable pub write_bytes : ℕ → Bytes → ℕ
unfolding hash_byte
write_bytes hash bytes = hash_byte (foldl hash_byte hash bytes) 0xff

-- An absent text is written as an empty one.
unfoldable pub write_optional : ℕ → Option Text → ℕ
write_optional hash none = write_bytes hash []
write_optional hash (some t) = write_bytes hash t

unfoldable pub write_static : ℕ → GresStaticInfo → ℕ
write_static hash gres =
    write_bytes
      (write_optional (write_bytes (write_bytes hash (gres.index ∷ [])) gres.name) gres.uuid)
      (to_le_bytes 8 gres.memory_total_mb)

-- `HostMetadata::metadata_hash`
unfoldable pub metadata_hash : HostMetadata → ℕ
metadata_hash self =
    foldl write_static
      (write_optional (write_bytes 0xcbf29ce484222325 self.hostname) self.driver_version) self.gres

-- `RuntimeSnapshot::from_snapshot`
unfoldable pub runtime_of : ServerGresSnapshot → RuntimeSnapshot
runtime_of snapshot = record {
  metadata_hash = metadata_hash (metadata_of snapshot);
  gres = map runtime_info snapshot.gres;
}

-- `metadata.gres.iter().find(|gres| gres.index == runtime.index)`
unfoldable pub find_static : ℕ → List GresStaticInfo → Option GresStaticInfo
find_static index [] = none
find_static index (gres ∷ rest) = if gres.index == index then some gres else find_static index rest

unfoldable pub process_info : GresProcessRuntimeInfo → GresProcessInfo
process_info process = record {
  pid = process.pid;
  uid = process.uid;
  command = none;
  used_memory_mb = process.used_memory_mb;
}

-- A runtime record with its static part, `none` where the metadata have no such index.
unfoldable pub gres_info : GresRuntimeInfo → Option GresStaticInfo → GresInfo
unfolding process_info
gres_info runtime static = record {
  index = runtime.index;
  name = elim static [ none ↦ text "unknown" | some gres ↦ gres.name ];
  temperature_c = runtime.temperature_c;
  uuid = elim static [ none ↦ none | some gres ↦ gres.uuid ];
  memory = record {
    used_mb = runtime.memory_used_mb;
    total_mb = elim static [ none ↦ 0 | some gres ↦ gres.memory_total_mb ];
  };
  utilization = runtime.utilization;
  processes = map process_info runtime.processes;
}

-- `RuntimeSnapshot::to_snapshot`
unfoldable pub to_snapshot : RuntimeSnapshot → HostMetadata → ServerGresSnapshot
to_snapshot self metadata = record {
  hostname = metadata.hostname;
  driver_version = metadata.driver_version;
  gres = map (λ runtime. gres_info runtime (find_static runtime.index metadata.gres)) self.gres;
}

-- crates/server/src/cache.rs: `omit_process_commands`, the two nested loops.
unfoldable pub omit_command : GresProcessInfo → GresProcessInfo
omit_command process = record process { command = none }

unfoldable pub omit_commands : GresInfo → GresInfo
omit_commands gres = record gres { processes = map omit_command gres.processes }

unfoldable pub omit_process_commands : ServerGresSnapshot → ServerGresSnapshot
omit_process_commands snapshot = record snapshot { gres = map omit_commands snapshot.gres }
