-- ===== src/Server/Collector/Fixture/Mapped.antt =====
-- crates/server/src/collector.rs: the file through which the runtime state of the debug collector is
-- passed on, and the collector that reads it. The file's bytes are mapped into memory. A length in
-- the file that is within 8 of 2^64, where the sum with the header's length overflows, is left out.
use gpustat4cluster.Base.{
  ℕ, zero, suc, ◌+◌, ◌-◌, ◌*◌, ◌/◌, ◌^◌, ◌≤◌, ◌<◌, ◌≡◌, refl, ap, ◌∙◌, ltb, ◌==◌, ◌||◌,
  if◌then◌else◌, Bool, Option, none, some, [], ◌∷◌, ◌++◌, Result, ok, err, ◌>>=◌, length, take,
  drop, replicate, arith, take-append, drop-append, length-append, length-drop,
}
use native.Mathlib.Nat.{pow-suc}
use gpustat4cluster.Base.Bytes.{Bytes, slice, to_le_bytes}
use gpustat4cluster.Base.Text.{Text}
use gpustat4cluster.ErrorCode.{ErrorCode, config_invalid}
use gpustat4cluster.Server.Collector.{GresNodeSnapshot}
use gpustat4cluster.Server.Collector.Fixture.{
  TestGresInventory, TestGresRuntimeState, initial_runtime, snapshot_from_inventory_runtime,
  validate_inventory,
}

-- `u64::from_le_bytes`
abbrev pub from_le_bytes : Bytes → ℕ
from_le_bytes [] = 0
from_le_bytes (b ∷ bs) = b + 256 * from_le_bytes bs

abbrev pub runtime_header_len : ℕ
runtime_header_len = 8

-- `serde_json` of the runtime state and of the inventory.
pub record StateJson : Type 0 where
  pub state_to_vec : TestGresRuntimeState → Option Bytes
  pub state_from_slice : Bytes → Option TestGresRuntimeState
  pub inventory_from_str : Bytes → Option TestGresInventory

pub data MappedError : Type 0 where
  not_encoded too_small invalid_length not_parsed no_capacity : MappedError

-- `init_runtime_file`: a file of zeros.
unfoldable pub init_runtime_file : ℕ → Bytes
init_runtime_file capacity = replicate capacity 0

module _ (json : StateJson) where
  -- The file after the write.
  unfoldable pub write_runtime_mmap : Bytes → TestGresRuntimeState → Result Bytes MappedError
  write_runtime_mmap mmap state = elim (json.state_to_vec state) [
    | none ↦ err not_encoded
    | some payload ↦
        if ltb (length mmap) (runtime_header_len + length payload)
        then err no_capacity
        else ok (
            to_le_bytes 8 (length payload)
            ++ (payload ++ drop (runtime_header_len + length payload) mmap))
  ]

  unfoldable pub read_runtime_mmap : Bytes → Result TestGresRuntimeState MappedError
  read_runtime_mmap mmap =
      let len = from_le_bytes (take runtime_header_len mmap) in
      if ltb (length mmap) runtime_header_len
      then err too_small
      else if (len == 0) || ltb (length mmap) (runtime_header_len + len)
      then err invalid_length
      else elim (json.state_from_slice (slice mmap runtime_header_len (runtime_header_len + len))) [
        | none ↦ err not_parsed
        | some state ↦ ok state
      ]

  -- `read_inventory_file`, of what reading the file gives.
  unfoldable pub read_inventory_file : Option Bytes → Option TestGresInventory
  read_inventory_file none = none
  read_inventory_file (some raw) = elim (json.inventory_from_str raw) [
    | none ↦ none
    | some inventory ↦ elim (validate_inventory inventory) [
      | err e ↦ none
      | ok done ↦ some inventory
    ]
  ]

pub record TestGresCollector : Type 0 where
  pub inventory : TestGresInventory
  pub inventory_path : Option Text
  pub reload_inventory : Bool
  pub runtime_path : Option Text

module _ (json : StateJson) (read_file : Text → Option Bytes) where
  -- The inventory of `collect_gres`.
  unfoldable pub current_inventory : TestGresCollector → Result TestGresInventory ErrorCode
  unfolding read_inventory_file
  current_inventory self =
      if self.reload_inventory
      then (elim self.inventory_path [
        | none ↦ err config_invalid
        | some path ↦ elim (read_inventory_file json (read_file path)) [
          | none ↦ err config_invalid
          | some inventory ↦ ok inventory
        ]
      ])
      else ok self.inventory

  -- The runtime state of `collect_gres`: what the file holds, and else that of the first tick.
  unfoldable pub current_runtime : TestGresCollector → TestGresInventory → TestGresRuntimeState
  current_runtime self inventory = elim self.runtime_path [
    | none ↦ initial_runtime inventory
    | some path ↦ elim (read_file path) [
      | none ↦ initial_runtime inventory
      | some mmap ↦ elim (read_runtime_mmap json mmap) [
        | err e ↦ initial_runtime inventory
        | ok state ↦ state
      ]
    ]
  ]

  -- `TestGresCollector::collect_gres`
  unfoldable pub test_collect_gres : TestGresCollector → Result GresNodeSnapshot ErrorCode
  unfolding current_inventory current_runtime
  test_collect_gres self = current_inventory self >>= λ inventory.
      ok (snapshot_from_inventory_runtime inventory (current_runtime self inventory))

from_le_bytes-to_le_bytes : (k v : ℕ) → v < 256 ^ k → from_le_bytes (to_le_bytes k v) ≡ v
from_le_bytes-to_le_bytes zero v h = omega arith
from_le_bytes-to_le_bytes (suc k) v h =
    let low : v / 256 < 256 ^ k = omega (arith, pow-suc 256 k, h) in
    omega (arith, from_le_bytes-to_le_bytes k (v / 256) low)

length-to_le_bytes : (k v : ℕ) → length (to_le_bytes k v) ≡ k
length-to_le_bytes zero v = refl
length-to_le_bytes (suc k) v = ap suc (length-to_le_bytes k (v / 256))

read_mapped :
    (json : StateJson) (mmap payload : Bytes) (state : TestGresRuntimeState)
    → from_le_bytes (take runtime_header_len mmap) ≡ length payload
    → slice mmap runtime_header_len (runtime_header_len + length payload) ≡ payload
    → 0 < length payload
    → runtime_header_len + length payload ≤ length mmap
    → json.state_from_slice payload ≡ some state
    → read_runtime_mmap json mmap ≡ ok state
unfolding read_runtime_mmap
read_mapped json mmap payload state len body some_ room parsed =
    let parsed' = ap json.state_from_slice body ∙ parsed in rw len (ground arith)

-- A runtime state that is written to a mapped file is read back, and the file keeps its length, if
-- the state's text is not empty and is parsed as the state, the header and the text fit into the
-- file, and the file is shorter than 2^64 bytes.
pub read_runtime_mmap-write_runtime_mmap :
    (json : StateJson) (mmap payload : Bytes) (state : TestGresRuntimeState)
    → json.state_to_vec state ≡ some payload
    → json.state_from_slice payload ≡ some state
    → 0 < length payload
    → runtime_header_len + length payload ≤ length mmap
    → length mmap < 2 ^ 64
    → (written : Bytes) × (write_runtime_mmap json mmap state ≡ ok written)
      × (length written ≡ length mmap)
      × (read_runtime_mmap json written ≡ ok state)
unfolding write_runtime_mmap read_runtime_mmap
read_runtime_mmap-write_runtime_mmap json mmap payload state encoded parsed some_ room few =
    let behind = drop (runtime_header_len + length payload) mmap in
    let header = to_le_bytes 8 (length payload) in
    let written = header ++ (payload ++ behind) in
    let head_len = length-to_le_bytes 8 (length payload) in
    let head : take runtime_header_len written ≡ header =
      take-append 8 header (payload ++ behind) head_len in
    let rest : drop runtime_header_len written ≡ payload ++ behind =
      drop-append 8 header (payload ++ behind) head_len in
    let len : from_le_bytes (take runtime_header_len written) ≡ length payload =
      ap from_le_bytes head ∙ from_le_bytes-to_le_bytes 8 (length payload) (omega arith) in
    let body : slice written runtime_header_len (runtime_header_len + length payload) ≡ payload =
      ap (take (runtime_header_len + length payload - runtime_header_len)) rest
      ∙ take-append (runtime_header_len + length payload - runtime_header_len) payload behind
          (omega arith) in
    let total : length written ≡ length mmap = omega (
      arith,
      length-append header (payload ++ behind),
      length-append payload behind,
      length-drop (runtime_header_len + length payload) mmap,
    ) in
    (
      written,
      ground arith,
      total,
      read_mapped json written payload state len body some_ (omega arith) parsed,
    )
