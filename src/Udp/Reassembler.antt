-- ===== src/Udp/Reassembler.antt =====
-- crates/common/src/udp.rs: datagrams put together to frames, one group for each request id.
pub mod Slots
pub mod Delivery
pub mod Isolation
pub mod Invariant
use gpustat4cluster.Base.{
  ℕ, ◌+◌, List, [], ◌∷◌, ◌++◌, Bool, true, false, not, ◌||◌, ◌&&◌, leb, ◌==◌, if◌then◌else◌, Option,
  none, some, zero, suc, Result, ok, err, ◌>>=◌, map_err, length, take, drop, get_or, set,
  replicate,
}
use gpustat4cluster.Base.Bytes.{Bytes}
use gpustat4cluster.Protocol.FrameType.{FrameType, frame_type_eq}
use gpustat4cluster.Protocol.Frame.{decode_frame}
use gpustat4cluster.Udp.Checksum.{Crc}
use gpustat4cluster.Udp.Chunk
use gpustat4cluster.Udp.Chunk.{
  UdpChunkHeader, UdpChunkError, frame, checksum_mismatch, metadata_mismatch, udp_chunk_header_len,
}
use gpustat4cluster.Udp.Split.{prev_index, next_index}

pub record ChunkSlot : Type 0 where
  pub payload : Bytes
  pub prev_checksum : ℕ
  pub next_checksum : ℕ

pub record ChunkGroup : Type 0 where
  pub frame_type : FrameType
  pub request_id : ℕ
  pub frame_len : ℕ
  pub total_chunks : ℕ
  pub chunks : List (Option ChunkSlot)

unfoldable pub new_group : FrameType → ℕ → ℕ → ℕ → ChunkGroup
new_group frame_type request_id frame_len total_chunks = record {
  frame_type = frame_type;
  request_id = request_id;
  frame_len = frame_len;
  total_chunks = total_chunks;
  chunks = replicate total_chunks none;
}

-- `self.chunks.iter().all(Option::is_some)`
unfoldable pub is_complete : List (Option ChunkSlot) → Bool
is_complete [] = true
is_complete (none ∷ rest) = false
is_complete (some slot ∷ rest) = is_complete rest

-- `self.chunks.iter().flatten()`
unfoldable pub filled : List (Option ChunkSlot) → List ChunkSlot
filled [] = []
filled (none ∷ rest) = filled rest
filled (some slot ∷ rest) = slot ∷ filled rest

-- The payloads in a row.
unfoldable pub joined : List ChunkSlot → Bytes
joined [] = []
joined (slot ∷ rest) = slot.payload ++ joined rest

abbrev pub slot_of : UdpChunkHeader → Bytes → ChunkSlot
slot_of header payload = record {
  payload = payload;
  prev_checksum = header.prev_checksum;
  next_checksum = header.next_checksum;
}

-- The test by which a group refuses a chunk.
abbrev pub differs : ChunkGroup → UdpChunkHeader → Bool
differs group header =
    not (frame_type_eq header.frame_type group.frame_type)
    || not (header.request_id == group.request_id)
    || not (header.frame_len == group.frame_len)
    || not (header.total_chunks == group.total_chunks)

pub record Reassembler : Type 0 where
  pub deadline : ℕ
  pub groups : List (ℕ × ChunkGroup)

-- `Instant::now()` is an argument.
unfoldable pub new : ℕ → ℕ → Reassembler
new now timeout = record { deadline = now + timeout; groups = [] }

unfoldable pub is_expired : ℕ → Reassembler → Bool
is_expired now self = leb self.deadline now

unfoldable pub lookup : ℕ → List (ℕ × ChunkGroup) → Option ChunkGroup
lookup id [] = none
lookup id ((key, group) ∷ rest) = if key == id then some group else lookup id rest

unfoldable pub store : ℕ → ChunkGroup → List (ℕ × ChunkGroup) → List (ℕ × ChunkGroup)
store id group [] = (id, group) ∷ []
store id group ((key, old) ∷ rest) =
    if key == id then (id, group) ∷ rest else (key, old) ∷ store id group rest

-- `groups.entry(header.request_id).or_insert_with(...)`
unfoldable pub group_for : List (ℕ × ChunkGroup) → UdpChunkHeader → ChunkGroup
unfolding lookup new_group
group_for groups header = elim (lookup header.request_id groups) [
  | none ↦ new_group header.frame_type header.request_id header.frame_len header.total_chunks
  | some group ↦ group
]

module _ (crc : Crc) where
  -- `expect("complete")` cannot fail where all slots are filled; the empty slot stands for the panic.
  abbrev empty_slot : ChunkSlot
  empty_slot = record { payload = []; prev_checksum = 0; next_checksum = 0 }

  -- One round of the loop of `verify_all`, over the filled slots.
  unfoldable pub verify_slot : List ChunkSlot → ℕ → Bool
  verify_slot slots idx =
      let slot = get_or slots idx empty_slot in
      let prev_slot = get_or slots (prev_index (length slots) idx) empty_slot in
      let next_slot = get_or slots (next_index (length slots) idx) empty_slot in
      (crc.hash prev_slot.payload == slot.prev_checksum)
      && (crc.hash next_slot.payload == slot.next_checksum)

  -- The rounds left, from index `idx` on.
  unfoldable pub verify_from : List ChunkSlot → ℕ → ℕ → Bool
  verify_from slots zero idx = true
  verify_from slots (suc rounds) idx = verify_slot slots idx && verify_from slots rounds (idx + 1)

  unfoldable pub verify_all : List ChunkSlot → Bool
  verify_all slots = verify_from slots (length slots) 0

  -- What follows the write of a slot.
  unfoldable pub finish : ChunkGroup → Result (Option Bytes) UdpChunkError
  finish group =
      let slots = filled group.chunks in
      let bytes = take group.frame_len (joined slots) in
      if not (is_complete group.chunks)
      then ok none
      else if not (verify_all slots)
      then err checksum_mismatch
      else do
        (decoded, payload) ← map_err frame (decode_frame bytes)
        if not (frame_type_eq decoded.frame_type group.frame_type)
              || not (decoded.request_id == group.request_id)
            then err metadata_mismatch
            else ok (some bytes)

  unfoldable pub group_insert :
      ChunkGroup → UdpChunkHeader → Bytes → ChunkGroup × Result (Option Bytes) UdpChunkError
  group_insert group header payload =
      let written = record group {
        chunks = set group.chunks header.chunk_id (some (slot_of header payload));
      } in
      if differs group header then (group, err metadata_mismatch) else (written, finish written)

  unfoldable pub insert : Reassembler → Bytes → Reassembler × Result (Option Bytes) UdpChunkError
  insert self datagram = elim (Chunk.decode datagram) [
    | err e ↦ (self, err e)
    | ok header ↦
        let payload = drop udp_chunk_header_len datagram in
        let (group, result) = group_insert (group_for self.groups header) header payload in
        (record self { groups = store header.request_id group self.groups }, result)
  ]
