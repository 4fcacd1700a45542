-- ===== src/Udp/Reassembler/Invariant.antt =====
-- Every slot index that is written exists: `self.chunks[idx]` does not panic.
use gpustat4cluster.Base.{
  ℕ, Option-cases, Option, ◌<◌, List, [], ◌∷◌, ◌≡◌, some, none, ok, arith, length, length-set,
  length-replicate, All, Result-cases, inl, inr, false, drop, Bool-cases, ◌==◌,
}
use gpustat4cluster.Base.Bytes.{Bytes}
use gpustat4cluster.Udp.Checksum.{Crc}
use gpustat4cluster.Udp.Chunk
use gpustat4cluster.Udp.Chunk.{UdpChunkHeader}
use gpustat4cluster.Udp.Chunk.Layout.{decode_accepts}
use gpustat4cluster.Udp.Reassembler.{
  ChunkSlot, ChunkGroup, Reassembler, new, differs, lookup, store, new_group, group_for,
  group_insert, insert, slot_of,
}

-- A group stands under its request id and has a slot for each of its chunks.
abbrev pub IsGroup : ℕ × ChunkGroup → Type 0
IsGroup (key, g) = (g.request_id ≡ key) × (length g.chunks ≡ g.total_chunks)

abbrev pub IsValid : Reassembler → Type 0
IsValid r = All IsGroup r.groups

pub new-IsValid : (now timeout : ℕ) → IsValid (new now timeout)
unfolding new
new-IsValid now timeout = tt

lookup-IsGroup :
    (id : ℕ) (gs : List (ℕ × ChunkGroup)) (g : ChunkGroup)
    → All IsGroup gs
    → lookup id gs ≡ some g
    → IsGroup (id, g)
unfolding lookup
lookup-IsGroup id [] g all e = absurd (ground arith)
lookup-IsGroup id ((key, old) ∷ rest) g all e = ground (arith, lookup-IsGroup id rest g)

store-IsGroup :
    (id : ℕ) (g : ChunkGroup) (gs : List (ℕ × ChunkGroup))
    → All IsGroup gs
    → IsGroup (id, g)
    → All IsGroup (store id g gs)
unfolding store
store-IsGroup id g [] all h = (h, tt)
store-IsGroup id g ((key, old) ∷ rest) all h = elim (Bool-cases (key == id)) [
  | inl same ↦ rw same (h, all.1)
  | inr other ↦ rw other (all.0, store-IsGroup id g rest all.1 h)
]

group_for-IsGroup :
    (gs : List (ℕ × ChunkGroup)) (h : UdpChunkHeader)
    → All IsGroup gs
    → IsGroup (h.request_id, group_for gs h)
unfolding group_for new_group
group_for-IsGroup gs h all = elim (Option-cases (lookup h.request_id gs)) [
  | inl fresh ↦ ground (arith, length-replicate {A = Option ChunkSlot} h.total_chunks none)
  | inr (g, found) ↦ ground (arith, lookup-IsGroup h.request_id gs g all found)
]

module _ (crc : Crc) where
  group_insert-IsGroup :
      (g : ChunkGroup) (h : UdpChunkHeader) (payload : Bytes) (id : ℕ)
      → IsGroup (id, g)
      → IsGroup (id, (group_insert crc g h payload).0)
  unfolding group_insert
  group_insert-IsGroup g h payload id v =
      ground (arith, length-set g.chunks h.chunk_id (some (slot_of h payload)))

  -- Any datagram, accepted or refused, keeps the reassembler valid: every group stands under its
  -- request id and has a slot for each of its chunks.
  pub insert-IsValid :
      (r : Reassembler) (datagram : Bytes) → IsValid r → IsValid (insert crc r datagram).0
  unfolding insert
  insert-IsValid r datagram v = elim (Result-cases (Chunk.decode datagram)) [
    | inl (h, d) ↦
        rw (d, insert)
          (store-IsGroup h.request_id
            (group_insert crc (group_for r.groups h) h (drop 32 datagram)).0 r.groups v
            (group_insert-IsGroup (group_for r.groups h) h (drop 32 datagram) h.request_id
              (group_for-IsGroup r.groups h v)))
    | inr (e, d) ↦ rw (d, insert) v
  ]

-- In a valid reassembler a datagram that is decoded and that its group does not refuse names a slot
-- that exists.
pub chunk_id-lt :
    (r : Reassembler) (datagram : Bytes) (h : UdpChunkHeader)
    → IsValid r
    → Chunk.decode datagram ≡ ok h
    → differs (group_for r.groups h) h ≡ false
    → h.chunk_id < length (group_for r.groups h).chunks
chunk_id-lt r datagram h v d same =
    ground (arith, decode_accepts datagram h d, group_for-IsGroup r.groups h v)
