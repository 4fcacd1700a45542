-- ===== src/Udp/Reassembler/Isolation.antt =====
-- Datagrams of one request touch no other request's group, and what comes out is a valid frame.
use gpustat4cluster.Base.{
  ℕ, List, [], ◌∷◌, ◌≡◌, ◌≢◌, some, ok, arith, Result-cases, inl, inr, drop, take, set,
}
use gpustat4cluster.Base.Bytes.{Bytes}
use gpustat4cluster.Protocol.FrameType.{frame_type_eq→eq}
use gpustat4cluster.Protocol.Header.{FrameHeader}
use gpustat4cluster.Protocol.Frame.{decode_frame}
use gpustat4cluster.Udp.Checksum.{Crc}
use gpustat4cluster.Udp.Chunk
use gpustat4cluster.Udp.Chunk.{UdpChunkHeader, UdpChunkError}
use gpustat4cluster.Udp.Reassembler.{
  ChunkGroup, Reassembler, lookup, store, group_for, finish, group_insert, insert, joined, filled,
  slot_of,
}

lookup-store_ne :
    (id other : ℕ) (g : ChunkGroup) (gs : List (ℕ × ChunkGroup))
    → id ≢ other
    → lookup other (store id g gs) ≡ lookup other gs
unfolding lookup store
lookup-store_ne id other g [] h = ground arith
lookup-store_ne id other g ((key, old) ∷ rest) h = ground (arith, lookup-store_ne id other g rest)

module _ (crc : Crc) where
  -- A datagram that is decoded changes no group but that of its own request id.
  pub lookup-insert_ne :
      (r : Reassembler) (datagram : Bytes) (h : UdpChunkHeader) (other : ℕ)
      → Chunk.decode datagram ≡ ok h
      → h.request_id ≢ other
      → lookup other (insert crc r datagram).0.groups ≡ lookup other r.groups
  unfolding insert
  lookup-insert_ne r datagram h other e ne = ground (
    arith,
    lookup-store_ne h.request_id other
        (group_insert crc (group_for r.groups h) h (drop 32 datagram)).0 r.groups ne,
  )

  finish_sound :
      (g : ChunkGroup) (bytes : Bytes)
      → finish crc g ≡ ok (some bytes)
      → (h : FrameHeader) × (payload : Bytes) × (decode_frame bytes ≡ ok (h, payload))
        × (h.frame_type ≡ g.frame_type)
        × (h.request_id ≡ g.request_id)
  unfolding finish
  finish_sound g bytes e =
      elim (Result-cases (decode_frame (take g.frame_len (joined (filled g.chunks))))) [
        | inl ((h, payload), d) ↦ (
          h,
          payload,
          ground (arith, d),
          ground (arith, d, frame_type_eq→eq h.frame_type g.frame_type),
          ground (arith, d),
        )
        | inr (x, d) ↦ absurd (ground (arith, d))
      ]

  -- Bytes that come out of the reassembler are decoded as a frame, of the type and the request id
  -- of the datagram that completed it.
  pub insert_sound :
      (r : Reassembler) (datagram bytes : Bytes) (c : UdpChunkHeader)
      → Chunk.decode datagram ≡ ok c
      → (insert crc r datagram).1 ≡ ok (some bytes)
      → (h : FrameHeader) × (payload : Bytes) × (decode_frame bytes ≡ ok (h, payload))
        × (h.frame_type ≡ c.frame_type)
        × (h.request_id ≡ c.request_id)
  unfolding insert group_insert
  insert_sound r datagram bytes c d e =
      let g = group_for r.groups c in
      let written : ChunkGroup = record g {
        chunks = set g.chunks c.chunk_id (some (slot_of c (drop 32 datagram)));
      } in
      let done : finish crc written ≡ ok (some bytes) = ground (arith, d) in
      let (h, payload, f, t, i) = finish_sound written bytes done in
      (
        h,
        payload,
        f,
        ground (arith, d, t, frame_type_eq→eq c.frame_type g.frame_type),
        ground (arith, d, i),
      )
