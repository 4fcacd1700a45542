-- ===== src/Udp/Split/Size.antt =====
-- That a frame is cut, and how large the datagrams are.
use gpustat4cluster.Base.{
  ℕ, ◌+◌, ◌-◌, ◌/◌, ◌^◌, ◌≤◌, ◌<◌, List, [], ◌∷◌, ◌≡◌, ◌∙◌, arith, ok, map, length, length-append,
  All,
}
use gpustat4cluster.Base.Bytes.{Bytes}
use gpustat4cluster.Base.Chunks.{chunks, chunks-IsShort, length-chunks}
use gpustat4cluster.Protocol.Header.{FrameHeader}
use gpustat4cluster.Protocol.Frame.{decode_frame}
use gpustat4cluster.Udp.Checksum.{Crc}
use gpustat4cluster.Udp.Chunk
use gpustat4cluster.Udp.Chunk.Layout.{length-encode}
use gpustat4cluster.Udp.Split.{chunk_header, datagrams, encode_udp_chunks}
use gpustat4cluster.Udp.Split.Cut.{length-datagrams}

datagrams-All :
    (fh : FrameHeader) (len : ℕ) (sums : List ℕ) (idx n : ℕ) (ps : List Bytes)
    → All (λ p. length p ≤ n) ps
    → All (λ d. length d ≤ 32 + n) (datagrams fh len sums idx ps)
unfolding datagrams
datagrams-All fh len sums idx n [] all = tt
datagrams-All fh len sums idx n (p ∷ ps) all =
    let head = Chunk.encode (chunk_header fh len sums idx p) in
    (
      omega (arith, length-append head p, length-encode (chunk_header fh len sums idx p), all.0),
      datagrams-All fh len sums (idx + 1) n ps all.1,
    )

module _ (crc : Crc) where
  -- Bytes that are decoded as a frame, of a length from 1 to 2^32 - 1, are cut for a payload limit
  -- of at least 256 bytes, where the length divided by the limit, rounded up, is below 2^16: that
  -- quotient is the number of datagrams, and none is longer than the limit and its header of 32
  -- bytes.
  pub encode_udp_chunks_lem :
      (bytes : Bytes) (max_payload : ℕ) (h : FrameHeader) (payload : Bytes)
      → decode_frame bytes ≡ ok (h, payload)
      → 0 < length bytes
      → length bytes < 2 ^ 32
      → 256 ≤ max_payload
      → (length bytes + max_payload - 1) / max_payload < 2 ^ 16
      → (ds : List Bytes) × (encode_udp_chunks crc bytes max_payload ≡ ok ds)
        × (length ds ≡ (length bytes + max_payload - 1) / max_payload)
        × All (λ d. length d ≤ 32 + max_payload) ds
  unfolding encode_udp_chunks
  encode_udp_chunks_lem bytes max_payload h payload decoded some_bytes small room few =
      let pieces = chunks max_payload bytes in
      let ds = datagrams h (length bytes) (map crc.hash pieces) 0 pieces in
      (
        ds,
        ground (arith, decoded),
        length-datagrams h (length bytes) (map crc.hash pieces) 0 pieces
            ∙ length-chunks max_payload bytes (omega arith),
        datagrams-All h (length bytes) (map crc.hash pieces) 0 max_payload pieces
            (chunks-IsShort max_payload bytes),
      )
