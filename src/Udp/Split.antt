-- ===== src/Udp/Split.antt =====
-- crates/common/src/udp.rs: a frame cut into datagrams.
pub mod Cut
pub mod Size
use gpustat4cluster.Base.{
  ℕ, ◌+◌, ◌-◌, ◌/◌, ◌%◌, ◌^◌, List, [], ◌∷◌, ◌++◌, not, ltb, ◌==◌, if◌then◌else◌, map, Result, ok,
  err, ◌>>=◌, map_err, length, get_or,
}
use gpustat4cluster.Base.Bytes.{Bytes}
use gpustat4cluster.Base.Chunks.{chunks}
use gpustat4cluster.Protocol.Header.{FrameHeader, protocol_version}
use gpustat4cluster.Protocol.Frame.{decode_frame}
use gpustat4cluster.Udp.Checksum.{Crc}
use gpustat4cluster.Udp.Chunk
use gpustat4cluster.Udp.Chunk.{
  UdpChunkHeader, UdpChunkError, empty_frame, payload_too_small, too_many_chunks, frame_too_large,
  frame, udp_min_payload,
}

-- `usize::div_ceil`
abbrev pub div_ceil : ℕ → ℕ → ℕ
div_ceil a b = (a + b - 1) / b

-- The neighbours of chunk `idx` on the ring of `total` chunks.
abbrev pub prev_index : ℕ → ℕ → ℕ
prev_index total idx = if idx == 0 then total - 1 else idx - 1

abbrev pub next_index : ℕ → ℕ → ℕ
next_index total idx = if (idx + 1) == total then 0 else idx + 1

-- The body of the loop: the header of chunk `idx`, for the checksums of all chunks.
unfoldable pub chunk_header : FrameHeader → ℕ → List ℕ → ℕ → Bytes → UdpChunkHeader
chunk_header frame_header frame_len checksums idx payload = record {
  version = protocol_version;
  frame_type = frame_header.frame_type;
  request_id = frame_header.request_id;
  frame_len = frame_len;
  chunk_id = idx % 2 ^ 16;
  total_chunks = length checksums % 2 ^ 16;
  payload_len = length payload % 2 ^ 16;
  prev_checksum = get_or checksums (prev_index (length checksums) idx) 0;
  next_checksum = get_or checksums (next_index (length checksums) idx) 0;
}

-- The loop over the chunks from number `idx` on.
unfoldable pub datagrams : FrameHeader → ℕ → List ℕ → ℕ → List Bytes → List Bytes
datagrams frame_header frame_len checksums idx [] = []
datagrams frame_header frame_len checksums idx (payload ∷ rest) =
    (Chunk.encode (chunk_header frame_header frame_len checksums idx payload) ++ payload)
    ∷ datagrams frame_header frame_len checksums (idx + 1) rest

module _ (crc : Crc) where
  unfoldable pub encode_udp_chunks : Bytes → ℕ → Result (List Bytes) UdpChunkError
  encode_udp_chunks bytes max_payload =
      if length bytes == 0
      then err empty_frame
      else if ltb max_payload udp_min_payload
      then err (payload_too_small max_payload udp_min_payload)
      else do
        (frame_header, payload) ← map_err frame (decode_frame bytes)
        if not (ltb (length bytes) (2 ^ 32))
            then err (frame_too_large (length bytes))
            else if ltb (2 ^ 16 - 1) (div_ceil (length bytes) max_payload)
            then err (too_many_chunks (div_ceil (length bytes) max_payload))
            else let pieces = chunks max_payload bytes in
              ok (datagrams frame_header (length bytes) (map crc.hash pieces) 0 pieces)
