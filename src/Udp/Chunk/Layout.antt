-- ===== src/Udp/Chunk/Layout.antt =====
-- A datagram that begins with a header's encoding is decoded to that header.
use gpustat4cluster.Base.{◌^◌, ◌<◌, ◌++◌, ◌+◌, ◌≡◌, refl, arith, ok, length, drop, drop-append}
use gpustat4cluster.Base.Bytes.{Bytes, bytes_eq, from_be_bytes-to_be_bytes}
use gpustat4cluster.Protocol.FrameType.{try_from-as_u8}
use gpustat4cluster.Protocol.Header.{protocol_version}
use gpustat4cluster.Udp.Chunk.{UdpChunkHeader, encode, decode}

-- The header of a chunk: each field in the range of its type, and an id below the total.
pub record IsChunkHeader (h : UdpChunkHeader) : Type 0 where
  pub current : h.version ≡ protocol_version
  pub request_id_u64 : h.request_id < 2 ^ 64
  pub frame_len_u32 : h.frame_len < 2 ^ 32
  pub total_chunks_u16 : h.total_chunks < 2 ^ 16
  pub payload_len_u16 : h.payload_len < 2 ^ 16
  pub prev_checksum_u32 : h.prev_checksum < 2 ^ 32
  pub next_checksum_u32 : h.next_checksum < 2 ^ 32
  pub in_range : h.chunk_id < h.total_chunks

pub length-encode : (h : UdpChunkHeader) → length (encode h) ≡ 32
unfolding encode
length-encode h = refl

pub drop-encode : (h : UdpChunkHeader) (payload : Bytes) → drop 32 (encode h ++ payload) ≡ payload
drop-encode h payload = drop-append 32 (encode h) payload (length-encode h)

pub decode-encode :
    (h : UdpChunkHeader) (payload : Bytes)
    → IsChunkHeader h
    → length payload ≡ h.payload_len
    → decode (encode h ++ payload) ≡ ok h
unfolding decode encode bytes_eq
decode-encode h payload v len = ground (
  arith,
  try_from-as_u8 h.frame_type,
  from_be_bytes-to_be_bytes 8 h.request_id,
  from_be_bytes-to_be_bytes 4 h.frame_len,
  from_be_bytes-to_be_bytes 2 h.chunk_id,
  from_be_bytes-to_be_bytes 2 h.total_chunks,
  from_be_bytes-to_be_bytes 2 h.payload_len,
  from_be_bytes-to_be_bytes 4 h.prev_checksum,
  from_be_bytes-to_be_bytes 4 h.next_checksum,
)

-- A datagram is accepted only with an id below its total, and with the length that it announces.
pub decode_accepts :
    (datagram : Bytes) (h : UdpChunkHeader)
    → decode datagram ≡ ok h
    → (h.chunk_id < h.total_chunks) × (length datagram ≡ 32 + h.payload_len)
unfolding decode
decode_accepts datagram h e = ground arith
