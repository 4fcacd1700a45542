-- ===== src/Udp/Chunk.antt =====
-- crates/common/src/udp.rs: the header of a chunk.
pub mod Layout
use gpustat4cluster.Base.{
  ℕ, ◌+◌, ◌-◌, List, [], ◌∷◌, ◌++◌, not, ltb, leb, ◌==◌, if◌then◌else◌, Result, ok, err, ◌>>=◌,
  map_err, length, get_or,
}
use gpustat4cluster.Base.Bytes.{Bytes, slice, to_be_bytes, from_be_bytes, bytes_eq}
use gpustat4cluster.Protocol.FrameType.{FrameType, as_u8, try_from}
use gpustat4cluster.Protocol.Header.{protocol_version}
use gpustat4cluster.Protocol.Frame.{FrameDecodeError}

-- ASCII `G4U1`
abbrev pub udp_chunk_magic : Bytes
udp_chunk_magic = b'G' ∷ b'4' ∷ b'U' ∷ b'1' ∷ []

abbrev pub udp_chunk_header_len : ℕ
udp_chunk_header_len = 32

abbrev pub udp_min_payload : ℕ
udp_min_payload = 256

pub record UdpChunkHeader : Type 0 where
  pub version : ℕ
  pub frame_type : FrameType
  pub request_id : ℕ
  pub frame_len : ℕ
  pub chunk_id : ℕ
  pub total_chunks : ℕ
  pub payload_len : ℕ
  pub prev_checksum : ℕ
  pub next_checksum : ℕ

-- Fields in the order of the source: `got` then `min` or `len` then `max`.
pub data UdpChunkError : Type 0 where
  empty_frame : UdpChunkError
  payload_too_small : ℕ → ℕ → UdpChunkError
  payload_too_large : ℕ → ℕ → UdpChunkError
  too_many_chunks : ℕ → UdpChunkError
  frame_too_large : ℕ → UdpChunkError
  short_datagram : ℕ → ℕ → UdpChunkError
  bad_magic : UdpChunkError
  version_mismatch : ℕ → ℕ → UdpChunkError
  unknown_frame_type : ℕ → UdpChunkError
  invalid_chunk_layout : UdpChunkError
  payload_length_mismatch : ℕ → ℕ → UdpChunkError
  metadata_mismatch : UdpChunkError
  checksum_mismatch : UdpChunkError
  frame : FrameDecodeError → UdpChunkError

-- The fields fill the 32 bytes without gaps, in the order of their offsets.
unfoldable pub encode : UdpChunkHeader → Bytes
encode h =
    udp_chunk_magic
    ++ (h.version
        ∷ as_u8 h.frame_type
        ∷ (to_be_bytes 8 h.request_id
            ++ (to_be_bytes 4 h.frame_len
                ++ (to_be_bytes 2 h.chunk_id
                    ++ (to_be_bytes 2 h.total_chunks
                        ++ (to_be_bytes 2 h.payload_len
                            ++ (to_be_bytes 4 h.prev_checksum
                                ++ to_be_bytes 4 h.next_checksum)))))))

-- The tests behind the fields: at least one chunk, an id in range, the announced length.
unfoldable pub check_layout : Bytes → UdpChunkHeader → Result UdpChunkHeader UdpChunkError
check_layout input h =
    if h.total_chunks == 0
    then err invalid_chunk_layout
    else if leb h.total_chunks h.chunk_id
    then err invalid_chunk_layout
    else if not (length input == udp_chunk_header_len + h.payload_len)
    then err (payload_length_mismatch h.payload_len (length input - udp_chunk_header_len))
    else ok h

unfoldable pub decode : Bytes → Result UdpChunkHeader UdpChunkError
unfolding check_layout
decode input =
    if ltb (length input) udp_chunk_header_len
    then err (short_datagram (length input) udp_chunk_header_len)
    else if not (bytes_eq (slice input 0 4) udp_chunk_magic)
    then err bad_magic
    else let version = get_or input 4 0 in
      if not (version == protocol_version)
      then err (version_mismatch protocol_version version)
      else do
        frame_type ←
            map_err (λ _. unknown_frame_type (get_or input 5 0)) (try_from (get_or input 5 0))
        check_layout input (record {
          version = version;
          frame_type = frame_type;
          request_id = from_be_bytes (slice input 6 14);
          frame_len = from_be_bytes (slice input 14 18);
          chunk_id = from_be_bytes (slice input 18 20);
          total_chunks = from_be_bytes (slice input 20 22);
          payload_len = from_be_bytes (slice input 22 24);
          prev_checksum = from_be_bytes (slice input 24 28);
          next_checksum = from_be_bytes (slice input 28 32);
        })
