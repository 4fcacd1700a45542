-- ===== src/Udp/Single.antt =====
-- crates/common/src/udp.rs: a frame in one datagram.
pub mod RoundTrip
pub mod Parts
pub mod Whole
use gpustat4cluster.Base.{
  ℕ, ◌+◌, ◌-◌, ◌%◌, ◌^◌, ◌++◌, not, ◌||◌, ltb, ◌==◌, if◌then◌else◌, Option, none, some, Result, ok,
  err, ◌>>=◌, map_err, length, drop,
}
use gpustat4cluster.Base.Bytes.{Bytes}
use gpustat4cluster.Protocol.FrameType.{FrameType, frame_type_eq}
use gpustat4cluster.Protocol.Header
use gpustat4cluster.Protocol.Header.{protocol_version, frame_header_len}
use gpustat4cluster.Protocol.Frame.{decode_frame}
use gpustat4cluster.Udp.Checksum.{Crc}
use gpustat4cluster.Udp.Chunk
use gpustat4cluster.Udp.Chunk.{
  UdpChunkHeader, UdpChunkError, empty_frame, payload_too_large, frame_too_large, frame,
  checksum_mismatch, metadata_mismatch, udp_chunk_header_len,
}

-- The header that both encoders write: the one chunk is its own neighbour on both sides.
unfoldable pub single_header : FrameType → ℕ → ℕ → ℕ → UdpChunkHeader
single_header frame_type request_id frame_len checksum = record {
  version = protocol_version;
  frame_type = frame_type;
  request_id = request_id;
  frame_len = frame_len % 2 ^ 32;
  chunk_id = 0;
  total_chunks = 1;
  payload_len = frame_len % 2 ^ 16;
  prev_checksum = checksum;
  next_checksum = checksum;
}

module _ (crc : Crc) where
  unfoldable pub encode_udp_single_chunk : Bytes → Result Bytes UdpChunkError
  unfolding single_header
  encode_udp_single_chunk bytes =
      if length bytes == 0
      then err empty_frame
      else if ltb (2 ^ 16 - 1) (length bytes)
      then err (payload_too_large (length bytes) (2 ^ 16 - 1))
      else do
        (frame_header, payload) ← map_err frame (decode_frame bytes)
        if not (ltb (length bytes) (2 ^ 32))
            then err (frame_too_large (length bytes))
            else ok (
                Chunk.encode (
                  single_header frame_header.frame_type frame_header.request_id (length bytes)
                    (crc.hash bytes))
                ++ bytes)

  unfoldable pub encode_udp_single_chunk_from_parts :
      FrameType → ℕ → Bytes → Result Bytes UdpChunkError
  unfolding single_header
  encode_udp_single_chunk_from_parts frame_type request_id payload =
      if not (ltb (length payload) (2 ^ 32))
      then err (frame_too_large (length payload + frame_header_len))
      else if ltb (2 ^ 16 - 1) (frame_header_len + length payload)
      then err (payload_too_large (frame_header_len + length payload) (2 ^ 16 - 1))
      else let frame_header = Header.encode (Header.new frame_type request_id (length payload)) in
        let checksum = crc.finalize (crc.update (crc.update crc.start frame_header) payload) in
        ok (
          Chunk.encode
            (single_header frame_type request_id (frame_header_len + length payload) checksum)
          ++ (frame_header ++ payload))

  unfoldable pub decode_udp_single_chunk_ref : Bytes → Result (Option Bytes) UdpChunkError
  decode_udp_single_chunk_ref datagram = do
    header ← Chunk.decode datagram
    let bytes = drop udp_chunk_header_len datagram
    let checksum = crc.hash bytes
    if not (header.total_chunks == 1)
        then ok none
        else if not (header.prev_checksum == checksum) || not (header.next_checksum == checksum)
        then err checksum_mismatch
        else do
          (decoded, payload) ← map_err frame (decode_frame bytes)
          if not (frame_type_eq decoded.frame_type header.frame_type)
                || not (decoded.request_id == header.request_id)
              then err metadata_mismatch
              else ok (some bytes)
