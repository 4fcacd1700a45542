-- ===== src/Udp/Single/Parts.antt =====
-- The datagram built from parts is the datagram of the assembled frame.
use gpustat4cluster.Base.{ℕ, ◌+◌, ◌^◌, ◌<◌, ◌++◌, ◌≡◌, refl, arith, ok, length}
use gpustat4cluster.Base.Bytes.{Bytes}
use gpustat4cluster.Protocol.FrameType.{FrameType}
use gpustat4cluster.Protocol.Header
use gpustat4cluster.Protocol.Header.{FrameHeader, new}
use gpustat4cluster.Protocol.Frame.{decode_frame, encode_frame}
use gpustat4cluster.Protocol.Frame.RoundTrip.{
  decode_frame-encode_frame, encode_frame_lem, length-encode_frame,
}
use gpustat4cluster.Udp.Checksum.{Crc}
use gpustat4cluster.Udp.Single.{encode_udp_single_chunk, encode_udp_single_chunk_from_parts}

module _ (crc : Crc) where
  -- The datagram built from a frame's parts is the datagram of the assembled frame, and both
  -- encoders refuse the same frames with the same error, for a payload below 2^32 bytes and a
  -- 64-bit request id.
  pub encode_udp_single_chunk-encode_frame :
      (frame_type : FrameType) (request_id : ℕ) (payload : Bytes)
      → request_id < 2 ^ 64
      → length payload < 2 ^ 32
      → encode_udp_single_chunk_from_parts crc frame_type request_id payload
        ≡ encode_udp_single_chunk crc
            (encode_frame (new frame_type request_id (length payload)) payload)
  unfolding encode_udp_single_chunk_from_parts encode_udp_single_chunk new
  encode_udp_single_chunk-encode_frame frame_type request_id payload id_u64 small =
      ground
        (arith, assembled, length_eq, decoded, crc.finalize_parts (Header.encode header) payload)
    where
      header : FrameHeader
      header = new frame_type request_id (length payload)

      assembled : encode_frame header payload ≡ Header.encode header ++ payload
      assembled = encode_frame_lem header payload small

      length_eq : length (encode_frame header payload) ≡ 18 + length payload
      length_eq = length-encode_frame header payload

      decoded : decode_frame (encode_frame header payload) ≡ ok (header, payload)
      decoded = decode_frame-encode_frame header payload refl id_u64 small
