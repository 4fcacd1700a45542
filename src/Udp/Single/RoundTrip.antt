-- ===== src/Udp/Single/RoundTrip.antt =====
-- What one datagram carries is what its receiver reads.
use gpustat4cluster.Base.{
  ◌^◌, ◌<◌, ◌++◌, ◌≡◌, refl, arith, ok, some, length, All, Result-cases, inl, inr,
}
use gpustat4cluster.Base.Bytes.{Bytes, IsByte}
use gpustat4cluster.Protocol.FrameType.{frame_type_eq_refl}
use gpustat4cluster.Protocol.Header.{FrameHeader}
use gpustat4cluster.Protocol.Header.Layout.{IsHeader, encode-decode}
use gpustat4cluster.Protocol.Frame.{decode_frame}
use gpustat4cluster.Protocol.Frame.RoundTrip.{decode_frame-inv}
use gpustat4cluster.Udp.Checksum.{Crc}
use gpustat4cluster.Udp.Chunk
use gpustat4cluster.Udp.Chunk.Layout.{drop-encode, decode-encode}
use gpustat4cluster.Udp.Single.{single_header, encode_udp_single_chunk, decode_udp_single_chunk_ref}

module _ (crc : Crc) where
  -- What `encode_udp_single_chunk` has found where it succeeds.
  record Encoded (bytes datagram : Bytes) : Type 0 where
    header : FrameHeader
    payload : Bytes
    frame : decode_frame bytes ≡ ok (header, payload)
    short : length bytes < 2 ^ 16
    written :
        datagram
        ≡ Chunk.encode
            (single_header header.frame_type header.request_id (length bytes) (crc.hash bytes))
          ++ bytes

  encode-inv :
      (bytes datagram : Bytes)
      → encode_udp_single_chunk crc bytes ≡ ok datagram
      → Encoded bytes datagram
  unfolding encode_udp_single_chunk
  encode-inv bytes datagram e = elim (Result-cases (decode_frame bytes)) [
    | inl ((header, payload), d) ↦ record {
      header = header;
      payload = payload;
      frame = d;
      short = ground arith;
      written = ground arith;
    }
    | inr (x, d) ↦ absurd (ground arith)
  ]

  -- The receiver of the single datagram of a frame of bytes reads that frame.
  pub decode_udp_single_chunk_ref-encode_udp_single_chunk :
      (bytes datagram : Bytes)
      → All IsByte bytes
      → encode_udp_single_chunk crc bytes ≡ ok datagram
      → decode_udp_single_chunk_ref crc datagram ≡ ok (some bytes)
  unfolding decode_udp_single_chunk_ref single_header
  decode_udp_single_chunk_ref-encode_udp_single_chunk bytes datagram all e = rw written (
      ground (arith, decoded, drop-encode chunk bytes, frame, frame_type_eq_refl header.frame_type))
    where
      open (encode-inv bytes datagram e) use {header, payload, frame, short, written}

      chunk : Chunk.UdpChunkHeader
      chunk = single_header header.frame_type header.request_id (length bytes) (crc.hash bytes)

      fits : IsHeader header
      fits = (encode-decode bytes header all (decode_frame-inv bytes header payload frame).0).0

      decoded : Chunk.decode (Chunk.encode chunk ++ bytes) ≡ ok chunk
      decoded =
          decode-encode chunk bytes
            (record {
              current = refl;
              request_id_u64 = fits.request_id_u64;
              frame_len_u32 = omega arith;
              total_chunks_u16 = omega arith;
              payload_len_u16 = omega arith;
              prev_checksum_u32 = crc.hash_u32 bytes;
              next_checksum_u32 = crc.hash_u32 bytes;
              in_range = omega arith;
            })
            (omega (arith, short))
