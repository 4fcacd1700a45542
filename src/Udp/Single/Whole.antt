-- ===== src/Udp/Single/Whole.antt =====
-- A message of a type, an id and a payload, in one datagram and back.
use gpustat4cluster.Base.{
  ℕ, ◌+◌, ◌^◌, ◌<◌, ◌∷◌, ◌++◌, ◌≡◌, refl, ◌∙◌, ok, some, arith, length, All, All-append,
}
use gpustat4cluster.Base.Bytes.{Bytes, IsByte, to_be_bytes, to_be_bytes-IsByte}
use gpustat4cluster.Protocol.FrameType.{FrameType, as_u8, as_u8-IsByte}
use gpustat4cluster.Protocol.Header
use gpustat4cluster.Protocol.Header.{FrameHeader, frame_magic}
use gpustat4cluster.Protocol.Frame.{encode_frame}
use gpustat4cluster.Protocol.Frame.RoundTrip.{decode_frame-encode_frame, length-encode_frame}
use gpustat4cluster.Udp.Checksum.{Crc}
use gpustat4cluster.Udp.Chunk
use gpustat4cluster.Udp.Single.{
  single_header, encode_udp_single_chunk, encode_udp_single_chunk_from_parts,
  decode_udp_single_chunk_ref,
}
use gpustat4cluster.Udp.Single.Parts.{encode_udp_single_chunk-encode_frame}
use gpustat4cluster.Udp.Single.RoundTrip.{decode_udp_single_chunk_ref-encode_udp_single_chunk}

encode-IsByte :
    (t : FrameType) (id len : ℕ)
    → All IsByte
        (Header.encode (record { version = 1; frame_type = t; request_id = id; payload_len = len }))
unfolding Header.encode
encode-IsByte t id len =
    All-append IsByte frame_magic (1 ∷ as_u8 t ∷ (to_be_bytes 8 id ++ to_be_bytes 4 len))
      (omega arith)
      (
        omega arith,
        (
          as_u8-IsByte t,
          All-append IsByte (to_be_bytes 8 id) (to_be_bytes 4 len) (to_be_bytes-IsByte 8 id)
              (to_be_bytes-IsByte 4 len),
        ),
      )

pub encode_frame-IsByte :
    (t : FrameType) (id len : ℕ) (payload : Bytes)
    → All IsByte payload
    → All IsByte (encode_frame (Header.new t id len) payload)
unfolding encode_frame Header.new
encode_frame-IsByte t id len payload all = All-append IsByte _ payload (encode-IsByte t id _) all

module _ (crc : Crc) where
  -- The datagram of a type, a 64-bit request id and a payload of bytes is built, and its receiver
  -- reads the frame of the three, where the frame has at most 65535 bytes.
  pub encode_udp_single_chunk_from_parts_lem :
      (t : FrameType) (id : ℕ) (payload : Bytes)
      → id < 2 ^ 64
      → 18 + length payload < 2 ^ 16
      → All IsByte payload
      → (d : Bytes) × (encode_udp_single_chunk_from_parts crc t id payload ≡ ok d)
        × (decode_udp_single_chunk_ref crc d
            ≡ ok (some (encode_frame (Header.new t id (length payload)) payload)))
  unfolding encode_udp_single_chunk
  encode_udp_single_chunk_from_parts_lem t id payload id_u64 short all =
      let frame = encode_frame (Header.new t id (length payload)) payload in
      let back =
        decode_frame-encode_frame (Header.new t id (length payload)) payload
          (unfold Header.new in refl) (unfold Header.new in id_u64) (omega arith) in
      let datagram = Chunk.encode (single_header t id (length frame) (crc.hash frame)) ++ frame in
      let built : encode_udp_single_chunk crc frame ≡ ok datagram =
        unfold Header.new in
        ground (arith, back, length-encode_frame (Header.new t id (length payload)) payload) in
      (
        datagram,
        encode_udp_single_chunk-encode_frame crc t id payload id_u64 (omega arith) ∙ built,
        decode_udp_single_chunk_ref-encode_udp_single_chunk crc frame datagram
            (encode_frame-IsByte t id (length payload) payload all) built,
      )
