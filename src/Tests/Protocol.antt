-- ===== src/Tests/Protocol.antt =====
-- The wire formats at concrete inputs.
use gpustat4cluster.Base.{[], ◌∷◌, ◌++◌, ◌≡◌, refl, ok, err, arith, drop}
use gpustat4cluster.Base.Bytes.{Bytes, bytes_eq}
use gpustat4cluster.Protocol.FrameType.{try_from, as_u8, query_request}
use gpustat4cluster.Protocol.Header
use gpustat4cluster.Protocol.Header.{FrameHeader}
use gpustat4cluster.Protocol.Frame.{
  from_header_error, bad_magic, short_header, payload_length_mismatch, encode_frame, decode_frame,
}
use gpustat4cluster.Protocol.Frame.RoundTrip.{decode_frame-encode_frame, encode_frame-decode_frame}
use gpustat4cluster.Protocol.Payload.{
  encode_rkyv_payload, payload_len_from_archived_len, encode_payload,
}
use gpustat4cluster.Snapshot.{metadata_of, static_info}
use gpustat4cluster.Tests.Samples.{metadata_archive, node}

-- The header of the frame in the tests of the source: request 7, a payload of 3 bytes.
abbrev small_header : FrameHeader
small_header = record { version = 1; frame_type = query_request; request_id = 7; payload_len = 3 }

abbrev small_frame : Bytes
small_frame =
    b'G' ∷ b'4' ∷ b'C' ∷ b'1' ∷ 1 ∷ 5 ∷ 0 ∷ 0 ∷ 0 ∷ 0 ∷ 0 ∷ 0 ∷ 0 ∷ 7 ∷ 0 ∷ 0 ∷ 0 ∷ 3 ∷ 9 ∷ 8 ∷ 7
    ∷ []

encode_small : encode_frame small_header (9 ∷ 8 ∷ 7 ∷ []) ≡ small_frame
unfolding encode_frame Header.encode as_u8
encode_small = refl

decode_small : decode_frame small_frame ≡ ok (small_header, 9 ∷ 8 ∷ 7 ∷ [])
unfolding decode_frame Header.decode bytes_eq try_from
decode_small = refl

decode_extra :
    (decode_frame (small_frame ++ (0 ∷ [])) ≡ err (payload_length_mismatch 3 4))
    × (decode_frame (drop 1 small_frame) ≡ err bad_magic)
    × (decode_frame [] ≡ err (short_header 0 18))
unfolding decode_frame Header.decode bytes_eq try_from from_header_error
decode_extra = (refl, refl, refl)

decode_frame-encode_frame_example :
    decode_frame (encode_frame small_header (1 ∷ 2 ∷ []))
    ≡ ok (record small_header { payload_len = 2 }, 1 ∷ 2 ∷ [])
decode_frame-encode_frame_example =
    decode_frame-encode_frame small_header (1 ∷ 2 ∷ []) refl (omega arith) (omega arith)

encode_frame-decode_frame_example : encode_frame small_header (9 ∷ 8 ∷ 7 ∷ []) ≡ small_frame
encode_frame-decode_frame_example =
    encode_frame-decode_frame small_frame small_header (9 ∷ 8 ∷ 7 ∷ []) (omega arith) decode_small

decode_header_small : Header.decode small_frame ≡ ok small_header
unfolding Header.decode bytes_eq try_from
decode_header_small = refl

abbrev node_bytes : Bytes
node_bytes = 0 ∷ 80 ∷ 4 ∷ b'A' ∷ b'1' ∷ b'0' ∷ b'0' ∷ b'n' ∷ b'1' ∷ []

encode_node : encode_rkyv_payload metadata_archive (metadata_of node) ≡ ok node_bytes
unfolding encode_rkyv_payload payload_len_from_archived_len metadata_of static_info
encode_node = refl

encode_old : encode_payload 300 (5 ∷ []) ≡ ok (0 ∷ 0 ∷ 0 ∷ 0 ∷ 0 ∷ 0 ∷ 1 ∷ 44 ∷ 5 ∷ [])
unfolding encode_payload
encode_old = refl
