-- ===== src/Protocol/Frame/RoundTrip.antt =====
-- Encoding and decoding of complete frames are inverse to each other.
use gpustat4cluster.Base.{
  ◌%◌, ◌^◌, ◌<◌, ◌++◌, ◌≡◌, ◌∙◌, ap, arith, ok, length, length-append, All, ◌+◌, drop, drop-append,
}
use gpustat4cluster.Base.Bytes.{Bytes, IsByte}
use gpustat4cluster.Protocol.Header
use gpustat4cluster.Protocol.Header.{FrameHeader, protocol_version}
use gpustat4cluster.Protocol.Header.Layout.{IsHeader, decode-encode, length-encode, encode-decode}
use gpustat4cluster.Protocol.Frame.{encode_frame, decode_frame}

pub length-encode_frame :
    (h : FrameHeader) (payload : Bytes) → length (encode_frame h payload) ≡ 18 + length payload
unfolding encode_frame
length-encode_frame h payload =
    let h' = record h { payload_len = length payload % 2 ^ 32 } in
    length-append (Header.encode h') payload ∙ omega (arith, length-encode h')

-- Below 2^32 bytes the header of a frame holds its payload's length.
pub encode_frame_lem :
    (h : FrameHeader) (payload : Bytes)
    → length payload < 2 ^ 32
    → encode_frame h payload ≡ Header.encode (record h { payload_len = length payload }) ++ payload
unfolding encode_frame
encode_frame_lem h payload small =
    let e : length payload % 2 ^ 32 ≡ length payload = omega arith in
    ap (λ n. Header.encode (record h { payload_len = n }) ++ payload) e

-- A frame is decoded to the header it was built with, its payload_len set to the payload's length,
-- and to the payload, for the current version, a 64-bit request id and a payload below 2^32 bytes.
pub decode_frame-encode_frame :
    (h : FrameHeader) (payload : Bytes)
    → h.version ≡ protocol_version
    → h.request_id < 2 ^ 64
    → length payload < 2 ^ 32
    → decode_frame (encode_frame h payload)
      ≡ ok (record h { payload_len = length payload }, payload)
unfolding decode_frame encode_frame
decode_frame-encode_frame h payload current id_u64 small = ground (arith, header_back, payload_back)
  where
    h' : FrameHeader
    h' = record h { payload_len = length payload % 2 ^ 32 }

    header_back : Header.decode (Header.encode h' ++ payload) ≡ ok h'
    header_back =
        decode-encode h' payload
          (record { current = current; request_id_u64 = id_u64; payload_len_u32 = omega arith })

    payload_back : drop 18 (Header.encode h' ++ payload) ≡ payload
    payload_back = drop-append 18 (Header.encode h') payload (length-encode h')

-- What the tests of `decode_frame` have found.
pub decode_frame-inv :
    (bytes : Bytes) (h : FrameHeader) (payload : Bytes)
    → decode_frame bytes ≡ ok (h, payload)
    → (Header.decode bytes ≡ ok h) × (payload ≡ drop 18 bytes) × (length payload ≡ h.payload_len)
unfolding decode_frame
decode_frame-inv bytes h payload e = ground arith

-- Bytes that are accepted as a frame are the encoding of the header and the payload they are
-- decoded to.
pub encode_frame-decode_frame :
    (bytes : Bytes) (h : FrameHeader) (payload : Bytes)
    → All IsByte bytes
    → decode_frame bytes ≡ ok (h, payload)
    → encode_frame h payload ≡ bytes
unfolding encode_frame
encode_frame-decode_frame bytes h payload all e =
    ap (λ n. Header.encode (record h { payload_len = n }) ++ payload) len_eq
    ∙ ap (λ p. Header.encode h ++ p) (inv.1)
    ∙ header.1
  where
    inv :
        (Header.decode bytes ≡ ok h) × (payload ≡ drop 18 bytes) × (length payload ≡ h.payload_len)
    inv = decode_frame-inv bytes h payload e

    header : IsHeader h × (Header.encode h ++ drop 18 bytes ≡ bytes)
    header = encode-decode bytes h all inv.0

    len_eq : length payload % 2 ^ 32 ≡ h.payload_len
    len_eq = omega (arith, inv, header.0)
