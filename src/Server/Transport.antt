-- ===== src/Server/Transport.antt =====
-- crates/server/src/transport.rs: what a server answers to one frame.
pub mod Reply
pub mod Datagram
use gpustat4cluster.Base.{
  ℕ, ◌+◌, ◌%◌, ◌^◌, ltb, leb, ◌==◌, if◌then◌else◌, Option, none, some, List, Result, ok, err, ◌>>=◌,
  map_err, map_ok, length,
}
use gpustat4cluster.Base.Bytes.{Bytes}
use gpustat4cluster.ErrorCode.{ErrorCode}
use gpustat4cluster.Protocol.FrameType.{
  FrameType, handshake_request, query_request, metadata_payload, runtime_payload, query_response,
}
use gpustat4cluster.Protocol.Header
use gpustat4cluster.Protocol.Header.{FrameHeader, frame_header_len}
use gpustat4cluster.Protocol.Frame.{FrameDecodeError, encode_frame, decode_frame}
use gpustat4cluster.Protocol.Version.{
  HandshakeRequest, QueryRequest, QueryResponse, validate_request, validate_protocol_version,
  error_response,
}
use gpustat4cluster.Protocol.Payload.{Archive, PayloadEncodeError, encode_rkyv_payload}
use gpustat4cluster.Udp.Checksum.{Crc}
use gpustat4cluster.Udp.Chunk.{UdpChunkError}
use gpustat4cluster.Udp.Single.{encode_udp_single_chunk_from_parts}
use gpustat4cluster.Snapshot.{HostMetadata, RuntimeSnapshot, metadata_of, runtime_of}
use gpustat4cluster.Server.Cache.{GresCache, CacheEntry, Env, get_latest_or_refresh}

pub record DecodedFrame : Type 0 where
  pub header : FrameHeader
  pub payload : Bytes

-- The errors of rkyv and of the chunk encoder are kept as values, where the source keeps their
-- debug texts. `json` stands for an error of serde_json.
pub data TransportError : Type 0 where
  frame_decode : FrameDecodeError → TransportError
  unexpected_frame_type : FrameType → TransportError
  protocol : ErrorCode → TransportError
  json : TransportError
  payload_error : PayloadEncodeError → TransportError
  udp : UdpChunkError → TransportError

-- What serde_json does for the messages of this file; `none` is an error.
pub record Json : Type 0 where
  pub read_handshake : Bytes → Option HandshakeRequest
  pub read_query : Bytes → Option QueryRequest
  pub write_response : QueryResponse → Option Bytes

abbrev pub or_json {ℓ} : {A : Type ℓ} → Option A → Result A TransportError
or_json none = err json
or_json (some a) = ok a

unfoldable pub encode_transport_frame : FrameType → ℕ → Bytes → Bytes
encode_transport_frame frame_type request_id payload =
    encode_frame (Header.new frame_type request_id (length payload % 2 ^ 32)) payload

unfoldable pub decode_transport_frame : Bytes → Result DecodedFrame TransportError
decode_transport_frame frame = do
  (header, payload) ← map_err frame_decode (decode_frame frame)
  ok (record { header = header; payload = payload })

-- The cache after the request, and the answer; `none` while the caller waits for another's refresh.
abbrev pub Answer : Type 0 → Type 0
Answer A = GresCache × Option (Result A TransportError)

module _ (json_codec : Json) (metadata_archive : Archive HostMetadata)
    (runtime_archive : Archive RuntimeSnapshot) where
  -- The type and the payload of the answer to a metadata request, from what the cache returned.
  unfoldable pub metadata_reply :
      ℕ → Result CacheEntry ErrorCode → Result (FrameType × Bytes) TransportError
  metadata_reply request_id (ok entry) = do
    payload ←
        map_err payload_error (encode_rkyv_payload metadata_archive (metadata_of entry.snapshot))
    ok (metadata_payload, payload)
  metadata_reply request_id (err code) = do
    payload ← or_json (json_codec.write_response (error_response request_id code))
    ok (query_response, payload)

  -- The same for a query.
  unfoldable pub runtime_reply :
      ℕ → Result CacheEntry ErrorCode → Result (FrameType × Bytes) TransportError
  runtime_reply request_id (ok entry) = do
    payload ←
        map_err payload_error (encode_rkyv_payload runtime_archive (runtime_of entry.snapshot))
    ok (runtime_payload, payload)
  runtime_reply request_id (err code) = do
    payload ← or_json (json_codec.write_response (error_response request_id code))
    ok (query_response, payload)

  -- The tests of a metadata request.
  unfoldable pub accept_handshake : Bytes → Result (Unit {0}) TransportError
  accept_handshake payload = do
    request ← or_json (json_codec.read_handshake payload)
    map_err protocol (validate_request request)

  abbrev pub framed : ℕ → FrameType × Bytes → Result Bytes TransportError
  framed request_id (frame_type, payload) =
      ok (encode_transport_frame frame_type request_id payload)

  unfoldable pub handle_handshake : GresCache → List Env → ℕ → Bytes → Answer Bytes
  handle_handshake cache envs request_id payload =
      let (cache', latest) = get_latest_or_refresh cache envs in
      elim (accept_handshake payload) [
        | err e ↦ (cache, some (err e))
        | ok _ ↦ elim latest [
          | none ↦ (cache', none)
          | some result ↦ (cache', some (metadata_reply request_id result >>= framed request_id))
        ]
      ]

  -- The id that a query is answered with: that of the header for an empty payload.
  unfoldable pub query_id : ℕ → Bytes → Result ℕ TransportError
  query_id request_id payload = if length payload == 0 then ok request_id else do
    request ← or_json (json_codec.read_query payload)
    valid ← map_err protocol (validate_protocol_version request.version)
    ok request.request_id

  unfoldable pub handle_query : GresCache → List Env → ℕ → Bytes → Answer Bytes
  handle_query cache envs request_id payload =
      let (cache', latest) = get_latest_or_refresh cache envs in
      elim (query_id request_id payload) [
        | err e ↦ (cache, some (err e))
        | ok id ↦ elim latest [
          | none ↦ (cache', none)
          | some result ↦ (cache', some (runtime_reply id result >>= framed id))
        ]
      ]

  unfoldable pub handle_decoded_frame : GresCache → List Env → DecodedFrame → Answer Bytes
  handle_decoded_frame cache envs decoded = elim decoded.header.frame_type [
    | handshake_request ↦ handle_handshake cache envs decoded.header.request_id decoded.payload
    | query_request ↦ handle_query cache envs decoded.header.request_id decoded.payload
    | other ↦ (cache, some (err (unexpected_frame_type other)))
  ]

  unfoldable pub handle_frame : GresCache → List Env → Bytes → Answer Bytes
  handle_frame cache envs frame = elim (decode_transport_frame frame) [
    | err e ↦ (cache, some (err e))
    | ok decoded ↦ handle_decoded_frame cache envs decoded
  ]

  module _ (crc : Crc) where
    -- One datagram, if the frame fits.
    unfoldable pub datagram : ℕ → ℕ → FrameType × Bytes → Result (Option Bytes) TransportError
    datagram request_id max_payload (frame_type, payload) =
        if ltb max_payload (frame_header_len + length payload)
        then ok none
        else map_ok some
            (map_err udp (encode_udp_single_chunk_from_parts crc frame_type request_id payload))

    unfoldable pub handle_empty_query_udp_datagram :
        GresCache → List Env → ℕ → ℕ → Answer (Option Bytes)
    handle_empty_query_udp_datagram cache envs request_id max_payload =
        let (cache', latest) = get_latest_or_refresh cache envs in
        elim latest [
          | none ↦ (cache', none)
          | some result ↦
              (cache', some (runtime_reply request_id result >>= datagram request_id max_payload))
        ]

    unfoldable pub handle_udp_metadata_datagram :
        GresCache → List Env → ℕ → Bytes → ℕ → Answer (Option Bytes)
    handle_udp_metadata_datagram cache envs request_id payload max_payload =
        let (cache', latest) = get_latest_or_refresh cache envs in
        elim (accept_handshake payload) [
          | err e ↦ (cache, some (err e))
          | ok _ ↦ elim latest [
            | none ↦ (cache', none)
            | some result ↦ (
              cache',
              some (metadata_reply request_id result >>= datagram request_id max_payload),
            )
          ]
        ]
