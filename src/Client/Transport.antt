-- ===== src/Client/Transport.antt =====
-- crates/client-backend/src/transport.rs: the frames of a client.
use gpustat4cluster.Base.{
  ℕ, ◌^◌, ltb, not, ◌==◌, if◌then◌else◌, Option, none, some, Result, ok, err, ◌>>=◌, map_err,
  length,
}
use gpustat4cluster.Base.Bytes.{Bytes}
use gpustat4cluster.ErrorCode.{ErrorCode, protocol_version_mismatch}
use gpustat4cluster.Protocol.FrameType.{
  FrameType, frame_type_eq, handshake_request, query_request, disconnect, metadata_payload,
  runtime_payload, query_response,
}
use gpustat4cluster.Protocol.Header
use gpustat4cluster.Protocol.Header.{FrameHeader, protocol_version}
use gpustat4cluster.Protocol.Frame.{FrameDecodeError, encode_frame, decode_frame}
use gpustat4cluster.Protocol.Version.{
  HandshakeRequest, QueryRequest, QueryResponse, current_request, ok_status, error_status,
}
use gpustat4cluster.Protocol.Payload.{Archive, PayloadDecodeError, decode_rkyv_payload}
use gpustat4cluster.Snapshot.{HostMetadata, RuntimeSnapshot}

-- The texts of errors are not built: `json` and `too_large` stand for them, and an error of rkyv is
-- kept as a value.
pub data ClientError : Type 0 where
  frame : FrameDecodeError → ClientError
  -- the expected type, then the one that came
  unexpected_frame_type : FrameType → FrameType → ClientError
  json : ClientError
  payload_error : PayloadDecodeError → ClientError
  too_large : ℕ → ClientError
  query_error : Option ErrorCode → ClientError

-- What serde_json does for the messages of a client; `none` is an error.
pub record ClientJson : Type 0 where
  pub write_handshake : HandshakeRequest → Option Bytes
  pub write_query : QueryRequest → Option Bytes
  pub read_response : Bytes → Option QueryResponse

abbrev pub json_result {ℓ} : {A : Type ℓ} → Option A → Result A ClientError
json_result none = err json
json_result (some a) = ok a

unfoldable pub encode_bytes_frame : FrameType → ℕ → Bytes → Result Bytes ClientError
encode_bytes_frame frame_type request_id payload =
    if not (ltb (length payload) (2 ^ 32))
    then err (too_large (length payload))
    else ok (encode_frame (Header.new frame_type request_id (length payload)) payload)

unfoldable pub split_frame : Bytes → FrameType → Result (FrameHeader × Bytes) ClientError
split_frame bytes expected = do
  (header, payload) ← map_err frame (decode_frame bytes)
  if not (frame_type_eq header.frame_type expected)
      then err (unexpected_frame_type expected header.frame_type)
      else ok (header, payload)

unfoldable pub build_disconnect_frame : ℕ → Bytes → Result Bytes ClientError
build_disconnect_frame request_id reason = encode_bytes_frame disconnect request_id reason

module _ (codec : ClientJson) where
  unfoldable pub build_handshake_request_frame : ℕ → Result Bytes ClientError
  build_handshake_request_frame request_id = do
    payload ← json_result (codec.write_handshake current_request)
    encode_bytes_frame handshake_request request_id payload

  unfoldable pub build_query_request_frame : ℕ → Result Bytes ClientError
  build_query_request_frame request_id = do
    payload ←
        json_result
          (codec.write_query (record { version = protocol_version; request_id = request_id }))
    encode_bytes_frame query_request request_id payload

  unfoldable pub parse_query_response_error_frame : Bytes → Result (Option ErrorCode) ClientError
  parse_query_response_error_frame bytes = do
    (header, payload) ← split_frame bytes query_response
    response ← json_result (codec.read_response payload)
    if not (response.version == protocol_version)
        then err (query_error (some protocol_version_mismatch))
        else elim response.status [ ok_status ↦ ok none | error_status ↦ ok response.error ]

unfoldable pub parse_metadata_payload_frame :
    Archive HostMetadata → Bytes → Result HostMetadata ClientError
parse_metadata_payload_frame archive bytes = do
  (header, payload) ← split_frame bytes metadata_payload
  map_err payload_error (decode_rkyv_payload archive payload)

unfoldable pub parse_runtime_payload_frame :
    Archive RuntimeSnapshot → Bytes → Result RuntimeSnapshot ClientError
parse_runtime_payload_frame archive bytes = do
  (header, payload) ← split_frame bytes runtime_payload
  map_err payload_error (decode_rkyv_payload archive payload)
