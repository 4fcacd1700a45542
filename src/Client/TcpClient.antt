-- ===== src/Client/TcpClient.antt =====
-- crates/client-backend/src/tcp_client.rs: a client's connection to one node over TCP. The stream is
-- the bytes that the server sends before it closes; writing is taken to succeed.
pub mod EndToEnd
use gpustat4cluster.Base.{
  ℕ, ◌+◌, ltb, leb, not, ◌&&◌, ◌==◌, if◌then◌else◌, Bool, true, false, Option, none, some, List, [],
  ◌∷◌, ◌++◌, Result, ok, err, ◌>>=◌, map_err, map_ok, length, take, drop, min,
}
use gpustat4cluster.Base.Bytes.{Bytes}
use gpustat4cluster.Base.Text.{Text}
use gpustat4cluster.ErrorCode.{ErrorCode}
use gpustat4cluster.Protocol.FrameType.{
  FrameType, metadata_payload, runtime_payload, query_response, disconnect,
}
use gpustat4cluster.Protocol.Header
use gpustat4cluster.Protocol.Header.{frame_header_len}
use gpustat4cluster.Protocol.Payload.{Archive}
use gpustat4cluster.Snapshot.{
  ServerGresSnapshot, HostMetadata, RuntimeSnapshot, metadata_hash, to_snapshot,
}
use gpustat4cluster.Client.Transport.{
  ClientError, ClientJson, unexpected_frame_type, build_handshake_request_frame,
  build_query_request_frame, build_disconnect_frame, parse_metadata_payload_frame,
  parse_runtime_payload_frame, parse_query_response_error_frame,
}

-- Errors as values, without their texts.
pub data TcpClientError : Type 0 where
  header_not_read : TcpClientError
  payload_not_read : TcpClientError
  invalid_frame_header : TcpClientError
  server_refused : ErrorCode → TcpClientError
  empty_reply : TcpClientError
  disconnected : TcpClientError
  transport_failed : ClientError → TcpClientError

-- The bytes that are still to come and the metadata. `is_open` is lost by `shutdown`.
pub record ConnectedTcpNode : Type 0 where
  pub io : Bytes
  pub is_open : Bool
  pub metadata : HostMetadata

unfoldable pub tcp_hostname : ConnectedTcpNode → Text
tcp_hostname self = self.metadata.hostname

unfoldable pub tcp_gres_num : ConnectedTcpNode → ℕ
tcp_gres_num self = min (length self.metadata.gres) 255

-- The rest of the stream, and the frame.
unfoldable pub read_frame : Bytes → Bytes × Result Bytes TcpClientError
read_frame stream =
    let header_bytes = take frame_header_len stream in
    let rest = drop frame_header_len stream in
    if ltb (length stream) frame_header_len
    then ([], err header_not_read)
    else elim (Header.decode header_bytes) [
      | err e ↦ (rest, err invalid_frame_header)
      | ok header ↦
          if not (ltb 0 header.payload_len)
          then (rest, ok header_bytes)
          else if ltb (length rest) header.payload_len
          then ([], err payload_not_read)
          else (drop header.payload_len rest, ok (header_bytes ++ take header.payload_len rest))
    ]

module _ (codec : ClientJson) (metadata_archive : Archive HostMetadata)
    (runtime_archive : Archive RuntimeSnapshot) where
  -- What a `QueryResponse` in place of the payload means.
  unfoldable pub tcp_response_error : Bytes → TcpClientError
  tcp_response_error frame = elim (parse_query_response_error_frame codec frame) [
    | err e ↦ transport_failed e
    | ok (some code) ↦ server_refused code
    | ok none ↦ empty_reply
  ]

  unfoldable pub parse_tcp_handshake_reply : Bytes → Result HostMetadata TcpClientError
  parse_tcp_handshake_reply frame = elim (parse_metadata_payload_frame metadata_archive frame) [
    | ok metadata ↦ ok metadata
    | err (unexpected_frame_type metadata_payload query_response) ↦ err (tcp_response_error frame)
    | err e ↦ err (transport_failed e)
  ]

  unfoldable pub parse_tcp_query_reply :
      Bytes → HostMetadata → Result ServerGresSnapshot TcpClientError
  parse_tcp_query_reply frame metadata = elim (parse_runtime_payload_frame runtime_archive frame) [
    | ok runtime ↦ ok (to_snapshot runtime metadata)
    | err (unexpected_frame_type runtime_payload query_response) ↦ err (tcp_response_error frame)
    | err (unexpected_frame_type runtime_payload disconnect) ↦ err disconnected
    | err e ↦ err (transport_failed e)
  ]

  -- `refresh_metadata` with the request id 3, and the request of `connect_node` with the id 1: the
  -- frame that is written, the rest of the stream, and the metadata.
  unfoldable pub ask_metadata :
      ℕ → Bytes → List Bytes × (Bytes × Result HostMetadata TcpClientError)
  ask_metadata request_id stream =
      let (rest, reply) = read_frame stream in
      elim (build_handshake_request_frame codec request_id) [
        | err e ↦ ([], (stream, err (transport_failed e)))
        | ok request ↦ (request ∷ [], (rest, reply >>= parse_tcp_handshake_reply))
      ]

  unfoldable pub connect_tcp_node : Bytes → List Bytes × Result ConnectedTcpNode TcpClientError
  unfolding ask_metadata
  connect_tcp_node stream =
      let (sent, (rest, reply)) = ask_metadata 1 stream in
      (
        sent,
        elim reply [
          | err e ↦ err e
          | ok metadata ↦ ok (record { io = rest; is_open = true; metadata = metadata })
        ],
      )

  -- What follows the runtime part: other metadata are asked for where the hash is not that of the
  -- node's.
  unfoldable pub tcp_with_metadata :
      ConnectedTcpNode
      → RuntimeSnapshot
      → ConnectedTcpNode × (List Bytes × Result ServerGresSnapshot TcpClientError)
  tcp_with_metadata node runtime =
      let (sent, (rest, reply)) = ask_metadata 3 node.io in
      if not (runtime.metadata_hash == 0)
        && not (runtime.metadata_hash == metadata_hash node.metadata)
      then elim reply [
        | err e ↦ (record node { io = rest }, (sent, err e))
        | ok refreshed ↦ (
          record node { io = rest; metadata = refreshed },
          (sent, ok (to_snapshot runtime refreshed)),
        )
      ]
      else (node, ([], ok (to_snapshot runtime node.metadata)))

  -- The node afterwards, the frames that are written, and the outcome.
  unfoldable pub query_tcp_connected :
      ConnectedTcpNode → ConnectedTcpNode × (List Bytes × Result ServerGresSnapshot TcpClientError)
  query_tcp_connected node =
      let (rest, reply) = read_frame node.io in
      let node' = record node { io = rest } in
      elim (build_query_request_frame codec 2) [
        | err e ↦ (node, ([], err (transport_failed e)))
        | ok query ↦ elim reply [
          | err e ↦ (node', (query ∷ [], err e))
          | ok frame ↦ elim (parse_runtime_payload_frame runtime_archive frame) [
            | err e ↦ (node', (query ∷ [], parse_tcp_query_reply frame node.metadata))
            | ok runtime ↦
                let (node'', (sent, outcome)) = tcp_with_metadata node' runtime in
                (node'', (query ∷ sent, outcome))
          ]
        ]
      ]

-- `close`, and the end of `disconnect`
unfoldable pub close_connected : ConnectedTcpNode → ConnectedTcpNode
close_connected node = record node { is_open = false }

unfoldable pub tcp_disconnect :
    ConnectedTcpNode → Bytes → ConnectedTcpNode × Result (List Bytes) ClientError
unfolding close_connected
tcp_disconnect node reason = elim (build_disconnect_frame 0 reason) [
  | err e ↦ (node, err e)
  | ok frame ↦ (close_connected node, ok (frame ∷ []))
]
