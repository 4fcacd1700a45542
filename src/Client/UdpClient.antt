-- ===== src/Client/UdpClient.antt =====
-- crates/client-backend/src/udp_client.rs: a client's connection to one node over UDP.
pub mod Query
pub mod Receive
pub mod EndToEnd
pub mod Disconnect
use gpustat4cluster.Base.{
  ℕ, ◌+◌, ◌%◌, ◌^◌, ltb, leb, not, ◌||◌, ◌&&◌, ◌==◌, if◌then◌else◌, Bool, true, false, Option, none,
  some, List, [], ◌∷◌, Result, ok, err, ◌>>=◌, map_err, map_ok, length, min,
}
use gpustat4cluster.Base.Bytes.{Bytes}
use gpustat4cluster.ErrorCode.{ErrorCode}
use gpustat4cluster.Protocol.FrameType.{
  FrameType, query_request, metadata_payload, runtime_payload, query_response, disconnect,
}
use gpustat4cluster.Protocol.Frame.{decode_frame}
use gpustat4cluster.Protocol.Payload.{Archive}
use gpustat4cluster.Udp.Checksum.{Crc}
use gpustat4cluster.Udp.Chunk.{UdpChunkError}
use gpustat4cluster.Udp.Split.{encode_udp_chunks}
use gpustat4cluster.Udp.Single.{
  encode_udp_single_chunk, encode_udp_single_chunk_from_parts, decode_udp_single_chunk_ref,
}
use gpustat4cluster.Udp.Reassembler
use gpustat4cluster.Udp.Reassembler.{Reassembler, insert, is_expired}
use gpustat4cluster.Snapshot.{
  ServerGresSnapshot, HostMetadata, RuntimeSnapshot, metadata_hash, to_snapshot,
}
use gpustat4cluster.Client.Transport.{
  ClientError, ClientJson, unexpected_frame_type, build_handshake_request_frame,
  build_disconnect_frame, parse_metadata_payload_frame, parse_runtime_payload_frame,
  parse_query_response_error_frame,
}

-- Errors as values, without their texts: of the socket, of the server, of a datagram, of a frame.
pub data UdpClientError : Type 0 where
  wait_timeout : UdpClientError
  reassemble_timeout : UdpClientError
  receive_failed : UdpClientError
  server_error : ErrorCode → UdpClientError
  empty_response : UdpClientError
  peer_disconnected : UdpClientError
  decode_failed : UdpChunkError → UdpClientError
  transport_error : ClientError → UdpClientError

pub data Received : Type 0 where
  datagram : Bytes → Received
  -- `WouldBlock` or `TimedOut`
  nothing : Received
  failure : Received

-- One round of the loop of `recv_frame`: the instant of its tests, what the socket gives, and the
-- instant after that.
pub record Round : Type 0 where
  pub now : ℕ
  pub received : Received
  pub after : ℕ

-- A result and the rounds that are left; `none` while the client still waits.
abbrev pub Waited : Type 0 → Type 0
Waited A = List Round × Option (Result A UdpClientError)

unfoldable pub expired : Option Reassembler → ℕ → Bool
expired none now = false
expired (some reassembler) now = is_expired now reassembler

module _ (crc : Crc) (request_id timeout : ℕ) where
  -- Whether a frame is the answer that is waited for.
  unfoldable pub is_answer : Bytes → Result Bool UdpClientError
  is_answer bytes = do
    (header, payload) ← map_err (λ e. decode_failed (UdpChunkError.frame e)) (decode_frame bytes)
    ok (header.request_id == request_id)

  -- The outcome of one datagram: the reassembler, and the frame that is complete.
  unfoldable pub take_datagram :
      Option Reassembler → ℕ → Bytes → Option Reassembler × Result (Option Bytes) UdpChunkError
  take_datagram reassembler now bytes = elim (decode_udp_single_chunk_ref crc bytes) [
    | err e ↦ (reassembler, err e)
    | ok (some frame) ↦ (reassembler, ok (some frame))
    | ok none ↦
        let current : Reassembler = elim reassembler [
          | none ↦ Reassembler.new now timeout
          | some old ↦ old
        ] in
        let (current', result) = insert crc current bytes in (some current', result)
  ]

  unfoldable pub recv_loop : ℕ → Option Reassembler → List Round → Waited Bytes
  recv_loop deadline reassembler [] = ([], none)
  recv_loop deadline reassembler (round ∷ rest) =
      if not (ltb round.now deadline) || expired reassembler round.now
      then (round ∷ rest, some (err reassemble_timeout))
      else elim round.received [
        | nothing ↦ (rest, some (err wait_timeout))
        | failure ↦ (rest, some (err receive_failed))
        | datagram bytes ↦
            let (reassembler', result) = take_datagram reassembler round.after bytes in
            let next = recv_loop deadline reassembler' rest in
            elim result [
              | err e ↦ (rest, some (err (decode_failed e)))
              | ok none ↦ next
              | ok (some frame) ↦ elim (is_answer frame) [
                | err e ↦ (rest, some (err e))
                | ok true ↦ (rest, some (ok frame))
                | ok false ↦ next
              ]
            ]
      ]

-- `recv_frame` at the instant `start`.
unfoldable pub recv_frame : Crc → ℕ → ℕ → ℕ → List Round → Waited Bytes
recv_frame crc request_id start timeout rounds =
    recv_loop crc request_id timeout (start + timeout) none rounds

pub record ConnectedUdpNode : Type 0 where
  pub metadata : HostMetadata
  pub max_payload : ℕ
  pub next_request_id : ℕ

unfoldable pub next_id : ConnectedUdpNode → ConnectedUdpNode × ℕ
next_id self =
    (record self { next_request_id = (self.next_request_id + 1) % 2 ^ 64 }, self.next_request_id)

-- `ConnectedUdpNode::gres_num`
unfoldable pub announced_gres : ConnectedUdpNode → ℕ
announced_gres self = min (length self.metadata.gres) 255

-- The datagrams of a request.
unfoldable pub send_frame : Crc → Bytes → ℕ → Result (List Bytes) UdpClientError
send_frame crc frame max_payload =
    if leb (length frame) max_payload
    then map_ok (λ one. one ∷ []) (map_err decode_failed (encode_udp_single_chunk crc frame))
    else map_err decode_failed (encode_udp_chunks crc frame max_payload)

unfoldable pub send_empty_query : Crc → ℕ → Result Bytes UdpClientError
send_empty_query crc request_id =
    map_err decode_failed (encode_udp_single_chunk_from_parts crc query_request request_id [])

module _ (codec : ClientJson) (metadata_archive : Archive HostMetadata)
    (runtime_archive : Archive RuntimeSnapshot) where
  -- What a `QueryResponse` in place of the payload means.
  unfoldable pub response_error : Bytes → UdpClientError
  response_error frame = elim (parse_query_response_error_frame codec frame) [
    | err e ↦ transport_error e
    | ok (some code) ↦ server_error code
    | ok none ↦ empty_response
  ]

  unfoldable pub parse_handshake_reply : Bytes → Result HostMetadata UdpClientError
  parse_handshake_reply frame = elim (parse_metadata_payload_frame metadata_archive frame) [
    | ok metadata ↦ ok metadata
    | err (unexpected_frame_type metadata_payload query_response) ↦ err (response_error frame)
    | err e ↦ err (transport_error e)
  ]

  unfoldable pub parse_query_reply : Bytes → HostMetadata → Result ServerGresSnapshot UdpClientError
  parse_query_reply frame metadata = elim (parse_runtime_payload_frame runtime_archive frame) [
    | ok runtime ↦ ok (to_snapshot runtime metadata)
    | err (unexpected_frame_type runtime_payload query_response) ↦ err (response_error frame)
    | err (unexpected_frame_type runtime_payload disconnect) ↦ err peer_disconnected
    | err e ↦ err (transport_error e)
  ]

  abbrev empty_metadata : HostMetadata
  empty_metadata = record { hostname = []; driver_version = none; gres = [] }

  -- What `recv_query_runtime` makes of the frame that came.
  unfoldable pub parse_query_runtime : Bytes → Result RuntimeSnapshot UdpClientError
  parse_query_runtime frame = elim (parse_runtime_payload_frame runtime_archive frame) [
    | ok runtime ↦ ok runtime
    | err e ↦ elim (parse_query_reply frame empty_metadata) [
      | ok _ ↦ err (transport_error e)
      | err other ↦ err other
    ]
  ]
