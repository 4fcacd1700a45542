-- ===== src/Server/UdpTransport.antt =====
-- crates/server/src/udp_transport.rs: the loop of the UDP server, one received datagram at a time.
pub mod FastPath
pub mod Peers
use gpustat4cluster.Base.{
  ℕ, ◌==◌, leb, if◌then◌else◌, Bool, Option, none, some, List, [], ◌∷◌, Result, ok, err, length,
}
use gpustat4cluster.Base.Assoc.{find, put, remove}
use gpustat4cluster.Base.Bytes.{Bytes}
use gpustat4cluster.Protocol.FrameType.{FrameType, disconnect, handshake_request, query_request}
use gpustat4cluster.Protocol.Payload.{Archive}
use gpustat4cluster.Udp.Checksum.{Crc}
use gpustat4cluster.Udp.Capacity.{effective_udp_payload_capacity}
use gpustat4cluster.Udp.Single.{encode_udp_single_chunk, decode_udp_single_chunk_ref}
use gpustat4cluster.Udp.Split.{encode_udp_chunks}
use gpustat4cluster.Udp.Reassembler
use gpustat4cluster.Udp.Reassembler.{Reassembler, is_expired, insert}
use gpustat4cluster.Snapshot.{HostMetadata, RuntimeSnapshot}
use gpustat4cluster.Server.Cache.{GresCache, Env}
use gpustat4cluster.Server.Transport.{
  Json, TransportError, Answer, decode_transport_frame, handle_frame,
  handle_empty_query_udp_datagram, handle_udp_metadata_datagram,
}

-- The state of the loop. Peers are numbers.
pub record UdpServer : Type 0 where
  pub cache : GresCache
  pub reassemblers : List (ℕ × Reassembler)
  pub payload_caps : List (ℕ × ℕ)

-- What the operating system says of peers, and the configuration.
pub record Network : Type 0 where
  pub is_ipv4 : ℕ → Bool
  pub route_mtu : ℕ → Option ℕ
  pub configured_mtu : ℕ
  pub idle_timeout : ℕ

-- `payload_caps.entry(peer).or_insert_with(...)`: the value, and the map.
unfoldable pub payload_cap : Network → ℕ → List (ℕ × ℕ) → ℕ
payload_cap net peer caps = elim (find peer caps) [
  | some cap ↦ cap
  | none ↦ effective_udp_payload_capacity (net.is_ipv4 peer) (net.route_mtu peer) net.configured_mtu
]

unfoldable pub remember_cap : Network → ℕ → List (ℕ × ℕ) → List (ℕ × ℕ)
remember_cap net peer caps = put peer (payload_cap net peer caps) caps

-- The reassembler of a peer, a new one if there is none or it has expired.
unfoldable pub reassembler_of : Network → ℕ → ℕ → List (ℕ × Reassembler) → Reassembler
reassembler_of net now peer reassemblers =
    let fresh = Reassembler.new now net.idle_timeout in
    elim (find peer reassemblers) [
      | none ↦ fresh
      | some old ↦ if is_expired now old then fresh else old
    ]

module _ (crc : Crc) (net : Network) where
  -- The frame that a datagram completes; `none` where the loop continues with the next datagram.
  unfoldable pub receive_datagram : UdpServer → ℕ → ℕ → Bytes → UdpServer × Option Bytes
  receive_datagram self now peer datagram = elim (decode_udp_single_chunk_ref crc datagram) [
    | ok (some frame) ↦ (self, some frame)
    | ok none ↦
        let (reassembler, result) =
          insert crc (reassembler_of net now peer self.reassemblers) datagram in
        let self' = record self { reassemblers = put peer reassembler self.reassemblers } in
        elim result [ ok frame ↦ (self', frame) | err e ↦ (self', none) ]
    | err e ↦ (self, none)
  ]

module _ (crc : Crc) where
  -- The datagrams of a response, in the order in which they are sent.
  unfoldable pub send_response : ℕ → Bytes → List Bytes
  send_response max_payload response =
      if leb (length response) max_payload
      then elim (encode_udp_single_chunk crc response) [ ok chunk ↦ chunk ∷ [] | err e ↦ [] ]
      else elim (encode_udp_chunks crc response max_payload) [ ok chunks ↦ chunks | err e ↦ [] ]

-- What is sent, `none` while the cache waits for another thread's refresh.
abbrev pub Sent : Type 0
Sent = UdpServer × Option (List Bytes)

module _ (json_codec : Json) (metadata_archive : Archive HostMetadata)
    (runtime_archive : Archive RuntimeSnapshot) (crc : Crc) (net : Network) where
  -- The end of the loop: the answer to a frame, sent as one datagram or as several.
  unfoldable pub respond : UdpServer → ℕ → List Env → Bytes → Sent
  respond self peer envs frame =
      let (cache, answer) =
        handle_frame json_codec metadata_archive runtime_archive self.cache envs frame in
      let self' = record self { cache = cache } in
      elim answer [
        | none ↦ (self', none)
        | some (err e) ↦ (self', some [])
        | some (ok response) ↦ (
          record self' { payload_caps = remember_cap net peer self.payload_caps },
          some (send_response crc (payload_cap net peer self.payload_caps) response),
        )
      ]

  -- A fast answer is sent; one that does not fit is answered by `respond`.
  unfoldable pub try_fast : UdpServer → ℕ → List Env → Bytes → Answer (Option Bytes) → Sent
  try_fast self peer envs frame (cache, answer) =
      let self' = record self {
        cache = cache;
        payload_caps = remember_cap net peer self.payload_caps;
      } in
      let fallback = respond self' peer envs frame in
      elim answer [
        | none ↦ (self', none)
        | some (ok (some datagram)) ↦ (self', some (datagram ∷ []))
        | some (ok none) ↦ fallback
        | some (err e) ↦ (self', some [])
      ]

  -- What the loop does with a frame. A fast answer that does not fit asks the cache again.
  unfoldable pub serve_frame : UdpServer → ℕ → List Env → List Env → Bytes → Sent
  serve_frame self peer envs again frame =
      let cap = payload_cap net peer self.payload_caps in
      let slow = respond self peer again frame in
      elim (decode_transport_frame frame) [
        | err e ↦ slow
        | ok decoded ↦ elim decoded.header.frame_type [
          | disconnect ↦ (record self { reassemblers = remove peer self.reassemblers }, some [])
          | handshake_request ↦ try_fast self peer again frame (
              handle_udp_metadata_datagram json_codec metadata_archive runtime_archive crc
                self.cache envs decoded.header.request_id decoded.payload cap)
          | query_request ↦
              if length decoded.payload == 0
              then try_fast self peer again frame (
                  handle_empty_query_udp_datagram json_codec metadata_archive runtime_archive crc
                    self.cache envs decoded.header.request_id cap)
              else slow
          | other ↦ slow
        ]
      ]

  -- One round of the loop.
  unfoldable pub serve_datagram : UdpServer → ℕ → ℕ → List Env → List Env → Bytes → Sent
  serve_datagram self now peer envs again datagram =
      let (received, complete) = receive_datagram crc net self now peer datagram in
      elim complete [
        | none ↦ (received, some [])
        | some frame ↦ serve_frame received peer envs again frame
      ]
