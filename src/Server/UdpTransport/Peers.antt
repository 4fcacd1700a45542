-- ===== src/Server/UdpTransport/Peers.antt =====
-- What one peer's datagram leaves of the state of the others.
use gpustat4cluster.Base.{ℕ, List, ◌≡◌, ◌≢◌, Option, inl, inr, arith, Result-cases, Option-cases}
use gpustat4cluster.Base.Assoc.{find, find-put_ne, find-remove_ne}
use gpustat4cluster.Base.Bytes.{Bytes}
use gpustat4cluster.Protocol.Payload.{Archive}
use gpustat4cluster.Udp.Checksum.{Crc}
use gpustat4cluster.Udp.Reassembler.{insert}
use gpustat4cluster.Snapshot.{HostMetadata, RuntimeSnapshot}
use gpustat4cluster.Server.Cache.{Env}
use gpustat4cluster.Server.Transport.{
  Json, Answer, decode_transport_frame, handle_udp_metadata_datagram,
  handle_empty_query_udp_datagram,
}
use gpustat4cluster.Server.UdpTransport.{
  UdpServer, Network, payload_cap, remember_cap, reassembler_of, receive_datagram, respond,
  try_fast, serve_frame, serve_datagram,
}

-- What is known of another peer in two states is the same.
abbrev pub IsUntouched : ℕ → UdpServer → UdpServer → Type 0
IsUntouched other s s' =
    (find other s'.reassemblers ≡ find other s.reassemblers)
    × (find other s'.payload_caps ≡ find other s.payload_caps)

caps_kept :
    (net : Network) (peer other : ℕ) (caps : List (ℕ × ℕ))
    → peer ≢ other
    → find other (remember_cap net peer caps) ≡ find other caps
unfolding remember_cap
caps_kept net peer other caps ne = find-put_ne peer other (payload_cap net peer caps) caps ne

module _ (crc : Crc) (net : Network) where
  receive_kept :
      (s : UdpServer) (now peer other : ℕ) (datagram : Bytes)
      → peer ≢ other
      → IsUntouched other s (receive_datagram crc net s now peer datagram).0
  unfolding receive_datagram
  receive_kept s now peer other datagram ne = ground (
    arith,
    find-put_ne peer other (insert crc (reassembler_of net now peer s.reassemblers) datagram).0
        s.reassemblers ne,
  )

  module _ (j : Json) (m : Archive HostMetadata) (r : Archive RuntimeSnapshot) where
    respond_kept :
        (s : UdpServer) (peer other : ℕ) (envs : List Env) (frame : Bytes)
        → peer ≢ other
        → IsUntouched other s (respond j m r crc net s peer envs frame).0
    unfolding respond
    respond_kept s peer other envs frame ne =
        ground (arith, caps_kept net peer other s.payload_caps ne)

    fast_kept :
        (s : UdpServer) (peer other : ℕ) (envs : List Env) (frame : Bytes)
        (a : Answer (Option Bytes))
        → peer ≢ other
        → IsUntouched other s (try_fast j m r crc net s peer envs frame a).0
    unfolding try_fast
    fast_kept s peer other envs frame (c, a) ne =
        let s' : UdpServer = record s {
          cache = c;
          payload_caps = remember_cap net peer s.payload_caps;
        } in
        ground (
          arith,
          caps_kept net peer other s.payload_caps ne,
          respond_kept s' peer other envs frame ne,
        )

    frame_kept :
        (s : UdpServer) (peer other : ℕ) (envs again : List Env) (frame : Bytes)
        → peer ≢ other
        → IsUntouched other s (serve_frame j m r crc net s peer envs again frame).0
    unfolding serve_frame
    frame_kept s peer other envs again frame ne =
        let cap = payload_cap net peer s.payload_caps in
        elim (Result-cases (decode_transport_frame frame)) [
          | inl (d, decoded) ↦
              let id = d.header.request_id in
              ground (
                arith,
                decoded,
                respond_kept s peer other again frame ne,
                fast_kept s peer other again frame
                    (handle_udp_metadata_datagram j m r crc s.cache envs id d.payload cap) ne,
                fast_kept s peer other again frame
                    (handle_empty_query_udp_datagram j m r crc s.cache envs id cap) ne,
                find-remove_ne peer other s.reassemblers ne,
              )
          | inr (x, refused) ↦ ground (arith, refused, respond_kept s peer other again frame ne)
        ]

    -- A datagram, whatever it holds, changes neither the reassembler nor the payload limit of any
    -- peer but its sender.
    pub serve_datagram-IsUntouched :
        (s : UdpServer) (now peer other : ℕ) (envs again : List Env) (datagram : Bytes)
        → peer ≢ other
        → IsUntouched other s (serve_datagram j m r crc net s now peer envs again datagram).0
    unfolding serve_datagram
    serve_datagram-IsUntouched s now peer other envs again datagram ne =
        let received = receive_datagram crc net s now peer datagram in
        let kept = receive_kept s now peer other datagram ne in
        elim (Option-cases received.1) [
          | inl incomplete ↦ ground (arith, incomplete, kept)
          | inr (frame, complete) ↦
              ground (arith, complete, kept, frame_kept received.0 peer other envs again frame ne)
        ]
