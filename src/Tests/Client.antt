-- ===== src/Tests/Client.antt =====
-- A client at concrete inputs.
use gpustat4cluster.Base.{◌≡◌, ◌≢◌, refl, [], ◌∷◌, some, none, ok, arith, All, All-append}
use gpustat4cluster.Base.Bytes.{Bytes, IsByte, to_be_bytes, to_be_bytes-IsByte}
use gpustat4cluster.Protocol.Header.{FrameHeader}
use gpustat4cluster.Protocol.Frame.{decode_frame}
use gpustat4cluster.Udp.Checksum.{remainder_crc}
use gpustat4cluster.Udp.Capacity.{effective_udp_payload_capacity}
use gpustat4cluster.Snapshot.{
  metadata_of, metadata_hash, omit_process_commands, to_snapshot, RuntimeSnapshot,
}
use gpustat4cluster.Server.UdpTransport.{payload_cap, serve_datagram}
use gpustat4cluster.Client.Transport.{ClientJson}
use gpustat4cluster.Client.UdpClient
use gpustat4cluster.Client.UdpClient.{
  Round, ConnectedUdpNode, nothing, recv_frame, recv_loop, take_datagram, is_answer, expired,
  send_empty_query,
}
use gpustat4cluster.Client.UdpClient.Query.{query_connected}
use gpustat4cluster.Client.UdpClient.EndToEnd.{query_connected_lem}
use gpustat4cluster.Client.UdpClient.Receive.{
  recv_frame_sound, recv_frame_returns, query_connected_consistent, runtime_of_reply,
}
use gpustat4cluster.Tests.Samples.{json_codec, metadata_archive, runtime_archive, node}
use gpustat4cluster.Tests.Transport.{entry, runtime_bytes, encode_runtime}
use gpustat4cluster.Tests.Udp.{large_frame, decode_large, single_datagram, decode_single}
use gpustat4cluster.Tests.UdpTransport.{network, server}

abbrev pub client_codec : ClientJson
client_codec = record {
  write_handshake = λ request. some (request.version ∷ []);
  write_query = λ query. some (query.version ∷ []);
  read_response = λ bytes. none;
}

abbrev connected : ConnectedUdpNode
connected = record { metadata = metadata_of node; max_payload = 1440; next_request_id = 7 }

runtime_bytes-IsByte : All IsByte runtime_bytes
runtime_bytes-IsByte =
    All-append IsByte (to_be_bytes 8 (metadata_hash (metadata_of node))) (0 ∷ 3 ∷ 55 ∷ 4 ∷ [])
      (to_be_bytes-IsByte 8 (metadata_hash (metadata_of node))) (omega arith)

query_connected_lem_example :
    (query : Bytes) × (answer : Bytes) × (send_empty_query remainder_crc 7 ≡ ok query)
    × ((serve_datagram json_codec metadata_archive runtime_archive remainder_crc network server 5 3
          [] [] query).1
        ≡ some (answer ∷ []))
    × ((query_connected client_codec metadata_archive runtime_archive remainder_crc connected 10 20
          1000
          (record { now = 11; received = UdpClient.datagram answer; after = 12 } ∷ [])).1.1
        ≡ some (ok (omit_process_commands node)))
query_connected_lem_example =
    query_connected_lem remainder_crc metadata_archive runtime_archive client_codec json_codec
      network server 5 3 [] [] entry connected 10 20 1000 11 12 runtime_bytes refl (tt, tt) refl
      (omega arith) encode_runtime runtime_bytes-IsByte
      (unfold payload_cap effective_udp_payload_capacity in omega arith) (omega arith) (omega arith)

-- A round in which the frame for request 7 comes in one datagram.
abbrev arrival : Round
arrival = record { now = 11; received = UdpClient.datagram single_datagram; after = 12 }

received_large : recv_frame remainder_crc 7 10 1000 (arrival ∷ []) ≡ ([], some (ok large_frame))
unfolding recv_frame recv_loop take_datagram is_answer expired
received_large = ground (arith, decode_single, decode_large)

recv_frame_sound_example :
    (h : FrameHeader) × (payload : Bytes) × (decode_frame large_frame ≡ ok (h, payload))
    × (h.request_id ≡ 7)
recv_frame_sound_example =
    recv_frame_sound remainder_crc 7 1000 10 (arrival ∷ []) large_frame
      (ground (arith, received_large))

-- The frame is for another request, and the deadline passes.
recv_frame_returns_example :
    (recv_frame remainder_crc 8 10 1000
      (arrival ∷ record { now = 1010; received = nothing; after = 1011 } ∷ [])).1
    ≢ none
recv_frame_returns_example =
    recv_frame_returns remainder_crc 8 1000 10 (arrival ∷ [])
      (record { now = 1010; received = nothing; after = 1011 }) [] (omega arith)

answered :
    (query : Bytes) × (answer : Bytes) × (send_empty_query remainder_crc 7 ≡ ok query)
    × ((serve_datagram json_codec metadata_archive runtime_archive remainder_crc network server 5 3
          [] [] query).1
        ≡ some (answer ∷ []))
    × ((query_connected client_codec metadata_archive runtime_archive remainder_crc connected 10 20
          1000
          (record { now = 11; received = UdpClient.datagram answer; after = 12 } ∷ [])).1.1
        ≡ some (ok (omit_process_commands node)))
answered =
    query_connected_lem remainder_crc metadata_archive runtime_archive client_codec json_codec
      network server 5 3 [] [] entry connected 10 20 1000 11 12 runtime_bytes refl (tt, tt) refl
      (omega arith) encode_runtime runtime_bytes-IsByte
      (unfold payload_cap effective_udp_payload_capacity in omega arith) (omega arith) (omega arith)

abbrev reply : Round
reply = record { now = 11; received = UdpClient.datagram answered.1; after = 12 }

query_connected_consistent_example :
    (runtime : RuntimeSnapshot) × (runtime_of_reply client_codec metadata_archive runtime_archive
        remainder_crc connected 10 1000
        (reply ∷ [])
      ≡ some (ok runtime))
    × (omit_process_commands node
        ≡ to_snapshot runtime
            (query_connected client_codec metadata_archive runtime_archive remainder_crc connected
              10 20 1000
              (reply ∷ [])).0.metadata)
query_connected_consistent_example =
    query_connected_consistent client_codec metadata_archive runtime_archive remainder_crc connected
      10 20 1000 (reply ∷ []) (omit_process_commands node) answered.4
